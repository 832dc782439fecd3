-- ===== src/Prelude/Bits.antt =====
-- Masks and shifts of numbers that are not negative: a mask of `k` ones takes the remainder by `2 ^ k`.
use Prim.Native.Nat.{bit_and, digits, bit_and-bitwise}
use native.Mathlib.Nat.{
  zero-add, suc-add, zero-mod, two-pow-succ, one-le-pow, div-add-mod, div-div-eq-div-mul,
}
use card.Prelude.{ℕ, zero, suc, ◌+◌, ◌-◌, ◌*◌, ◌/◌, ◌%◌, ◌^◌, ◌≤◌, ◌≡◌, ◌∙◌, ap, arith, min}

pub pow-add : (j k : ℕ) → 2 ^ (j + k) ≡ 2 ^ j * 2 ^ k
pow-add zero k = omega (arith, ap (λ (t : ℕ). 2 ^ t) (zero-add k))
pow-add (suc j) k = omega (
  arith,
  ap (λ (t : ℕ). 2 ^ t) (suc-add j k),
  two-pow-succ (j + k),
  ap (λ (t : ℕ). t * 2 ^ k) (two-pow-succ j),
  pow-add j k,
)

-- The remainder by twice a number, from the last digit and the rest.
mod_double : (a m : ℕ) → a % (2 * m) ≡ a / 2 % m * 2 + a % 2
mod_double a m = omega (
  arith,
  div-add-mod a (2 * m),
  div-add-mod (a / 2) m,
  ap (λ (t : ℕ). 2 * m * t) (div-div-eq-div-mul a 2 m),
)

mask_width : (k : ℕ) → 2 ^ suc k ≡ 2 * 2 ^ k
mask_width k = omega (arith, two-pow-succ k)

-- Half of a mask is the next shorter one, and its last digit is 1.
mask_half : (k : ℕ) → ((2 ^ suc k - 1) / 2 ≡ 2 ^ k - 1) × ((2 ^ suc k - 1) % 2 ≡ 1)
mask_half k = omega (arith, two-pow-succ k, one-le-pow k 2)

-- The digits of a number under a mask, with the number as a bound of the digits looked at.
mask_digits : (bound k a : ℕ) → a ≤ bound → digits (λ b. zero) min bound a (2 ^ k - 1) ≡ a % 2 ^ k
mask_digits zero k zero h = omega (arith, zero-mod (2 ^ k))
mask_digits zero k (suc a) h = absurd (omega arith)
mask_digits (suc bound) k zero h = omega (arith, zero-mod (2 ^ k))
mask_digits (suc bound) zero (suc a) h =
    omega (arith, mask_digits bound zero (suc a / 2) (omega arith))
mask_digits (suc bound) (suc k) (suc a) h = omega (
  arith,
  mask_half k,
  ap (digits (λ b. zero) min bound (suc a / 2)) (mask_half k).0,
  mask_digits bound k (suc a / 2) (omega arith),
  mod_double (suc a) (2 ^ k),
  ap (λ (t : ℕ). suc a % t) (mask_width k),
)

pub bit_and-mask : (k a : ℕ) → bit_and a (2 ^ k - 1) ≡ a % 2 ^ k
bit_and-mask k a = bit_and-bitwise a (2 ^ k - 1) ∙ mask_digits a k a (omega arith)
