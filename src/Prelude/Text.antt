-- ===== src/Prelude/Text.antt =====
-- Go strings as lists of code points, with the `strings` and `strconv` functions that the code uses.
use Prim.Native.Char.{code}
use Prim.Native.String.{String}
use mathlib.Core.List.{reverse, reverse-cons, reverse-reverse}
use card.Prelude.{
  arith, ◌++◌, ◌<◌, ◌/◌, ◌%◌, ℕ, ◌+◌, ◌-◌, ◌*◌, ◌^◌, ◌≡◌, refl, Bool, true, false, ◌&&◌, ◌||◌, List,
  [], ◌∷◌, Option, none, some, leb, ltb, ◌==◌, if◌then◌else◌, ℕ_discrete,
}
use card.Prelude.Int.{ℤ, pos, sub_ℕ}

abbrev pub Str : Type 0
Str = List ℕ

-- A text literal.
abbrev pub codes : String → Str
codes String.[] = []
codes (String.◌∷◌ c s) = code c ∷ codes s

cons_dec : (a b : ℕ) (s t : Str) → Dec (a ≡ b) → Dec (s ≡ t) → Dec ((a ∷ s) ≡ (b ∷ t))
cons_dec a b s t (yes p) (yes q) = yes (cc)
cons_dec a b s t (yes p) (no q) = no (λ e. q (cc))
cons_dec a b s t (no p) d = no (λ e. p (cc))

unfoldable pub str_dec : Discrete Str
unfolding cons_dec ℕ_discrete
str_dec [] [] = yes refl
str_dec [] (b ∷ t) = no (λ e. cc)
str_dec (a ∷ s) [] = no (λ e. cc)
str_dec (a ∷ s) (b ∷ t) = cons_dec a b s t (ℕ_discrete a b) (str_dec s t)

-- `unicode.IsSpace`.
unfoldable pub is_space : ℕ → Bool
is_space c =
    (leb 0x09 c && leb c 0x0d)
    || (c == 0x20)
    || (c == 0x85)
    || (c == 0xa0)
    || (c == 0x1680)
    || (leb 0x2000 c && leb c 0x200a)
    || (c == 0x2028)
    || (c == 0x2029)
    || (c == 0x202f)
    || (c == 0x205f)
    || (c == 0x3000)

unfoldable pub trim_left : Str → Str
trim_left [] = []
trim_left (c ∷ s) = if is_space c then trim_left s else c ∷ s

-- `strings.TrimSpace`.
unfoldable pub trim_space : Str → Str
trim_space s = reverse (trim_left (reverse (trim_left s)))

-- The value of a run of decimal digits; `none` at any other character.
unfoldable pub digits_value : ℕ → Str → Option ℕ
digits_value acc [] = some acc
digits_value acc (c ∷ s) =
    let rest = digits_value (acc * 10 + (c - b'0')) s in
    if leb b'0' c && leb c b'9' then rest else none

unsigned : Str → Option ℕ
unfolding digits_value
unsigned [] = none
unsigned (c ∷ s) = digits_value 0 (c ∷ s)

in_range : Bool → Option ℕ → Option ℤ
in_range neg none = none
in_range true (some n) = if leb n (2 ^ 63) then some (sub_ℕ 0 n) else none
in_range false (some n) = if ltb n (2 ^ 63) then some (pos n) else none

-- `strconv.ParseInt(s, 10, 64)`; `none` is its error.
unfoldable pub parse_int64 : Str → Option ℤ
unfolding unsigned in_range
parse_int64 [] = none
parse_int64 (c ∷ s) =
    if c == b'-'
    then in_range true (unsigned s)
    else if c == b'+'
    then in_range false (unsigned s)
    else in_range false (unsigned (c ∷ s))

hex_digit : ℕ → ℕ
hex_digit n = if ltb n 10 then 48 + n else 87 + n

-- `hex.EncodeToString`, over bytes.
unfoldable pub hex_encode : List ℕ → Str
unfolding hex_digit
hex_encode [] = []
hex_encode (b ∷ bs) = hex_digit (b / 16 % 16) ∷ hex_digit (b % 16) ∷ hex_encode bs

-- A text with no white space in it.
abbrev pub IsSolid : Str → Type 0
IsSolid [] = Unit
IsSolid (c ∷ s) = (is_space c ≡ false) × IsSolid s

hex_digit-solid : (n : ℕ) → n < 16 → is_space (hex_digit n) ≡ false
unfolding hex_digit is_space
hex_digit-solid n h = ground arith

pub hex_encode-IsSolid : (bs : List ℕ) → IsSolid (hex_encode bs)
unfolding hex_encode
hex_encode-IsSolid [] = tt
hex_encode-IsSolid (b ∷ bs) = (
  hex_digit-solid (b / 16 % 16) (omega arith),
  (hex_digit-solid (b % 16) (omega arith), hex_encode-IsSolid bs),
)

pub IsSolid-append : (s t : Str) → IsSolid s → IsSolid t → IsSolid (s ++ t)
IsSolid-append [] t h k = k
IsSolid-append (c ∷ s) t h k = (h.0, IsSolid-append s t h.1 k)

IsSolid-reverse : (s : Str) → IsSolid s → IsSolid (reverse s)
IsSolid-reverse [] h = tt
IsSolid-reverse (c ∷ s) h =
    rw (reverse-cons c s) (IsSolid-append (reverse s) (c ∷ []) (IsSolid-reverse s h.1) (h.0, tt))

trim_left-solid : (s : Str) → IsSolid s → trim_left s ≡ s
unfolding trim_left
trim_left-solid [] h = refl
trim_left-solid (c ∷ s) h = rw h.0

pub trim_space-solid : (s : Str) → IsSolid s → trim_space s ≡ s
unfolding trim_space
trim_space-solid s h =
    rw (trim_left-solid s h, trim_left-solid (reverse s) (IsSolid-reverse s h), reverse-reverse s)

-- `strings.TrimPrefix(s, prefix)`.
unfoldable pub strip : Str → Str → Option Str
strip [] s = some s
strip (p ∷ ps) [] = none
strip (p ∷ ps) (c ∷ s) = let rest = strip ps s in if p == c then rest else none

unfoldable pub trim_prefix : Str → Str → Str
trim_prefix s prefix = elim (strip prefix s) [ none ↦ s | some rest ↦ rest ]

strip-append : (p s : Str) → strip p (p ++ s) ≡ some s
unfolding strip
strip-append [] s = refl
strip-append (c ∷ p) s = ground (arith, strip-append p s)

pub trim_prefix-append : (p s : Str) → trim_prefix (p ++ s) p ≡ s
unfolding trim_prefix
trim_prefix-append p s = rw (strip-append p s, trim_prefix)
