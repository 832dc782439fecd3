-- ===== src/FastId/Fields.antt =====
-- The fields of an identifier: what is packed is read again, and nothing wraps.
use native.Mathlib.Nat.{
  div-add-mod, div-div-eq-div-mul, one-le-pow, pow-le-pow_right, mul-add-div_right, div-eq_of_lt,
  mul-add-mod_self_right, mod-eq_of_lt, mod-lt, div-lt_iff_lt-mul,
}
use card.Prelude.{ℕ, ◌+◌, ◌*◌, ◌/◌, ◌%◌, ◌^◌, ◌≤◌, ◌<◌, ◌≡◌, ap, sym, ◌⊎◌, ◌∙◌, arith, inl, inr}
use card.Prelude.Bits.{bit_and-mask, pow-add}
use card.FastId.Defs.{
  Config, ones, new_id, get_seq_from_id, get_time_from_id, get_machine_id_from_fast_id,
}

-- The configuration is one that the constructor makes, and its fields fit an int64.
pub record IsSound (c : Config) : Type 0 where
  pub time_mask : c.time_mask ≡ ones c.time_bits
  pub seq_mask : c.seq_mask ≡ ones c.seq_bits
  pub machine_fits : c.machine_id < 2 ^ c.machine_bits
  pub machine_small : c.machine_bits ≤ 31
  pub fits : c.time_bits + (c.machine_bits + c.seq_bits) ≤ 63

-- The digits of a number in base `a`, then `b`.
nested : (t s m a b : ℕ) → t * (a * b) + s * a + m ≡ (t * b + s) * a + m
nested t s m a b = omega arith

packed_lt : (t s m a b k : ℕ) → s < b → m < a → t < k → (t * b + s) * a + m < k * (a * b)
packed_lt t s m a b k hs hm ht = grind arith

packed_top : (t s m a b : ℕ) → s < b → m < a → ((t * b + s) * a + m) / a ≡ t * b + s
packed_top t s m a b hs hm =
    omega (arith, mul-add-div_right {m = a} (omega arith) (t * b + s) m, div-eq_of_lt hm)

packed_high : (t s m a b : ℕ) → s < b → m < a → ((t * b + s) * a + m) / (a * b) ≡ t
packed_high t s m a b hs hm = omega (
  arith,
  div-div-eq-div-mul ((t * b + s) * a + m) a b,
  ap (λ (x : ℕ). x / b) (packed_top t s m a b hs hm),
  mul-add-div_right {m = b} (omega arith) t s,
  div-eq_of_lt hs,
)

packed_middle : (t s m a b : ℕ) → s < b → m < a → ((t * b + s) * a + m) / a % b ≡ s
packed_middle t s m a b hs hm = omega (
  arith,
  ap (λ (x : ℕ). x % b) (packed_top t s m a b hs hm),
  mul-add-mod_self_right t b s,
  mod-eq_of_lt hs,
)

packed_low : (t s m a b : ℕ) → m < a → ((t * b + s) * a + m) % a ≡ m
packed_low t s m a b hm = omega (arith, mul-add-mod_self_right (t * b + s) a m, mod-eq_of_lt hm)

-- A number is below the one with greater digits.
lt_digits : (id t s m a b : ℕ) → 0 < a → id / a < t * b + s → id < (t * b + s) * a + m
lt_digits id t s m a b ha h =
    let k : id < (t * b + s) * a = (div-lt_iff_lt-mul {k = a} {x = id} {y = t * b + s} ha).0 h in
    omega arith

lt_top : (q t s b : ℕ) → 0 < b → (q / b < t) ⊎ ((q / b ≡ t) × (q % b < s)) → q < t * b + s
lt_top q t s b hb (inl h) = grind (arith, div-add-mod q b, mod-lt q {m = b})
lt_top q t s b hb (inr (h, k)) = omega (arith, div-add-mod q b, ap (λ (x : ℕ). b * x) h)

module _ (c : Config) (v : IsSound c) (now seq : ℕ) (time_fits : now < 2 ^ c.time_bits)
    (seq_fits : seq < 2 ^ c.seq_bits) where
  -- The identifier is below 2 ^ 63, so that the sum of GenInt64ID does not wrap.
  pub new_id_value :
      (new_id c now seq ≡ (now * 2 ^ c.seq_bits + seq) * 2 ^ c.machine_bits + c.machine_id)
      × (new_id c now seq < 2 ^ 63)
  unfolding new_id
  new_id_value =
      let e : 2 ^ (c.machine_bits + c.seq_bits) ≡ 2 ^ c.machine_bits * 2 ^ c.seq_bits =
        pow-add c.machine_bits c.seq_bits in
      let below : (now * 2 ^ c.seq_bits + seq) * 2 ^ c.machine_bits + c.machine_id
          < 2 ^ c.time_bits * (2 ^ c.machine_bits * 2 ^ c.seq_bits) =
        packed_lt now seq c.machine_id (2 ^ c.machine_bits) (2 ^ c.seq_bits) (2 ^ c.time_bits)
          seq_fits v.machine_fits time_fits in
      let all : 2 ^ c.time_bits * (2 ^ c.machine_bits * 2 ^ c.seq_bits)
          ≡ 2 ^ (c.time_bits + (c.machine_bits + c.seq_bits)) =
        sym (
          pow-add c.time_bits (c.machine_bits + c.seq_bits)
          ∙ ap (λ (x : ℕ). 2 ^ c.time_bits * x) e) in
      let bound : 2 ^ (c.time_bits + (c.machine_bits + c.seq_bits)) ≤ 2 ^ 63 =
        pow-le-pow_right {n = 2} (omega arith) v.fits in
      rw (e, nested now seq c.machine_id (2 ^ c.machine_bits) (2 ^ c.seq_bits)) (omega arith)

  -- What GenInt64ID packs is read again by the three readers, and the identifier is below 2 ^ 63.
  pub new_id_fields :
      (get_time_from_id c (new_id c now seq) ≡ now)
      × (get_seq_from_id c (new_id c now seq) ≡ seq)
      × (get_machine_id_from_fast_id c (new_id c now seq) ≡ c.machine_id)
      × (new_id c now seq < 2 ^ 63)
  unfolding get_time_from_id get_seq_from_id get_machine_id_from_fast_id
  new_id_fields =
      let e : 2 ^ (c.machine_bits + c.seq_bits) ≡ 2 ^ c.machine_bits * 2 ^ c.seq_bits =
        pow-add c.machine_bits c.seq_bits in
      let small : 2 ^ c.machine_bits ≤ 2 ^ 31 =
        pow-le-pow_right {n = 2} (omega arith) v.machine_small in
      rw (new_id_value.0, v.seq_mask, e, bit_and-mask c.seq_bits, bit_and-mask c.machine_bits)
        (
          packed_high now seq c.machine_id (2 ^ c.machine_bits) (2 ^ c.seq_bits) seq_fits
              v.machine_fits,
          packed_middle now seq c.machine_id (2 ^ c.machine_bits) (2 ^ c.seq_bits) seq_fits
              v.machine_fits,
          omega (
            arith,
            packed_low now seq c.machine_id (2 ^ c.machine_bits) (2 ^ c.seq_bits) v.machine_fits,
            v.machine_fits,
          ),
          rw (← new_id_value.0) new_id_value.1,
        )

  -- With the fields of another identifier below, the new one is greater.
  pub lt-new_id :
      (id : ℕ)
      → (get_time_from_id c id < now)
        ⊎ ((get_time_from_id c id ≡ now) × (get_seq_from_id c id < seq))
      → id < new_id c now seq
  unfolding get_time_from_id get_seq_from_id
  lt-new_id id h =
      let e : 2 ^ (c.machine_bits + c.seq_bits) ≡ 2 ^ c.machine_bits * 2 ^ c.seq_bits =
        pow-add c.machine_bits c.seq_bits in
      let a : ℕ = 2 ^ c.machine_bits in
      let b : ℕ = 2 ^ c.seq_bits in
      rw new_id_value.0 (
        lt_digits id now seq c.machine_id a b (one-le-pow c.machine_bits 2 (omega arith)) (
          lt_top (id / a) now seq b (one-le-pow c.seq_bits 2 (omega arith))
            (rw (v.seq_mask, e, bit_and-mask, ← div-div-eq-div-mul) at h)))
