-- ===== src/FastId/Times.antt =====
-- The times of identifiers: what GetTimeMillFromFastID reads, and where MinFastIdAt cuts.
use native.Mathlib.Nat.{mod-lt, mod-eq_of_lt, one-le-pow, div-mul-le_self, div-lt_iff_lt-mul}
use card.Prelude.{ℕ, ◌+◌, ◌-◌, ◌*◌, ◌/◌, ◌^◌, ◌≤◌, ◌<◌, ◌≡◌, refl, arith, if_ind, leb}
use card.Prelude.Bits.{bit_and-mask}
use card.FastId.Defs.{
  Config, new_id, elapsed, get_time_from_id, construct_config_with_machine_id,
  get_current_timestamp, get_time_mill_from_fast_id, min_fast_id_at,
}
use card.FastId.Fields.{IsSound, new_id_fields}

pub construct-IsSound :
    (time_bits seq_bits machine_bits machine_id : ℕ)
    → machine_bits ≤ 31
    → time_bits + (machine_bits + seq_bits) ≤ 63
    → IsSound (construct_config_with_machine_id time_bits seq_bits machine_bits machine_id)
unfolding construct_config_with_machine_id
construct-IsSound time_bits seq_bits machine_bits machine_id small fits = record {
  time_mask = refl;
  seq_mask = refl;
  machine_fits =
      rw (bit_and-mask machine_bits machine_id)
        (mod-lt machine_id (one-le-pow machine_bits 2 (omega arith)));
  machine_small = small;
  fits = fits;
}

-- A multiple of `p` cuts the numbers by their quotients.
cut-le : (id t p : ℕ) → t ≤ id / p → t * p ≤ id
cut-le id t p h =
    let k : t * p ≤ id / p * p = grind (arith, h) in omega (arith, div-mul-le_self id p)

cut-lt : (id t p : ℕ) → 0 < p → id / p < t → id < t * p
cut-lt id t p hp h = (div-lt_iff_lt-mul {k = p} {x = id} {y = t} hp).0 h

-- From the epoch on nothing is negative.
elapsed_lem : (start nanos : ℕ) → start ≤ nanos → elapsed start nanos ≡ (nanos - start) / 2 ^ 20
unfolding elapsed
elapsed_lem start nanos h =
    if_ind (λ (e : ℕ). e ≡ (nanos - start) / 2 ^ 20) (leb start nanos) (λ b. refl)
      (λ b. absurd (ground arith))

min_value :
    (c : Config) (start unix_ms : ℕ)
    → IsSound c
    → start ≤ unix_ms * 1000000
    → (unix_ms * 1000000 - start) / 2 ^ 20 < 2 ^ c.time_bits
    → min_fast_id_at c start unix_ms
      ≡ (unix_ms * 1000000 - start) / 2 ^ 20 * 2 ^ (c.machine_bits + c.seq_bits)
unfolding min_fast_id_at
min_value c start unix_ms v h k =
    rw (
      elapsed_lem start (unix_ms * 1000000) h,
      v.time_mask,
      bit_and-mask c.time_bits,
      mod-eq_of_lt k,
    )

module _ (c : Config) (v : IsSound c) (start now seq : ℕ) (begun : start ≤ now)
    (time_fits : (now - start) / 2 ^ 20 < 2 ^ c.time_bits) (seq_fits : seq < 2 ^ c.seq_bits) where
  timestamp_value : get_current_timestamp c start now ≡ (now - start) / 2 ^ 20
  unfolding get_current_timestamp
  timestamp_value =
      rw (elapsed_lem start now begun, v.time_mask, bit_and-mask c.time_bits)
        (mod-eq_of_lt time_fits)

  stamped_time :
      get_time_from_id c (new_id c (get_current_timestamp c start now) seq) ≡ (now - start) / 2 ^ 20
  stamped_time =
      rw timestamp_value (new_id_fields c v ((now - start) / 2 ^ 20) seq time_fits seq_fits).0

  -- The millisecond that GetTimeMillFromFastID reads from an identifier is not after the one in which
  -- the identifier was made, and at most two before it: for a clock that is not before the epoch of
  -- the identifiers, and a time and a sequence number that fit their fields.
  pub get_time_mill-near :
      (get_time_mill_from_fast_id c start (new_id c (get_current_timestamp c start now) seq)
        ≤ now / 1000000)
      × (now / 1000000
          ≤ get_time_mill_from_fast_id c start (new_id c (get_current_timestamp c start now) seq)
            + 2)
  unfolding get_time_mill_from_fast_id get_time_from_id
  get_time_mill-near = rw stamped_time (omega arith)

  -- MinFastIdAt cuts at its time: identifiers that are made at the given millisecond or later are not
  -- below it, and those made 2 ^ 20 nanoseconds before it or earlier are: for a configuration that the
  -- constructor makes with at most 63 bits in all and 31 for the machine, a millisecond and a clock that
  -- are not before the epoch of the identifiers, whose times fit their field, and sequence numbers that
  -- fit theirs.
  pub min_fast_id_at-cuts :
      (unix_ms : ℕ)
      → start ≤ unix_ms * 1000000
      → (unix_ms * 1000000 - start) / 2 ^ 20 < 2 ^ c.time_bits
      → (unix_ms * 1000000 ≤ now
          → min_fast_id_at c start unix_ms ≤ new_id c (get_current_timestamp c start now) seq)
        × (now + 2 ^ 20 ≤ unix_ms * 1000000
            → new_id c (get_current_timestamp c start now) seq < min_fast_id_at c start unix_ms)
  min_fast_id_at-cuts unix_ms h k =
      let id : ℕ = new_id c (get_current_timestamp c start now) seq in
      let p : ℕ = 2 ^ (c.machine_bits + c.seq_bits) in
      let t : ℕ = (unix_ms * 1000000 - start) / 2 ^ 20 in
      let e : id / p ≡ (now - start) / 2 ^ 20 = unfold get_time_from_id in stamped_time in
      rw (min_value c start unix_ms v h k) (
        λ late. cut-le id t p (omega arith),
        λ early. cut-lt id t p (one-le-pow _ 2 (omega arith)) (omega arith),
      )
