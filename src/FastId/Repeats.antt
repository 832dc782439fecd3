-- ===== src/FastId/Repeats.antt =====
-- What GenInt64ID returns when the clock goes back.
use native.Mathlib.Nat.{pow-le-pow_right, zero-div}
use card.Prelude.{ℕ, ◌+◌, ◌/◌, ◌^◌, ◌≤◌, ◌<◌, ◌≡◌, ap, ◌∙◌, some, arith, lt→ltb, List, [], ◌∷◌}
use card.FastId.Defs.{
  Config, new_id, next_id, get_time_from_id, get_seq_from_id, Event, load, swap, enter, swap_at,
  step, run,
}
use card.FastId.Fields.{IsSound, new_id_fields}

-- Calls one after the other, at these times.
abbrev pub calls : List ℕ → List Event
calls [] = []
calls (now ∷ nows) = load now ∷ swap 0 ∷ calls nows

-- One call alone: it loads and swaps.
alone :
    (c : Config) (issued : List ℕ) (now : ℕ) (id : ℕ) (es : List Event)
    → next_id c c.last_id now ≡ some id
    → run (record { config = c; waiting = []; issued = issued }) (load now ∷ swap 0 ∷ es)
      ≡ run (record { config = record c { last_id = id }; waiting = []; issued = id ∷ issued }) es
unfolding run step swap_at
alone c issued now id es e = rw (e, enter, swap_at) (ground arith)

module _ (c : Config) (v : IsSound c) (t seq : ℕ) (fits : t < 2 ^ c.time_bits)
    (room : seq < 2 ^ c.seq_bits) where
  -- A call after the identifier of time `t` and number `seq`.
  after_same :
      (now : ℕ)
      → now ≤ t
      → seq + 1 < 2 ^ c.seq_bits
      → next_id c (new_id c t seq) now ≡ some (new_id c now (seq + 1))
  unfolding next_id
  after_same now h more =
      let k = new_id_fields c v t seq fits room in rw (k.0, k.1) (ground (arith, v.seq_mask))

  after_later : (now : ℕ) → t < now → next_id c (new_id c t seq) now ≡ some (new_id c now 0)
  unfolding next_id
  after_later now h = rw (new_id_fields c v t seq fits room).0 (rw (lt→ltb _ _ h))

first_call :
    (c : Config) (t : ℕ) → c.last_id ≡ 0 → 0 < t → next_id c c.last_id t ≡ some (new_id c t 0)
unfolding next_id get_time_from_id
first_call c t none_yet h =
    let e : c.last_id / 2 ^ (c.machine_bits + c.seq_bits) ≡ 0 =
      ap (λ (x : ℕ). x / 2 ^ (c.machine_bits + c.seq_bits)) none_yet ∙ zero-div _ in
    rw e (rw (lt→ltb _ _ h))

-- When the clock goes back by one step, GenInt64ID returns an identifier that it has returned before:
-- calls one after the other at the times `t`, `t`, `t + 1` and again `t` return the same identifier at
-- the second and the fourth, from a configuration that has returned none yet, with at least two bits
-- of sequence number.
pub clock_back-repeats :
    (c : Config) (t : ℕ)
    → IsSound c
    → c.last_id ≡ 0
    → 0 < t
    → t + 1 < 2 ^ c.time_bits
    → 2 ≤ c.seq_bits
    → (run
        (record { config = c; waiting = []; issued = [] })
        (calls (t ∷ t ∷ (t + 1) ∷ t ∷ []))).issued
      ≡ new_id c t 1 ∷ new_id c (t + 1) 0 ∷ new_id c t 1 ∷ new_id c t 0 ∷ []
unfolding run next_id new_id get_time_from_id get_seq_from_id
clock_back-repeats c t v none_yet later fits bits =
    let four : 2 ^ 2 ≤ 2 ^ c.seq_bits = pow-le-pow_right {n = 2} (omega arith) bits in
    let early : t < 2 ^ c.time_bits = omega arith in
    let a : ℕ = new_id c t 0 in
    let b : ℕ = new_id c t 1 in
    let d : ℕ = new_id c (t + 1) 0 in
    ap (λ g. g.issued)
      (alone c [] t a (calls (t ∷ (t + 1) ∷ t ∷ [])) (first_call c t none_yet later)
        ∙ alone (record c { last_id = a }) (a ∷ []) t b (calls ((t + 1) ∷ t ∷ []))
            (after_same c v t 0 early (omega arith) t (omega arith) (omega arith))
        ∙ alone (record c { last_id = b }) (b ∷ a ∷ []) (t + 1) d (calls (t ∷ []))
            (after_later c v t 1 early (omega arith) (t + 1) (omega arith))
        ∙ alone (record c { last_id = d }) (d ∷ b ∷ a ∷ []) t b []
            (after_same c v (t + 1) 0 fits (omega arith) t (omega arith) (omega arith)))
