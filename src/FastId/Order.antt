-- ===== src/FastId/Order.antt =====
-- The identifiers that GenInt64ID returns, whatever calls run at once.
use card.Prelude.{
  ℕ, suc, ◌+◌, ◌/◌, ◌^◌, ◌≤◌, ◌<◌, ◌≡◌, refl, some, arith, Option, none, Bool-cases, ltb→lt, inl,
  inr, ltb, leb, List, [], ◌∷◌, ◌++◌, get_elem?, take, drop, Option-cases, ◌==◌, ==_iff,
}
use card.Prelude.Pairs.{All, AllPairs, All-append, All-take, All-drop, All-get, All-map}
use card.FastId.Defs.{
  Config, new_id, next_id, get_seq_from_id, get_time_from_id, Generator, Event, load, swap, enter,
  swap_at, step, run,
}
use card.Prelude.Bits.{bit_and-mask}
use native.Mathlib.Nat.{mod-lt, one-le-pow}
use card.FastId.Fields.{IsSound, lt-new_id, new_id_fields}

-- The clock does not go back, and the times fit their field.
abbrev pub IsMonotone : ℕ → ℕ → List Event → Type 0
IsMonotone limit clock [] = Unit
IsMonotone limit clock (load now ∷ es) = (clock ≤ now) × (now < limit) × IsMonotone limit now es
IsMonotone limit clock (swap place ∷ es) = IsMonotone limit clock es

module _ (c : Config) (v : IsSound c) where
  get_seq-lt : (id : ℕ) → get_seq_from_id c id < 2 ^ c.seq_bits
  unfolding get_seq_from_id
  get_seq-lt id =
      rw (v.seq_mask, bit_and-mask)
        (mod-lt (id / 2 ^ c.machine_bits) (one-le-pow c.seq_bits 2 (omega arith)))

  next_id-grows :
      (last now id : ℕ)
      → now < 2 ^ c.time_bits
      → get_time_from_id c last ≤ now
      → next_id c last now ≡ some id
      → (last < id) × (get_time_from_id c id ≡ now)
  unfolding next_id
  next_id-grows last now id fits le e = elim (Bool-cases (ltb (get_time_from_id c last) now)) [
    | inl later ↦
        let k : new_id c now 0 ≡ id = ground arith in
        let zero_fits : 0 < 2 ^ c.seq_bits = one-le-pow c.seq_bits 2 (omega arith) in
        rw (← k) (
          lt-new_id c v now 0 fits zero_fits last (inl (ltb→lt _ _ later)),
          (new_id_fields c v now 0 fits zero_fits).0,
        )
    | inr same ↦ elim (Bool-cases (leb c.seq_mask (get_seq_from_id c last))) [
      | inl full ↦ ground arith
      | inr free ↦
          let k : new_id c now (get_seq_from_id c last + 1) ≡ id = ground arith in
          let room : get_seq_from_id c last + 1 < 2 ^ c.seq_bits = ground (arith, v.seq_mask) in
          let at_once : get_time_from_id c last ≡ now = ground arith in
          rw (← k) (
            lt-new_id c v now (get_seq_from_id c last + 1) fits room last
                (inr (at_once, omega arith)),
            (new_id_fields c v now (get_seq_from_id c last + 1) fits room).0,
          )
    ]
  ]

-- What holds of a generator at the time `clock`.
record IsOrdered (g : Generator) (clock : ℕ) : Type 0 where
  sound : IsSound g.config
  past : get_time_from_id g.config g.config.last_id ≤ clock
  grows : All (λ w. (w.0 < w.1) × (get_time_from_id g.config w.1 ≤ clock)) g.waiting
  below : All (λ id. id ≤ g.config.last_id) g.issued
  descends : AllPairs (λ later earlier. earlier < later) g.issued

-- The reader of the time does not look at the last identifier.
get_time_from_id_stored :
    (c : Config) (last id : ℕ)
    → get_time_from_id (record c { last_id = last }) id ≡ get_time_from_id c id
unfolding get_time_from_id
get_time_from_id_stored c last id = refl

enter-grows :
    (c : Config) (clock last : ℕ) (waiting : List (ℕ × ℕ)) (made : Option ℕ)
    → ((id : ℕ) → made ≡ some id → (last < id) × (get_time_from_id c id ≤ clock))
    → All (λ w. (w.0 < w.1) × (get_time_from_id c w.1 ≤ clock)) waiting
    → All (λ w. (w.0 < w.1) × (get_time_from_id c w.1 ≤ clock)) (enter waiting last made)
enter-grows c clock last waiting none h k = k
enter-grows c clock last waiting (some id) h k = (h id refl, k)

load-IsOrdered :
    (g : Generator) (clock now : ℕ)
    → clock ≤ now
    → now < 2 ^ g.config.time_bits
    → IsOrdered g clock
    → IsOrdered (step g (load now)) now
unfolding step
load-IsOrdered g clock now le fits o = record {
  sound = o.sound;
  past = omega (arith, o.past);
  grows =
      enter-grows g.config now g.config.last_id g.waiting (next_id g.config g.config.last_id now)
        (λ id e.
          let k =
            next_id-grows g.config o.sound g.config.last_id now id fits (omega (arith, o.past)) e in
          (k.0, omega arith))
        (All-map (λ w. (w.0 < w.1) × (get_time_from_id g.config w.1 ≤ clock))
          (λ w. (w.0 < w.1) × (get_time_from_id g.config w.1 ≤ now)) (λ w h. (h.0, omega arith))
          g.waiting o.grows);
  below = o.below;
  descends = o.descends;
}

IsSound-stored : (c : Config) (id : ℕ) → IsSound c → IsSound (record c { last_id = id })
IsSound-stored c id v = record {
  time_mask = v.time_mask;
  seq_mask = v.seq_mask;
  machine_fits = v.machine_fits;
  machine_small = v.machine_small;
  fits = v.fits;
}

module _ (g : Generator) (clock : ℕ) (o : IsOrdered g clock) where
  abbrev Grows : ℕ × ℕ → Type 0
  Grows w = (w.0 < w.1) × (get_time_from_id g.config w.1 ≤ clock)

  All-rest : (place : ℕ) → All Grows (take place g.waiting ++ drop (suc place) g.waiting)
  All-rest place =
      All-append Grows (take place g.waiting) (drop (suc place) g.waiting)
        (All-take Grows place g.waiting o.grows) (All-drop Grows (suc place) g.waiting o.grows)

  swapped-IsOrdered :
      (place l id : ℕ)
      → get_elem? g.waiting place ≡ some (l, id)
      → IsOrdered (swap_at g place (some (l, id))) clock
  unfolding swap_at get_time_from_id
  swapped-IsOrdered place l id e = elim (Bool-cases (g.config.last_id == l)) [
    | inr other ↦ rw other (record {
      sound = o.sound;
      past = o.past;
      grows = All-rest place;
      below = o.below;
      descends = o.descends;
    })
    | inl own ↦
        let k = All-get Grows g.waiting place (l, id) o.grows e in
        let same : g.config.last_id ≡ l = (==_iff g.config.last_id l).0 own in
        let less : g.config.last_id < id = omega (arith, k.0) in
        rw own (record {
          sound = IsSound-stored g.config id o.sound;
          past = k.1;
          grows = All-rest place;
          below = (
            omega arith,
            All-map (λ x. x ≤ g.config.last_id) (λ x. x ≤ id) (λ x h. omega arith) g.issued o.below,
          );
          descends = (
            All-map (λ x. x ≤ g.config.last_id) (λ x. x < id) (λ x h. omega arith) g.issued o.below,
            o.descends,
          );
        })
  ]

  swap-IsOrdered : (place : ℕ) → IsOrdered (step g (swap place)) clock
  unfolding step swap_at
  swap-IsOrdered place = elim (Option-cases (get_elem? g.waiting place)) [
    | inl e ↦ rw (e, swap_at) o
    | inr ((l, id), e) ↦ rw e (swapped-IsOrdered place l id e)
  ]

step_bits : (g : Generator) (e : Event) → (step g e).config.time_bits ≡ g.config.time_bits
unfolding step swap_at
step_bits g (load now) = refl
step_bits g (swap place) = elim (Option-cases (get_elem? g.waiting place)) [
  | inl e ↦ rw (e, swap_at)
  | inr ((l, id), e) ↦ rw (e, swap_at) (ground arith)
]

run-IsOrdered :
    (g : Generator) (clock : ℕ) (es : List Event)
    → IsMonotone (2 ^ g.config.time_bits) clock es
    → IsOrdered g clock
    → (later : ℕ) × IsOrdered (run g es) later
unfolding run
run-IsOrdered g clock [] m o = (clock, o)
run-IsOrdered g clock (load now ∷ es) m o =
    run-IsOrdered (step g (load now)) now es (rw (step_bits g (load now)) m.2)
      (load-IsOrdered g clock now m.0 m.1 o)
run-IsOrdered g clock (swap place ∷ es) m o =
    run-IsOrdered (step g (swap place)) clock es (rw (step_bits g (swap place)) m)
      (swap-IsOrdered g clock o place)

-- Whatever calls of GenInt64ID run at once, and in whatever order they load and swap, the
-- identifiers that are returned grow, so that no two are equal: for a configuration that the
-- constructor makes with at most 63 bits in all, as long as the clock does not go back and its times
-- fit their field.
pub run-issued_descends :
    (c : Config) (clock : ℕ) (es : List Event)
    → IsSound c
    → get_time_from_id c c.last_id ≤ clock
    → IsMonotone (2 ^ c.time_bits) clock es
    → AllPairs
        (λ later earlier. earlier < later)
        (run (record { config = c; waiting = []; issued = [] }) es).issued
run-issued_descends c clock es v past m =
    (run-IsOrdered (record { config = c; waiting = []; issued = [] }) clock es m
      (record { sound = v; past = past; grows = tt; below = tt; descends = tt })).1.descends
