-- ===== src/Basal/SortedList/Search.antt =====
-- SortedList.SearchByScore: the index it returns and whether it finds the score.
use card.Prelude.{
  ℕ, zero, suc, ◌≤◌, ◌≡◌, refl, subst, Bool, true, false, List, [], ◌∷◌, Option, none, some, arith,
  ltb, length, get_elem?, take, drop, take-append-drop, Bool-cases, inl, inr,
}
use card.Prelude.Int.{ℤ, eq_ℤ}
use card.Prelude.Pairs.{All, All-append, All-map, AllPairs-drop}
use card.Prelude.Search.{sort_search, IsBoundary, sort_search-IsBoundary}
use card.Basal.SortedList.Defs.{SortedList, reached, probe, scored, search_by_score}
use card.Basal.SortedList.Order.{InOrder, IsOrdered, IsReached, IsEarlier, cut}

module _ {ℓ} {T : Type ℓ} where
  get_elem?-past : (xs : List T) (i : ℕ) → length xs ≤ i → get_elem? xs i ≡ none
  get_elem?-past [] i h = refl
  get_elem?-past (x ∷ xs) zero h = absurd (omega arith)
  get_elem?-past (x ∷ xs) (suc i) h = get_elem?-past xs i (omega arith)

  get_elem?-drop : (n : ℕ) (xs : List T) → get_elem? (drop n xs) 0 ≡ get_elem? xs n
  get_elem?-drop zero xs = refl
  get_elem?-drop (suc n) [] = refl
  get_elem?-drop (suc n) (x ∷ xs) = get_elem?-drop n xs

  module _ (my : SortedList T) (score : ℤ) where
    abbrev pub bound : ℕ
    bound = sort_search (length my.buf) (probe my score my.buf)

    abbrev pub IsOther : T → Type 0
    IsOther a = eq_ℤ (my.get_score a) score ≡ false

    boundary : IsBoundary (length my.buf) (probe my score my.buf) bound
    boundary = sort_search-IsBoundary (length my.buf) (probe my score my.buf)

    pub search_by_score-parts :
        search_by_score my score ≡ (bound, scored my score (get_elem? my.buf bound))
    unfolding search_by_score
    search_by_score-parts = elim (Bool-cases (ltb 0 (length my.buf))) [
      | inl some_item ↦ elim (Bool-cases (ltb bound (length my.buf))) [
        | inl inside ↦ elim (Bool-cases (scored my score (get_elem? my.buf bound))) [
          | inl hit ↦ rw (some_item, inside, hit) refl
          | inr miss ↦ rw (some_item, inside, miss) refl
        ]
        | inr past ↦
            let e : get_elem? my.buf bound ≡ none = get_elem?-past my.buf bound (ground arith) in
            rw (some_item, past, e) refl
      ]
      | inr empty ↦
          let le : bound ≤ length my.buf = boundary.in_range in
          let z : bound ≡ 0 = ground arith in
          let e : get_elem? my.buf bound ≡ none = get_elem?-past my.buf bound (ground arith) in
          rw (empty, e, z) refl
    ]

    other_earlier : (a : T) → IsEarlier my score a → IsOther a
    unfolding reached
    other_earlier a h = ground arith

    other_later : (a b : T) → InOrder my a b → IsReached my score a → IsOther a → IsOther b
    unfolding reached
    other_later a b o r h = ground arith

    other_from :
        (xs : List T)
        → IsOrdered my xs
        → All (IsReached my score) xs
        → scored my score (get_elem? xs 0) ≡ false
        → All IsOther xs
    other_from [] o r h = tt
    other_from (x ∷ xs) o r h =
        (h, All-map (InOrder my x) IsOther (λ b k. other_later x b k r.0 h) xs o.0)

    scored_item :
        (r : Option T)
        → scored my score r ≡ true
        → (a : T) × (r ≡ some a) × (eq_ℤ (my.get_score a) score ≡ true)
    scored_item none h = cc
    scored_item (some a) h = (a, refl, h)

    -- The index cuts the buffer in the items that stand before the score and the others, and
    -- `none` of the items has the score if it is not found.
    pub record IsFound (answer : ℕ × Bool) : Type ℓ where
      pub in_range : answer.0 ≤ length my.buf
      pub earlier : All (IsEarlier my score) (take answer.0 my.buf)
      pub later : All (IsReached my score) (drop answer.0 my.buf)
      pub hit :
          answer.1 ≡ true
          → (a : T) × (get_elem? my.buf answer.0 ≡ some a) × (eq_ℤ (my.get_score a) score ≡ true)
      pub miss : answer.1 ≡ false → All IsOther my.buf

    -- In an ordered list the binary search answers right for every score: all items before the
    -- index stand before the score, no item from the index on does, an item with the score stands
    -- at the index if the search says so, and no item has the score if it does not.
    pub search_by_score-IsFound : IsOrdered my my.buf → IsFound (search_by_score my score)
    search_by_score-IsFound o =
        let (early, late) =
          cut my score my.buf bound o boundary.below boundary.in_range boundary.above in
        let answer : IsFound (bound, scored my score (get_elem? my.buf bound)) = record {
          in_range = boundary.in_range;
          earlier = early;
          later = late;
          hit = scored_item (get_elem? my.buf bound);
          miss = λ h. subst (All IsOther) (take-append-drop bound my.buf) (
              All-append IsOther (take bound my.buf) (drop bound my.buf)
                (All-map (IsEarlier my score) IsOther other_earlier (take bound my.buf) early)
                (other_from (drop bound my.buf) (AllPairs-drop (InOrder my) bound my.buf o) late
                  (rw (get_elem?-drop bound my.buf) h)));
        } in
        rw search_by_score-parts answer
