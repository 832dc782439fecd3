-- ===== src/Basal/SortedList/Updates.antt =====
-- The methods of SortedList that change the buffer: each keeps its order and, in a list that
-- refuses a repeated score, the scores apart.
use card.Prelude.{
  ℕ, ◌≡◌, refl, Bool, true, false, not, ◌&&◌, List, [], ◌∷◌, ◌++◌, some, arith, get_elem?, take,
  drop, Bool-cases, inl, inr,
}
use card.Prelude.Int.{ℤ, eq_ℤ}
use card.Prelude.Pairs.{
  All, AllPairs, All-map, AllPairs-drop, AllPairs-take, AllPairs-cross, AllPairs-append, All-take,
  All-drop,
}
use card.Basal.SortedList.Defs.{SortedList, reached, scored, search_by_score, add}
use card.Basal.SortedList.Order.{InOrder, IsOrdered, IsReached, IsEarlier, insert_at_lem}
use card.Basal.SortedList.Search.{
  bound, IsOther, IsFound, search_by_score-parts, search_by_score-IsFound,
}

module _ {ℓ κ} {A : Type ℓ} (P : A → Type 0) (R : A → A → Type κ) where
  All-cons :
      (v : A) (xs ys : List A)
      → ((a : A) → P a → R a v)
      → All P xs
      → All (λ x. All (R x) ys) xs
      → All (λ x. All (R x) (v ∷ ys)) xs
  All-cons v [] ys f h c = tt
  All-cons v (x ∷ xs) ys f h c = ((f x h.0, c.0), All-cons v xs ys f h.1 c.1)

  AllPairs-insert :
      (n : ℕ) (v : A) (xs : List A)
      → AllPairs R xs
      → ((a : A) → P a → R a v)
      → All P (take n xs)
      → All (R v) (drop n xs)
      → AllPairs R (take n xs ++ v ∷ drop n xs)
  AllPairs-insert n v xs h f early late =
      AllPairs-append R (take n xs) (v ∷ drop n xs) (AllPairs-take R n xs h)
        (late, AllPairs-drop R n xs h)
        (All-cons v (take n xs) (drop n xs) f early (AllPairs-cross R n n xs (omega arith) h))

module _ {ℓ} {T : Type ℓ} where
  -- Two items with different scores.
  abbrev pub IsApart : SortedList T → T → T → Type 0
  IsApart my a b = eq_ℤ (my.get_score a) (my.get_score b) ≡ false

  -- The promise of the list: a buffer in order and, unless a score may repeat, no score twice.
  pub record IsSorted (my : SortedList T) : Type ℓ where
    pub ordered : IsOrdered my my.buf
    pub apart : my.score_repeat ≡ false → AllPairs (IsApart my) my.buf

  -- The items before the index of the score of `v`, then `v`, then the others.
  abbrev pub placed : SortedList T → T → List T
  placed my v =
      take (bound my (my.get_score v)) my.buf ++ v ∷ drop (bound my (my.get_score v)) my.buf

  -- The outcome of `Add`: the item stands between those before its score and the others, or the
  -- list refuses it and stays as it is, since a score may not repeat and an item has it.
  pub record IsAdded (my : SortedList T) (v : T) (answer : SortedList T × Bool) : Type ℓ where
    pub accepted :
        answer.1 ≡ true
        → (answer.0 ≡ record my { buf = placed my v })
          × (my.score_repeat ≡ false → All (IsOther my (my.get_score v)) my.buf)
    pub refused :
        answer.1 ≡ false
        → (answer.0 ≡ my)
          × (my.score_repeat ≡ false)
          × (i : ℕ) × (a : T) × (get_elem? my.buf i ≡ some a)
          × (eq_ℤ (my.get_score a) (my.get_score v) ≡ true)

  module _ (my : SortedList T) (v : T) where
    score : ℤ
    score = my.get_score v

    index : ℕ
    index = bound my score

    there : Bool
    there = scored my score (get_elem? my.buf index)

    answered : IsOrdered my my.buf → IsFound my score (index, there)
    unfolding there index score
    answered o =
        let whole : IsFound my score (search_by_score my score) =
          search_by_score-IsFound my score o in
        rw (search_by_score-parts my score) at whole

    add-refused : there ≡ true → my.score_repeat ≡ false → add my v ≡ (my, false)
    unfolding add there index score
    add-refused hit one = rw (search_by_score-parts my score, hit, one) refl

    add-placed :
        IsOrdered my my.buf
        → there && not my.score_repeat ≡ false
        → add my v ≡ (record my { buf = placed my v }, true)
    unfolding add there index score
    add-placed o go =
        rw (search_by_score-parts my score, go, insert_at_lem index v my.buf (answered o).in_range)
          refl

    -- In an ordered list `Add` either places the item and answers true, which happens for a score
    -- of an item there only if scores may repeat, or leaves the list and answers false.
    pub add-IsAdded : IsOrdered my my.buf → IsAdded my v (add my v)
    unfolding score
    add-IsAdded o = elim (Bool-cases there) [
      | inl hit ↦ elim (Bool-cases my.score_repeat) [
        | inl rep ↦
            rw (add-placed o (rw (hit, rep) refl))
              (record { accepted = λ h. (refl, λ k. cc); refused = λ h. cc })
        | inr one ↦ rw (add-refused hit one) (record {
          accepted = λ h. cc;
          refused = λ h. (
            refl,
            one,
            index,
            ((answered o).hit hit).0,
            ((answered o).hit hit).1,
            ((answered o).hit hit).2,
          );
        })
      ]
      | inr miss ↦
          rw (add-placed o (rw miss refl))
            (record { accepted = λ h. (refl, λ k. (answered o).miss miss); refused = λ h. cc })
    ]

    before_score : (a : T) → IsEarlier my score a → InOrder my a v
    unfolding reached score
    before_score a h = ground arith

    after_score : (a : T) → IsReached my score a → InOrder my v a
    unfolding reached score
    after_score a h = ground arith

    IsApart-sym : (a : T) → IsOther my score a → IsApart my v a
    unfolding score
    IsApart-sym a h = ground arith

    placed-IsSorted :
        IsSorted my
        → (my.score_repeat ≡ false → All (IsOther my (my.get_score v)) my.buf)
        → IsSorted (record my { buf = placed my v })
    unfolding score index
    placed-IsSorted h other = record {
      ordered =
          AllPairs-insert (IsEarlier my score) (InOrder my) index v my.buf h.ordered before_score
            (answered h.ordered).earlier
            (All-map (IsReached my score) (InOrder my v) after_score (drop index my.buf)
              (answered h.ordered).later);
      apart = λ one.
          AllPairs-insert (IsOther my score) (IsApart my) index v my.buf (h.apart one) (λ a k. k)
            (All-take (IsOther my score) index my.buf (other one))
            (All-map (IsOther my score) (IsApart my v) IsApart-sym (drop index my.buf)
              (All-drop (IsOther my score) index my.buf (other one)));
    }

    pub add-IsSorted : IsSorted my → IsSorted (add my v).0
    add-IsSorted h =
        let r : IsAdded my v (add my v) = add-IsAdded h.ordered in
        elim (Bool-cases (add my v).1) [
          | inl yes_added ↦ let (e, other) = r.accepted yes_added in rw e (placed-IsSorted h other)
          | inr not_added ↦ rw ((r.refused not_added).0) h
        ]
