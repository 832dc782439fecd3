-- ===== src/Basal/SortedList/Batch.antt =====
-- SortedList.BatchAdd, which sorts the buffer the same way whether the list is reversed or not.
use card.Prelude.{◌≡◌, Bool, true, false, not, List, [], ◌∷◌, ◌++◌, arith}
use card.Prelude.Int.{leb_ℤ, eq_ℤ}
use card.Prelude.Pairs.{All, AllPairs}
use card.Basal.SortedList.Defs.{SortedList, batch_add}
use card.Basal.SortedList.Order.{InOrder, IsOrdered}

module _ {ℓ} {T : Type ℓ} where
  -- What `sort.Slice` promises of a test: no item comes after one that it should come before.
  abbrev pub Sorts : ((T → T → Bool) → List T → List T) → (T → T → Bool) → Type ℓ
  Sorts sort_slice less = (xs : List T) → AllPairs (λ a b. less b a ≡ false) (sort_slice less xs)

  abbrev pub higher : SortedList T → T → T → Bool
  higher my a b = not (leb_ℤ (my.get_score a) (my.get_score b))

  abbrev pub SameScore : SortedList T → T → T → Type 0
  SameScore my a b = eq_ℤ (my.get_score a) (my.get_score b) ≡ true

  same_score :
      (my : SortedList T) (a b : T)
      → my.reverse ≡ false
      → higher my b a ≡ false
      → InOrder my a b
      → SameScore my a b
  same_score my a b ascending down up = ground arith

  flat_items :
      (my : SortedList T) (a : T) (xs : List T)
      → my.reverse ≡ false
      → All (λ b. higher my b a ≡ false) xs
      → All (InOrder my a) xs
      → All (SameScore my a) xs
  flat_items my a [] r down up = tt
  flat_items my a (b ∷ xs) r down up =
      (same_score my a b r down.0 up.0, flat_items my a xs r down.1 up.1)

  flat :
      (my : SortedList T) (xs : List T)
      → my.reverse ≡ false
      → AllPairs (λ a b. higher my b a ≡ false) xs
      → IsOrdered my xs
      → AllPairs (SameScore my) xs
  flat my [] r down up = tt
  flat my (a ∷ xs) r down up = (flat_items my a xs r down.0 up.0, flat my xs r down.1 up.1)

  -- In a list that is not reversed, a sort that keeps its promise makes `BatchAdd` leave the buffer
  -- in the order that the binary search wants only if all items have the same score.
  pub batch_add-flat :
      (my : SortedList T) (values : List T) (sort_slice : (T → T → Bool) → List T → List T)
      → Sorts sort_slice (higher my)
      → my.reverse ≡ false
      → IsOrdered my (batch_add sort_slice my values).buf
      → AllPairs (SameScore my) (batch_add sort_slice my values).buf
  unfolding batch_add
  batch_add-flat my values sort_slice sorts r up =
      flat my (batch_add sort_slice my values).buf r
        (sorts (my.buf ++ sort_slice (higher my) values)) up
