-- ===== src/Basal/SortedSet/Defs.antt =====
-- sortedset.go. A set is a SortedList, whose `Add` it shadows; what appends to a copy of a buffer
-- is applied to the list itself, since a list here never changes.
use card.Prelude.{ℕ, Bool, true, List, [], ◌∷◌, Option, none, some}
use card.Prelude.Int.{ℤ}
use card.Basal.SortedList.Defs.{SortedList, new_sorted_list, add, remove_by_key, search_by_key}

module _ {ℓ} {T : Type ℓ} where
  abbrev pub new_sorted_set : Bool → (T → ℤ) → (T → ℤ) → SortedList T
  new_sorted_set reverse get_score get_key = new_sorted_list true reverse get_score get_key

  unfoldable pub set_add : SortedList T → T → SortedList T × Bool
  set_add my v = add (remove_by_key my (my.get_key v)).0 v

  -- The loops of `Difference`, `Intersection` and `Union`, with the result `c` so far.
  unfoldable pub remove_keys_of : (T → ℤ) → SortedList T → List T → SortedList T
  remove_keys_of get_key c [] = c
  remove_keys_of get_key c (value ∷ values) =
      remove_keys_of get_key (remove_by_key c (get_key value)).0 values

  abbrev pub add_found : SortedList T → T → Option ℕ → SortedList T
  add_found c value none = c
  add_found c value (some _) = (set_add c value).0

  unfoldable pub add_common : (T → ℤ) → SortedList T → SortedList T → List T → SortedList T
  add_common get_key b c [] = c
  add_common get_key b c (value ∷ values) =
      add_common get_key b (add_found c value (search_by_key b (get_key value))) values

  unfoldable pub add_each : SortedList T → List T → SortedList T
  add_each c [] = c
  add_each c (value ∷ values) = add_each (set_add c value).0 values

  abbrev pub difference : SortedList T → SortedList T → SortedList T
  difference my b = remove_keys_of my.get_key my b.buf

  abbrev pub intersection : SortedList T → SortedList T → SortedList T
  intersection my b =
      add_common my.get_key b (new_sorted_set my.reverse my.get_score my.get_key) my.buf

  abbrev pub union : SortedList T → SortedList T → SortedList T
  union my b = add_each my b.buf

-- `NewSortedSetInt`.
abbrev pub new_sorted_set_int : Bool → SortedList ℤ
new_sorted_set_int reverse = new_sorted_set reverse (λ v. v) (λ v. v)
