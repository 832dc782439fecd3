-- ===== src/Basal/SortedList/Defs.antt =====
-- sortedlist.go. A method that changes the list returns the new one. The capacity of the buffer and
-- `reduceSpace`, which changes nothing else, are left out: a nil and an empty buffer are one list.
use card.Prelude.{
  ℕ, ◌+◌, ◌-◌, Bool, true, false, not, ◌&&◌, List, [], ◌∷◌, ◌++◌, Option, none, some, ltb,
  if◌then◌else◌, length, get_elem?, set, take, drop,
}
use card.Prelude.Int.{ℤ, pos, negsuc, leb_ℤ, eq_ℤ}
use card.Prelude.Search.{sort_search}

pub record SortedList {ℓ} (T : Type ℓ) : Type ℓ where
  pub buf : List T
  pub score_repeat : Bool
  pub reverse : Bool
  pub get_score : T → ℤ
  pub get_key : T → ℤ

-- `append(buf[:index], buf[index+1:]...)`.
abbrev pub remove_at {ℓ} : {T : Type ℓ} → ℕ → List T → List T
remove_at index buf = take index buf ++ drop (index + 1) buf

-- `copy(buf[index+1:], buf[index:])`: the part that moves is as long as its destination.
unfoldable pub shift_right {ℓ} : {T : Type ℓ} → ℕ → List T → List T
shift_right index buf = take (index + 1) buf ++ take (length buf - (index + 1)) (drop index buf)

module _ {ℓ} {T : Type ℓ} where
  unfoldable pub new_sorted_list : Bool → Bool → (T → ℤ) → (T → ℤ) → SortedList T
  new_sorted_list score_repeat reverse get_score get_key = record {
    buf = [];
    score_repeat = score_repeat;
    reverse = reverse;
    get_score = get_score;
    get_key = get_key;
  }

  -- An index is `int`; one that is negative or past the end gives `none`.
  unfoldable pub get : SortedList T → ℤ → Option T
  get my (negsuc _) = none
  get my (pos index) = if ltb index (length my.buf) then get_elem? my.buf index else none

  unfoldable pub get_safe : SortedList T → ℤ → Option T
  get_safe my (negsuc _) = none
  get_safe my (pos index) = if not (ltb index (length my.buf)) then none else get_elem? my.buf index

  unfoldable pub search_key_from : SortedList T → ℤ → ℕ → List T → Option ℕ
  search_key_from my key idx [] = none
  search_key_from my key idx (item ∷ rest) =
      if eq_ℤ (my.get_key item) key then some idx else search_key_from my key (idx + 1) rest

  -- `none` is the answer `0, false`.
  unfoldable pub search_by_key : SortedList T → ℤ → Option ℕ
  unfolding search_key_from
  search_by_key my key = search_key_from my key 0 my.buf

  -- The test of the binary search, of one item and of an index of the buffer.
  unfoldable pub reached : SortedList T → ℤ → T → Bool
  reached my score item =
      if my.reverse then leb_ℤ (my.get_score item) score else leb_ℤ score (my.get_score item)

  unfoldable pub probe : SortedList T → ℤ → List T → ℕ → Bool
  probe my score buf i = elim (get_elem? buf i) [ none ↦ false | some item ↦ reached my score item ]

  abbrev pub scored : SortedList T → ℤ → Option T → Bool
  scored my score none = false
  scored my score (some item) = eq_ℤ (my.get_score item) score

  unfoldable pub search_by_score : SortedList T → ℤ → ℕ × Bool
  search_by_score my score =
      let index : ℕ = sort_search (length my.buf) (probe my score my.buf) in
      if ltb 0 (length my.buf)
      then (if ltb index (length my.buf) && scored my score (get_elem? my.buf index)
          then (index, true)
          else (index, false))
      else (0, false)

  unfoldable pub front : SortedList T → Option T
  front my = if ltb 0 (length my.buf) then get_elem? my.buf 0 else none

  unfoldable pub back : SortedList T → Option T
  back my = if ltb 0 (length my.buf) then get_elem? my.buf (length my.buf - 1) else none

  unfoldable pub pop_front : SortedList T → SortedList T × Option T
  pop_front my =
      if ltb 0 (length my.buf)
      then (record my { buf = drop 1 my.buf }, get_elem? my.buf 0)
      else (my, none)

  unfoldable pub pop_back : SortedList T → SortedList T × Option T
  pop_back my =
      if ltb 0 (length my.buf)
      then (
        record my { buf = take (length my.buf - 1) my.buf },
        get_elem? my.buf (length my.buf - 1),
      )
      else (my, none)

  -- The three statements of `Add` that insert `v` at `index`.
  unfoldable pub insert_at : ℕ → T → List T → List T
  unfolding shift_right
  insert_at index v buf = set (shift_right index (buf ++ v ∷ [])) index v

  unfoldable pub add : SortedList T → T → SortedList T × Bool
  add my v =
      let (index, found) = search_by_score my (my.get_score v) in
      if found && not my.score_repeat
      then (my, false)
      else (record my { buf = insert_at index v my.buf }, true)

  unfoldable pub remove_by_index : SortedList T → ℤ → SortedList T × Bool
  remove_by_index my (negsuc _) = (my, false)
  remove_by_index my (pos index) =
      if not (ltb index (length my.buf))
      then (my, false)
      else (record my { buf = remove_at index my.buf }, true)

  unfoldable pub remove_by_score : SortedList T → ℤ → SortedList T × Bool
  remove_by_score my score =
      let (index, found) = search_by_score my score in
      if found then (record my { buf = remove_at index my.buf }, true) else (my, false)

  unfoldable pub remove_by_key : SortedList T → ℤ → SortedList T × Bool
  remove_by_key my key = elim (search_by_key my key) [
    | none ↦ (my, false)
    | some index ↦ (record my { buf = remove_at index my.buf }, true)
  ]

  unfoldable pub batch_remove_by_keys : SortedList T → List ℤ → SortedList T
  batch_remove_by_keys my [] = my
  batch_remove_by_keys my (key ∷ keys) = batch_remove_by_keys (remove_by_key my key).0 keys

  unfoldable pub clear : SortedList T → SortedList T
  clear my = record my { buf = [] }

  -- `sort_slice` is `sort.Slice` with the test that its argument stands for: both sorts of
  -- `BatchAdd` put the higher score first.
  unfoldable pub batch_add :
      ((T → T → Bool) → List T → List T) → SortedList T → List T → SortedList T
  batch_add sort_slice my values =
      let higher : T → T → Bool = λ a b. not (leb_ℤ (my.get_score a) (my.get_score b)) in
      record my { buf = sort_slice higher (my.buf ++ sort_slice higher values) }
