-- ===== src/Basal/Tests.antt =====
-- Concrete runs of the containers of basal, and their theorems at concrete inputs.
use card.Prelude.{
  ◌≡◌, refl, Bool, true, false, ◌&&◌, ◌||◌, List, [], ◌∷◌, arith, if◌then◌else◌, Bool-cases, inl,
  inr,
}
use card.Prelude.Int.{ℤ, pos, negsuc, leb_ℤ}
use card.Prelude.Pairs.{All, AllPairs, All-map}
use card.Prelude.Search.{sort_search, search_loop}
use card.Prelude.{◌<◌, ◌≤◌, length, some}
use card.Prelude.Text.{codes}
use card.Basal.Next.{Reader, new_next_number, next, numbers, skip, read_digits, next-advances}
use card.Basal.Padding.{pkcs5_padding, pkcs5_unpadding, pkcs5_unpadding-pkcs5_padding}
use card.Basal.SortedList.Defs.{
  SortedList, new_sorted_list, search_by_score, reached, probe, shift_right, insert_at, add,
  remove_by_score, batch_add,
}
use card.Basal.SortedList.Order.{IsOrdered}
use card.Basal.SortedList.Search.{IsFound, search_by_score-IsFound}
use card.Basal.SortedList.Updates.{IsSorted, IsAdded, add-IsAdded}
use card.Basal.SortedList.History.{
  Call, add_call, remove_score_call, run_call, run_calls, run_calls-IsSorted,
}
use card.Basal.SortedList.Batch.{higher, SameScore, batch_add-flat}
use card.Basal.SortedSet.Defs.{intersection, union, new_sorted_set}
use card.Basal.SortedSet.Keys.{has}
use card.Basal.SortedSet.Algebra.{IsKeyedSet, IsSetOf, has_key, union-IsSetOf}
use card.Basal.SortedSet.Intersection.{intersection-IsSetOf}

abbrev itself : ℤ → ℤ
itself v = v

abbrev calls : List (Call ℤ)
calls =
    add_call (pos 5)
    ∷ add_call (negsuc 1)
    ∷ add_call (pos 9)
    ∷ add_call (pos 5)
    ∷ add_call (pos 7)
    ∷ remove_score_call (pos 9)
    ∷ []

abbrev sample : SortedList ℤ
sample = run_calls (new_sorted_list false false itself itself) calls

sample_items : sample.buf ≡ negsuc 1 ∷ pos 5 ∷ pos 7 ∷ []
unfolding run_calls run_call new_sorted_list add remove_by_score search_by_score reached probe
    sort_search search_loop insert_at shift_right
sample_items = refl

run_calls-IsSorted_example : IsSorted sample
run_calls-IsSorted_example = run_calls-IsSorted false false itself itself calls

search_by_score-IsFound_example : IsFound sample (pos 6) (search_by_score sample (pos 6))
search_by_score-IsFound_example =
    search_by_score-IsFound sample (pos 6)
      (run_calls-IsSorted false false itself itself calls).ordered

add-IsAdded_example : IsAdded sample (pos 6) (add sample (pos 6))
add-IsAdded_example =
    add-IsAdded sample (pos 6) (run_calls-IsSorted false false itself itself calls).ordered

single_scores : sample.score_repeat ≡ false
unfolding run_calls run_call new_sorted_list add remove_by_score search_by_score reached probe
    sort_search search_loop insert_at shift_right
single_scores = refl

abbrev items : SortedList ℤ
items = record {
  buf = pos 2 ∷ pos 4 ∷ [];
  score_repeat = true;
  reverse = false;
  get_score = itself;
  get_key = itself;
}

abbrev others : SortedList ℤ
others = record items { buf = pos 4 ∷ pos 6 ∷ [] }

items-IsKeyedSet : IsKeyedSet items
items-IsKeyedSet = record {
  sorted = record { ordered = ((refl, tt), (tt, tt)); apart = λ one. cc };
  repeats = refl;
  keyed = (refl, (refl, tt));
}

union-IsSetOf_example :
    IsSetOf items (λ k. has_key items k || has itself k others.buf) (union items others)
union-IsSetOf_example = union-IsSetOf items others items-IsKeyedSet

intersection-IsSetOf_example :
    IsSetOf
      (new_sorted_set false itself itself)
      (λ k. has itself k items.buf && has_key others k)
      (intersection items others)
intersection-IsSetOf_example = intersection-IsSetOf others items

abbrev place : ℤ → List ℤ → List ℤ
place x [] = x ∷ []
place x (y ∷ ys) = if leb_ℤ y x then x ∷ y ∷ ys else y ∷ place x ys

-- An insertion sort, the highest first.
abbrev sort_down : List ℤ → List ℤ
sort_down [] = []
sort_down (x ∷ xs) = place x (sort_down xs)

abbrev Down : ℤ → ℤ → Type 0
Down a b = higher items b a ≡ false

Down-trans : (x y z : ℤ) → leb_ℤ y x ≡ true → Down y z → Down x z
Down-trans x y z h k = ground arith

Down-of : (x y : ℤ) → leb_ℤ y x ≡ true → Down x y
Down-of x y h = ground arith

Down-up : (x y : ℤ) → leb_ℤ y x ≡ false → Down y x
Down-up x y h = ground arith

place-All : (y x : ℤ) (ys : List ℤ) → Down y x → All (Down y) ys → All (Down y) (place x ys)
place-All y x [] h k = (h, tt)
place-All y x (z ∷ ys) h k = elim (Bool-cases (leb_ℤ z x)) [
  | inl e ↦ rw e (h, k)
  | inr e ↦ rw e (k.0, place-All y x ys h k.1)
]

place-AllPairs : (x : ℤ) (ys : List ℤ) → AllPairs Down ys → AllPairs Down (place x ys)
place-AllPairs x [] h = (tt, tt)
place-AllPairs x (y ∷ ys) h = elim (Bool-cases (leb_ℤ y x)) [
  | inl e ↦
      rw e ((Down-of x y e, All-map (Down y) (Down x) (λ z k. Down-trans x y z e k) ys h.0), h)
  | inr e ↦ rw e (place-All y x ys (Down-up x y e) h.0, place-AllPairs x ys h.1)
]

sorts-Down : (xs : List ℤ) → AllPairs Down (sort_down xs)
sorts-Down [] = tt
sorts-Down (x ∷ xs) = place-AllPairs x (sort_down xs) (sorts-Down xs)

abbrev sort_slice : (ℤ → ℤ → Bool) → List ℤ → List ℤ
sort_slice less xs = sort_down xs

-- `BatchAdd` turns an ascending list around.
turned : (batch_add sort_slice items (pos 3 ∷ [])).buf ≡ pos 4 ∷ pos 3 ∷ pos 2 ∷ []
unfolding batch_add
turned = refl

abbrev flat_items : SortedList ℤ
flat_items = record items { buf = pos 2 ∷ [] }

flat_after : IsOrdered flat_items (batch_add sort_slice flat_items (pos 2 ∷ [])).buf
unfolding batch_add
flat_after = ((refl, tt), (tt, tt))

batch_add-flat_example :
    AllPairs (SameScore flat_items) (batch_add sort_slice flat_items (pos 2 ∷ [])).buf
batch_add-flat_example =
    batch_add-flat flat_items (pos 2 ∷ []) sort_slice sorts-Down refl flat_after

-- "a12,b345", read from its start.
abbrev reader : Reader
unfolding new_next_number
reader = new_next_number (codes "a12,b345")

abbrev reader_after : Reader
reader_after = record { s = codes "a12,b345"; length_of = 8; at = 3 }

first_number : next reader 0 0 ≡ some (12, reader_after)
unfolding next skip read_digits new_next_number
first_number = refl

all_numbers : numbers 9 reader [] ≡ 12 ∷ 345 ∷ []
unfolding numbers next skip read_digits new_next_number
all_numbers = refl

next-advances_example :
    (reader.at < reader_after.at)
    × (reader_after.at ≤ length reader_after.s)
    × (reader_after.s ≡ reader.s)
unfolding reader
next-advances_example = next-advances reader 0 0 12 reader_after (omega arith) first_number

pkcs5_unpadding-pkcs5_padding_example :
    pkcs5_unpadding (pkcs5_padding (1 ∷ 2 ∷ 3 ∷ []) 8) ≡ some (1 ∷ 2 ∷ 3 ∷ [])
pkcs5_unpadding-pkcs5_padding_example =
    pkcs5_unpadding-pkcs5_padding (1 ∷ 2 ∷ 3 ∷ []) 8 (omega arith) (omega arith)
