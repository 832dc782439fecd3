-- ===== src/Basal/SortedList/History.antt =====
-- What holds of a SortedList after any calls of its methods, but for BatchAdd.
use card.Prelude.{
  ℕ, zero, suc, ◌+◌, ◌-◌, ◌≡◌, sym, subst, Bool, true, false, List, [], ◌∷◌, ◌++◌, some, arith, ltb,
  length, get_elem?, take, drop, Bool-cases, Option-cases, inl, inr,
}
use card.Prelude.Int.{ℤ, pos, negsuc, eq_ℤ}
use card.Prelude.Pairs.{
  All, AllPairs, All-map, AllPairs-drop, AllPairs-take, AllPairs-remove, All-get,
}
use card.Basal.SortedList.Defs.{
  SortedList, search_by_score, remove_at, add, remove_by_index, remove_by_score, remove_by_key,
  search_by_key, batch_remove_by_keys, pop_front, pop_back, clear, new_sorted_list,
}
use card.Basal.SortedList.Order.{InOrder}
use card.Basal.SortedList.Search.{IsOther, IsFound, search_by_score-IsFound}
use card.Basal.SortedList.Updates.{IsApart, IsSorted, add-IsSorted}

-- A call of a method that changes the list.
pub data Call {ℓ} (T : Type ℓ) : Type ℓ where
  add_call : T → Call T
  remove_index_call : ℤ → Call T
  remove_score_call : ℤ → Call T
  remove_key_call : ℤ → Call T
  remove_keys_call : List ℤ → Call T
  pop_front_call : Call T
  pop_back_call : Call T
  clear_call : Call T

module _ {ℓ} {T : Type ℓ} where
  unfoldable pub run_call : SortedList T → Call T → SortedList T
  run_call my (add_call v) = (add my v).0
  run_call my (remove_index_call index) = (remove_by_index my index).0
  run_call my (remove_score_call score) = (remove_by_score my score).0
  run_call my (remove_key_call key) = (remove_by_key my key).0
  run_call my (remove_keys_call keys) = batch_remove_by_keys my keys
  run_call my pop_front_call = (pop_front my).0
  run_call my pop_back_call = (pop_back my).0
  run_call my clear_call = clear my

  unfoldable pub run_calls : SortedList T → List (Call T) → SortedList T
  run_calls my [] = my
  run_calls my (c ∷ cs) = run_calls (run_call my c) cs

  remove_at-IsSorted :
      (my : SortedList T) (i : ℕ) → IsSorted my → IsSorted (record my { buf = remove_at i my.buf })
  remove_at-IsSorted my i h = record {
    ordered = AllPairs-remove (InOrder my) i my.buf h.ordered;
    apart = λ one. AllPairs-remove (IsApart my) i my.buf (h.apart one);
  }

  remove_by_index-IsSorted :
      (my : SortedList T) (i : ℤ) → IsSorted my → IsSorted (remove_by_index my i).0
  unfolding remove_by_index
  remove_by_index-IsSorted my (negsuc _) h = h
  remove_by_index-IsSorted my (pos i) h = elim (Bool-cases (ltb i (length my.buf))) [
    | inl inside ↦ rw inside (remove_at-IsSorted my i h)
    | inr past ↦ rw past h
  ]

  remove_by_score-IsSorted :
      (my : SortedList T) (s : ℤ) → IsSorted my → IsSorted (remove_by_score my s).0
  unfolding remove_by_score
  remove_by_score-IsSorted my s h = elim (Bool-cases (search_by_score my s).1) [
    | inl found ↦ rw found (remove_at-IsSorted my (search_by_score my s).0 h)
    | inr absent ↦ rw absent h
  ]

  pub remove_by_key-IsSorted :
      (my : SortedList T) (k : ℤ) → IsSorted my → IsSorted (remove_by_key my k).0
  unfolding remove_by_key
  remove_by_key-IsSorted my k h = elim (Option-cases (search_by_key my k)) [
    | inl absent ↦ rw (absent, remove_by_key) h
    | inr (i, found) ↦ rw (found, remove_by_key) (remove_at-IsSorted my i h)
  ]

  batch_remove_by_keys-IsSorted :
      (my : SortedList T) (keys : List ℤ) → IsSorted my → IsSorted (batch_remove_by_keys my keys)
  unfolding batch_remove_by_keys
  batch_remove_by_keys-IsSorted my [] h = h
  batch_remove_by_keys-IsSorted my (k ∷ keys) h =
      batch_remove_by_keys-IsSorted (remove_by_key my k).0 keys (remove_by_key-IsSorted my k h)

  pop_front-IsSorted : (my : SortedList T) → IsSorted my → IsSorted (pop_front my).0
  unfolding pop_front
  pop_front-IsSorted my h = elim (Bool-cases (ltb 0 (length my.buf))) [
    | inl some_item ↦ rw some_item (record {
      ordered = AllPairs-drop (InOrder my) 1 my.buf h.ordered;
      apart = λ one. AllPairs-drop (IsApart my) 1 my.buf (h.apart one);
    })
    | inr empty ↦ rw empty h
  ]

  pop_back-IsSorted : (my : SortedList T) → IsSorted my → IsSorted (pop_back my).0
  unfolding pop_back
  pop_back-IsSorted my h = elim (Bool-cases (ltb 0 (length my.buf))) [
    | inl some_item ↦ rw some_item (record {
      ordered = AllPairs-take (InOrder my) (length my.buf - 1) my.buf h.ordered;
      apart = λ one. AllPairs-take (IsApart my) (length my.buf - 1) my.buf (h.apart one);
    })
    | inr empty ↦ rw empty h
  ]

  run_call-IsSorted : (my : SortedList T) (c : Call T) → IsSorted my → IsSorted (run_call my c)
  unfolding run_call clear
  run_call-IsSorted my (add_call v) h = add-IsSorted my v h
  run_call-IsSorted my (remove_index_call i) h = remove_by_index-IsSorted my i h
  run_call-IsSorted my (remove_score_call s) h = remove_by_score-IsSorted my s h
  run_call-IsSorted my (remove_key_call k) h = remove_by_key-IsSorted my k h
  run_call-IsSorted my (remove_keys_call ks) h = batch_remove_by_keys-IsSorted my ks h
  run_call-IsSorted my pop_front_call h = pop_front-IsSorted my h
  run_call-IsSorted my pop_back_call h = pop_back-IsSorted my h
  run_call-IsSorted my clear_call h = record { ordered = tt; apart = λ one. tt }

  run_calls_from :
      (my : SortedList T) (cs : List (Call T)) → IsSorted my → IsSorted (run_calls my cs)
  unfolding run_calls
  run_calls_from my [] h = h
  run_calls_from my (c ∷ cs) h = run_calls_from (run_call my c) cs (run_call-IsSorted my c h)

  -- Whatever adds, removals and pops a new list goes through, its buffer is in the order asked for
  -- and, unless scores may repeat, holds no score twice.
  pub run_calls-IsSorted :
      (score_repeat reverse : Bool) (get_score get_key : T → ℤ) (cs : List (Call T))
      → IsSorted (run_calls (new_sorted_list score_repeat reverse get_score get_key) cs)
  unfolding new_sorted_list
  run_calls-IsSorted score_repeat reverse get_score get_key cs =
      run_calls_from (new_sorted_list score_repeat reverse get_score get_key) cs
        (record { ordered = tt; apart = λ one. tt })

  other_behind :
      (my : SortedList T) (s : ℤ) (a b : T)
      → eq_ℤ (my.get_score a) s ≡ true
      → IsApart my a b
      → IsOther my s b
  other_behind my s a b e k = ground arith

  other_before :
      (my : SortedList T) (s : ℤ) (b a : T)
      → eq_ℤ (my.get_score a) s ≡ true
      → IsApart my b a
      → IsOther my s b
  other_before my s b a e k = ground arith

  others :
      (my : SortedList T) (s : ℤ) (xs : List T) (i : ℕ) (a : T)
      → AllPairs (IsApart my) xs
      → get_elem? xs i ≡ some a
      → eq_ℤ (my.get_score a) s ≡ true
      → All (IsOther my s) (remove_at i xs)
  others my s [] i a o e k = cc
  others my s (x ∷ xs) zero a o e k =
      let same : x ≡ a = cc in
      All-map (IsApart my x) (IsOther my s) (λ b h. other_behind my s x b (rw same k) h) xs o.0
  others my s (x ∷ xs) (suc i) a o e k =
      let rest : All (IsOther my s) (remove_at i xs) = others my s xs i a o.1 e k in
      let apart : IsApart my x a = All-get (IsApart my x) xs i a o.0 e in
      let n : suc i + 1 ≡ suc (i + 1) = omega arith in
      let all : All (IsOther my s) (x ∷ (take i xs ++ drop (i + 1) xs)) =
        (other_before my s x a k apart, rest) in
      subst (λ m. All (IsOther my s) (take (suc i) (x ∷ xs) ++ drop m (x ∷ xs))) (sym n) all

  -- In a sorted list whose scores may not repeat, `RemoveByScore` leaves no item with the score,
  -- and if it answers false there was none before.
  pub remove_by_score-gone :
      (my : SortedList T) (s : ℤ)
      → IsSorted my
      → my.score_repeat ≡ false
      → All (IsOther my s) (remove_by_score my s).0.buf
        × ((remove_by_score my s).1 ≡ false → All (IsOther my s) my.buf)
  unfolding remove_by_score
  remove_by_score-gone my s h one =
      let r : IsFound my s (search_by_score my s) = search_by_score-IsFound my s h.ordered in
      elim (Bool-cases (search_by_score my s).1) [
        | inl found ↦
            let (a, e, k) = r.hit found in
            rw found
              (others my s my.buf (search_by_score my s).0 a (h.apart one) e k, λ no_item. cc)
        | inr absent ↦ rw absent (r.miss absent, λ no_item. r.miss absent)
      ]
