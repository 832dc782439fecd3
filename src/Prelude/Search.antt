-- ===== src/Prelude/Search.antt =====
-- `sort.Search` of Go: the loop that halves the range, on as much fuel as the range is long.
use card.Prelude.{
  ℕ, zero, suc, ◌+◌, ◌-◌, ◌/◌, ◌≤◌, ◌<◌, ◌≡◌, Bool, true, false, inl, inr, arith, ltb,
  if◌then◌else◌, Bool-cases,
}

unfoldable pub search_loop : ℕ → (ℕ → Bool) → ℕ → ℕ → ℕ
search_loop zero f i j = i
search_loop (suc fuel) f i j =
    let h : ℕ = (i + j) / 2 in
    let right : ℕ = search_loop fuel f (h + 1) j in
    let left : ℕ = search_loop fuel f i h in if ltb i j then if f h then left else right else i

unfoldable pub sort_search : ℕ → (ℕ → Bool) → ℕ
unfolding search_loop
sort_search n f = search_loop n f 0 n

-- What the result is a boundary of: the test fails just before it and holds at it, if it is below `n`.
pub record IsBoundary (n : ℕ) (f : ℕ → Bool) (r : ℕ) : Type 0 where
  pub in_range : r ≤ n
  pub below : (i : ℕ) → r ≡ suc i → f i ≡ false
  pub above : r < n → f r ≡ true

search_loop-IsBoundary :
    (fuel n : ℕ) (f : ℕ → Bool) (i j : ℕ)
    → j - i ≤ fuel
    → i ≤ j
    → j ≤ n
    → ((k : ℕ) → i ≡ suc k → f k ≡ false)
    → (j < n → f j ≡ true)
    → IsBoundary n f (search_loop fuel f i j)
unfolding search_loop
search_loop-IsBoundary zero n f i j enough ij jn low high = record {
  in_range = omega arith;
  below = low;
  above = let e : i ≡ j = omega arith in rw e high;
}
search_loop-IsBoundary (suc fuel) n f i j enough ij jn low high = elim (Bool-cases (ltb i j)) [
  | inr done ↦ rw done (record {
    in_range = omega arith;
    below = low;
    above = let e : i ≡ j = ground arith in rw e high;
  })
  | inl more ↦
      let lt : i < j = ground arith in
      elim (Bool-cases (f ((i + j) / 2))) [
        | inl hit ↦
            rw (more, hit)
              (search_loop-IsBoundary fuel n f i ((i + j) / 2) (omega arith) (omega arith)
                (omega arith) low (λ _. hit))
        | inr miss ↦
            rw (more, miss)
              (search_loop-IsBoundary fuel n f ((i + j) / 2 + 1) j (omega arith) (omega arith) jn
                (λ k e. let e' : (i + j) / 2 ≡ k = omega arith in rw (← e') miss) high)
      ]
]

-- For every test, whether monotone or not, `sort.Search` ends at a boundary of it.
pub sort_search-IsBoundary : (n : ℕ) (f : ℕ → Bool) → IsBoundary n f (sort_search n f)
unfolding sort_search
sort_search-IsBoundary n f =
    search_loop-IsBoundary n n f 0 n (omega arith) (omega arith) (omega arith)
      (λ k e. absurd (omega arith)) (λ h. absurd (omega arith))
