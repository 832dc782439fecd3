-- ===== src/Prelude/Pairs.antt =====
-- Predicates on every item of a list, and relations between every item and those behind it.
use card.Prelude.{
  ℕ, zero, suc, ◌+◌, ◌≤◌, ◌≡◌, List, [], ◌∷◌, ◌++◌, some, arith, get_elem?, take, drop,
}

abbrev pub All {ℓ κ} : {A : Type ℓ} → (A → Type κ) → List A → Type κ
All P [] = Unit
All P (x ∷ xs) = P x × All P xs

abbrev pub AllPairs {ℓ κ} : {A : Type ℓ} → (A → A → Type κ) → List A → Type κ
AllPairs R [] = Unit
AllPairs R (x ∷ xs) = All (R x) xs × AllPairs R xs

module _ {ℓ κ} {A : Type ℓ} (P : A → Type κ) where
  pub All-append : (xs ys : List A) → All P xs → All P ys → All P (xs ++ ys)
  All-append [] ys h k = k
  All-append (x ∷ xs) ys h k = (h.0, All-append xs ys h.1 k)

  pub All-take : (n : ℕ) (xs : List A) → All P xs → All P (take n xs)
  All-take zero xs h = tt
  All-take (suc n) [] h = tt
  All-take (suc n) (x ∷ xs) h = (h.0, All-take n xs h.1)

  pub All-drop : (n : ℕ) (xs : List A) → All P xs → All P (drop n xs)
  All-drop zero xs h = h
  All-drop (suc n) [] h = tt
  All-drop (suc n) (x ∷ xs) h = All-drop n xs h.1

  pub All-get : (xs : List A) (i : ℕ) (x : A) → All P xs → get_elem? xs i ≡ some x → P x
  All-get [] i x h e = cc
  All-get (y ∷ xs) zero x h e = let k : y ≡ x = cc in rw (← k) h.0
  All-get (y ∷ xs) (suc i) x h e = All-get xs i x h.1 e

  pub All-map {κ'} : (Q : A → Type κ') → ((x : A) → P x → Q x) → (xs : List A) → All P xs → All Q xs
  All-map Q f [] h = tt
  All-map Q f (x ∷ xs) h = (f x h.0, All-map Q f xs h.1)

module _ {ℓ κ} {A : Type ℓ} (R : A → A → Type κ) where
  pub AllPairs-append :
      (xs ys : List A)
      → AllPairs R xs
      → AllPairs R ys
      → All (λ x. All (R x) ys) xs
      → AllPairs R (xs ++ ys)
  AllPairs-append [] ys h k c = k
  AllPairs-append (x ∷ xs) ys h k c =
      (All-append (R x) xs ys h.0 c.0, AllPairs-append xs ys h.1 k c.1)

  pub AllPairs-take : (n : ℕ) (xs : List A) → AllPairs R xs → AllPairs R (take n xs)
  AllPairs-take zero xs h = tt
  AllPairs-take (suc n) [] h = tt
  AllPairs-take (suc n) (x ∷ xs) h = (All-take (R x) n xs h.0, AllPairs-take n xs h.1)

  pub AllPairs-drop : (n : ℕ) (xs : List A) → AllPairs R xs → AllPairs R (drop n xs)
  AllPairs-drop zero xs h = h
  AllPairs-drop (suc n) [] h = tt
  AllPairs-drop (suc n) (x ∷ xs) h = AllPairs-drop n xs h.1

  -- What stands before a position is related to what stands from it on, or from a later one.
  pub AllPairs-cross :
      (n m : ℕ) (xs : List A) → n ≤ m → AllPairs R xs → All (λ x. All (R x) (drop m xs)) (take n xs)
  AllPairs-cross zero m xs le h = tt
  AllPairs-cross (suc n) m [] le h = tt
  AllPairs-cross (suc n) zero (x ∷ xs) le h = absurd (omega arith)
  AllPairs-cross (suc n) (suc m) (x ∷ xs) le h =
      (All-drop (R x) m xs h.0, AllPairs-cross n m xs (omega arith) h.1)

  pub AllPairs-remove :
      (n : ℕ) (xs : List A) → AllPairs R xs → AllPairs R (take n xs ++ drop (n + 1) xs)
  AllPairs-remove n xs h =
      AllPairs-append (take n xs) (drop (n + 1) xs) (AllPairs-take n xs h)
        (AllPairs-drop (n + 1) xs h) (AllPairs-cross n (n + 1) xs (omega arith) h)
