-- ===== src/Basal/Words/Counts.antt =====
-- sensitive_words_matcher.go: what the tree of words counts.
use native.Mathlib.Nat.{mod-eq_of_lt}
use card.Prelude.{
  ℕ, ◌<◌, ◌%◌, ◌^◌, length, ◌+◌, ◌≤◌, ◌≡◌, ◌≢◌, refl, Bool, true, false, List, [], ◌∷◌, Option,
  none, some, arith, ite, ap, ◌∙◌, ℕ_discrete, Bool-cases, ◌⊎◌, inl, inr,
}
use card.Basal.Words.{Node, Children, node, nil, child, find, put, or_new, add_below, add, add_each}

-- How often the tree counts a word.
unfoldable pub count : Option Node → List ℕ → ℕ
unfolding find
count none p = 0
count (some (node c k)) [] = k
count (some (node c k)) (r ∷ rs) = count (find r c) rs

same : List ℕ → List ℕ → Bool
same [] [] = true
same [] (q ∷ qs) = false
same (r ∷ rs) [] = false
same (r ∷ rs) (q ∷ qs) = ite (ℕ_discrete r q) (same rs qs) false

-- The count after a word was added that is this one, or another.
bump : Bool → ℕ → ℕ
bump false k = k
bump true k = (k + 1) % 2 ^ 32

bump_lem : (k : ℕ) → k + 1 < 2 ^ 32 → bump true k ≡ k + 1
unfolding bump
bump_lem k h = mod-eq_of_lt h

find-put :
    (r k : ℕ) (n : Node) (c : Children)
    → find k (put r n c) ≡ ite (ℕ_discrete r k) (some n) (find k c)
unfolding find put
find-put r k n nil = refl
find-put r k n (child j m rest) = ground (arith, find-put r k n rest)

count-or_new : (o : Option Node) (p : List ℕ) → count (some (or_new o)) p ≡ count o p
unfolding count find
count-or_new none [] = refl
count-or_new none (r ∷ rs) = refl
count-or_new (some n) p = refl

-- A child that was put in place counts the word's rest.
count-ite :
    (r q : ℕ) (rs qs : List ℕ) (n : Node) (c : Children) (d : Dec (r ≡ q))
    → count (some n) qs ≡ bump (same rs qs) (count (find r c) qs)
    → count (ite d (some n) (find q c)) qs ≡ bump (ite d (same rs qs) false) (count (find q c) qs)
unfolding bump
count-ite r q rs qs n c (yes e) h = h ∙ ap (λ k. bump (same rs qs) (count (find k c) qs)) e
count-ite r q rs qs n c (no ne) h = refl

count-put :
    (r q : ℕ) (rs qs : List ℕ) (n : Node) (c : Children)
    → count (some n) qs ≡ bump (same rs qs) (count (find r c) qs)
    → count (find q (put r n c)) qs ≡ bump (same (r ∷ rs) (q ∷ qs)) (count (find q c) qs)
unfolding same
count-put r q rs qs n c h =
    ap (λ o. count o qs) (find-put r q n c) ∙ count-ite r q rs qs n c (ℕ_discrete r q) h

add_below-count :
    (w p : List ℕ) (n : Node) → count (some (add_below w n)) p ≡ bump (same w p) (count (some n) p)
unfolding add_below count same bump find
add_below-count [] [] (node c k) = refl
add_below-count [] (q ∷ qs) (node c k) = refl
add_below-count (r ∷ rs) [] (node c k) = refl
add_below-count (r ∷ rs) (q ∷ qs) (node c k) =
    count-put r q rs qs (add_below rs (or_new (find r c))) c (
      add_below-count rs qs (or_new (find r c))
      ∙ ap (bump (same rs qs)) (count-or_new (find r c) qs))

add-count :
    (o : Option Node) (w : List ℕ) (q : ℕ) (qs : List ℕ)
    → count (add o w) (q ∷ qs) ≡ bump (same w (q ∷ qs)) (count o (q ∷ qs))
unfolding add same bump
add-count o [] q qs = count-or_new o (q ∷ qs)
add-count o (r ∷ rs) q qs =
    add_below-count (r ∷ rs) (q ∷ qs) (or_new o)
    ∙ ap (bump (same (r ∷ rs) (q ∷ qs))) (count-or_new o (q ∷ qs))

-- The word is among the words.
pub IsAmong : List (List ℕ) → List ℕ → Type 0
IsAmong [] p = ⊥
IsAmong (w ∷ words) p = (w ≡ p) ⊎ IsAmong words p

same_lem : (w p : List ℕ) → same w p ≡ true → w ≡ p
unfolding same
same_lem [] [] e = refl
same_lem [] (q ∷ qs) e = ground arith
same_lem (r ∷ rs) [] e = ground arith
same_lem (r ∷ rs) (q ∷ qs) e = ground (arith, same_lem rs qs)

same_refl : (w : List ℕ) → same w w ≡ true
unfolding same
same_refl [] = refl
same_refl (r ∷ rs) = ground (arith, same_refl rs)

same_lem_ne : (w p : List ℕ) → same w p ≡ false → w ≢ p
same_lem_ne w p e h = ground (arith, same_refl w, h, e)

-- The count where the word is this one, and where it is another.
add-count_same :
    (o : Option Node) (w : List ℕ) (q : ℕ) (qs : List ℕ)
    → same w (q ∷ qs) ≡ true
    → count o (q ∷ qs) + 1 < 2 ^ 32
    → count (add o w) (q ∷ qs) ≡ count o (q ∷ qs) + 1
add-count_same o w q qs t h =
    add-count o w q qs ∙ ap (λ b. bump b (count o (q ∷ qs))) t ∙ bump_lem (count o (q ∷ qs)) h

add-count_other :
    (o : Option Node) (w : List ℕ) (q : ℕ) (qs : List ℕ)
    → same w (q ∷ qs) ≡ false
    → count (add o w) (q ∷ qs) ≡ count o (q ∷ qs)
unfolding bump
add-count_other o w q qs f = add-count o w q qs ∙ ap (λ b. bump b (count o (q ∷ qs))) f

-- What a tree of words counts, the words are, as long as no count wraps.
pub add_each-count :
    (words : List (List ℕ)) (o : Option Node) (q : ℕ) (qs : List ℕ)
    → count o (q ∷ qs) + length words < 2 ^ 32
    → (1 ≤ count (add_each o words) (q ∷ qs) → IsAmong words (q ∷ qs) ⊎ (1 ≤ count o (q ∷ qs)))
      × (count (add_each o words) (q ∷ qs) ≡ 0 → ¬ IsAmong words (q ∷ qs) × (count o (q ∷ qs) ≡ 0))
unfolding add_each IsAmong
add_each-count [] o q qs l = (λ h. inr h, λ h. (λ b. b, h))
add_each-count (w ∷ words) o q qs l = elim (Bool-cases (same w (q ∷ qs))) [
  | inl t ↦
      let k = add-count_same o w q qs t (omega arith) in
      let ih = add_each-count words (add o w) q qs (omega (arith, k, l)) in
      (λ h. inl (inl (same_lem w (q ∷ qs) t)), λ h. absurd (omega (arith, (ih.1 h).1, k)))
  | inr f ↦
      let k = add-count_other o w q qs f in
      let ih = add_each-count words (add o w) q qs (omega (arith, k, l)) in
      (
        λ h. elim (ih.0 h) [ inl a ↦ inl (inr a) | inr c ↦ inr (omega (arith, c, k)) ],
        λ h. (
          λ a. elim a [ inl e ↦ same_lem_ne w (q ∷ qs) f e | inr b ↦ (ih.1 h).0 b ],
          omega (arith, (ih.1 h).1, k),
        ),
      )
]
