-- ===== src/Basal/Words/Masking.antt =====
-- sensitive_words_matcher.go: `Has` masks the first of the words in a text.
use card.Prelude.{
  ℕ, zero, suc, ◌+◌, ◌≤◌, ◌<◌, ◌^◌, ◌≡◌, refl, List, [], ◌∷◌, ◌++◌, Option, none, some, arith, drop,
  take, replicate, length, ap, sym, ◌∙◌, inl, inr, length-drop, length-take, subst,
}
use card.Basal.Words.{
  add, add_from, or_new, Node, add_each, has, masked, has_from, has_word, Answer, panics, answer,
}
use card.Basal.Words.Counts.{count, IsAmong, add_each-count}
use card.Basal.Words.Shortest.{Shortest, has-Shortest}

masked-after : (repl a b x : ℕ) (rs : List ℕ) → b < x → masked repl a b x rs ≡ rs
unfolding masked
masked-after repl a b x [] l = refl
masked-after repl a b x (r ∷ rs) l = ground (arith, masked-after repl a b (x + 1) rs (omega arith))

masked-inside :
    (repl a b x n : ℕ) (rs : List ℕ)
    → a ≤ x
    → x + n ≡ suc b
    → n ≤ length rs
    → masked repl a b x rs ≡ replicate n repl ++ drop n rs
unfolding masked
masked-inside repl a b x zero rs h k l = masked-after repl a b x rs (omega arith)
masked-inside repl a b x (suc n) [] h k l = absurd (omega (arith, l))
masked-inside repl a b x (suc n) (r ∷ rs) h k l =
    ground
      (arith, masked-inside repl a b (x + 1) n rs (omega arith) (omega arith) (omega (arith, l)))

masked-before :
    (repl a b x m n : ℕ) (rs : List ℕ)
    → x + m ≡ a
    → a + n ≡ suc b
    → m + n ≤ length rs
    → masked repl a b x rs ≡ take m rs ++ (replicate n repl ++ drop n (drop m rs))
unfolding masked
masked-before repl a b x zero n rs h k l =
    masked-inside repl a b x n rs (omega arith) (omega arith) (omega arith)
masked-before repl a b x (suc m) n [] h k l = absurd (omega (arith, l))
masked-before repl a b x (suc m) n (r ∷ rs) h k l =
    ground
      (arith, masked-before repl a b (x + 1) m n rs (omega arith) (omega arith) (omega (arith, l)))

-- What the loop of `Has` finds in the rest of a text: the first place where a word begins, and the
-- shortest word there.
First : ℕ → ℕ → Node → List ℕ → List ℕ → Option (List ℕ) → Type 0
First repl i n rs rest none =
    (j k : ℕ) → j + k < length rest → count (some n) (take (suc k) (drop j rest)) ≡ 0
First repl i n rs rest (some res) =
    (j k : ℕ) × (j + k < length rest)
    × (1 ≤ count (some n) (take (suc k) (drop j rest)))
    × ((j' k' : ℕ)
        → j' < j
        → j' + k' < length rest
        → count (some n) (take (suc k') (drop j' rest)) ≡ 0)
    × ((k' : ℕ) → k' < k → count (some n) (take (suc k') (drop j rest)) ≡ 0)
    × (res ≡ masked repl (i + j) (i + j + k) 0 rs)

-- No word begins at a letter, nor before a bound in the rest.
nothing_before :
    (n : Node) (r : ℕ) (rest : List ℕ) (bound : ℕ)
    → ((k : ℕ) → k < suc (length rest) → count (some n) (take (suc k) (r ∷ rest)) ≡ 0)
    → ((j k : ℕ)
        → j < bound
        → j + k < length rest
        → count (some n) (take (suc k) (drop j rest)) ≡ 0)
    → (j k : ℕ) → j < suc bound
    → j + k < suc (length rest)
    → count (some n) (take (suc k) (drop j (r ∷ rest))) ≡ 0
nothing_before n r rest bound s f zero k l h = s k (omega arith)
nothing_before n r rest bound s f (suc j) k l h = f j k (omega arith) (omega arith)

First-later :
    (repl i : ℕ) (n : Node) (rs : List ℕ) (r : ℕ) (rest : List ℕ) (o : Option (List ℕ))
    → ((k : ℕ) → k < suc (length rest) → count (some n) (take (suc k) (r ∷ rest)) ≡ 0)
    → First repl (i + 1) n rs rest o
    → First repl i n rs (r ∷ rest) o
unfolding First
First-later repl i n rs r rest none s f =
    λ j k h. nothing_before n r rest (length rest) s (λ j k l h. f j k h) j k (omega (arith, h)) h
First-later repl i n rs r rest (some res) s (j, k, h, found, before, shorter, e) = (
  suc j,
  k,
  omega (arith, h),
  found,
  (λ j' k' l h'. nothing_before n r rest j s before j' k' l h'),
  shorter,
  e ∙ (ap (λ p. masked repl p (p + k) 0 rs) (omega arith)),
)

found_at :
    (repl i : ℕ) (n : Node) (rs : List ℕ) (r : ℕ) (rest : List ℕ) (o : Option ℕ)
    → Shortest 0 n (r ∷ rest) o
    → First repl (i + 1) n rs rest (has_from (i + 1) n rs rest repl)
    → First repl i n rs (r ∷ rest) (elim o [
      | none ↦ has_from (i + 1) n rs rest repl
      | some more ↦ some (masked repl i (i + more) 0 rs)
    ])
unfolding Shortest First
found_at repl i n rs r rest none s f =
    First-later repl i n rs r rest (has_from (i + 1) n rs rest repl) s f
found_at repl i n rs r rest (some more) (k, at, h, found, before) f = (
  0,
  k,
  omega (arith, h),
  found,
  (λ j' k' l h'. absurd (omega (arith, l))),
  before,
  ap (λ p. masked repl p (i + more) 0 rs) (omega arith)
      ∙ ap (λ q. masked repl (i + 0) q 0 rs) (omega (arith, at)),
)

has_from-First :
    (repl i : ℕ) (n : Node) (rs rest : List ℕ) → First repl i n rs rest (has_from i n rs rest repl)
unfolding has_from First
has_from-First repl i n rs [] = λ j k h. absurd (omega (arith, h))
has_from-First repl i n rs (r ∷ rest) =
    found_at repl i n rs r rest (has 0 n (r ∷ rest)) (has-Shortest 0 n (r ∷ rest))
      (has_from-First repl (i + 1) n rs rest)

words_lem :
    (words : List (List ℕ)) (p : List ℕ)
    → length words < 2 ^ 32
    → 1 ≤ length p
    → (1 ≤ count (add_each none words) p → IsAmong words p)
      × (count (add_each none words) p ≡ 0 → ¬ IsAmong words p)
unfolding count
words_lem words [] small l = absurd (omega (arith, l))
words_lem words (q ∷ qs) small l =
    let c = add_each-count words none q qs (omega (arith, small)) in
    (λ h. elim (c.0 h) [ inl a ↦ a | inr z ↦ absurd (omega (arith, z)) ], λ h. (c.1 h).0)

length-slice : (j k : ℕ) (rs : List ℕ) → j + k < length rs → 1 ≤ length (take (suc k) (drop j rs))
length-slice j k rs h = omega (arith, length-take (suc k) (drop j rs), length-drop j rs)

-- The answer for some words and a text. Without words a text that has a letter ends in a panic. Nil says
-- that no slice of the text is a word. A text says that one is: the slice of `suc k` letters from `j`,
-- no other begins before it, none that begins there is shorter, and it alone is replaced.
pub Masks : List (List ℕ) → List ℕ → ℕ → Answer → Type 0
Masks words rs repl panics = (words ≡ []) × (1 ≤ length rs)
Masks words rs repl (answer none) =
    (j k : ℕ) → j + k < length rs → ¬ IsAmong words (take (suc k) (drop j rs))
Masks words rs repl (answer (some res)) =
    (j k : ℕ) × (j + k < length rs)
    × IsAmong words (take (suc k) (drop j rs))
    × ((j' k' : ℕ) → j' < j → j' + k' < length rs → ¬ IsAmong words (take (suc k') (drop j' rs)))
    × ((k' : ℕ) → k' < k → ¬ IsAmong words (take (suc k') (drop j rs)))
    × (res ≡ take j rs ++ (replicate (suc k) repl ++ drop (suc k) (drop j rs)))

First-Masks :
    (words : List (List ℕ)) (rs : List ℕ) (repl : ℕ) (n : Node) (o : Option (List ℕ))
    → length words < 2 ^ 32
    → add_each none words ≡ some n
    → First repl 0 n rs rs o
    → Masks words rs repl (answer o)
unfolding First Masks
First-Masks words rs repl n none small e f = λ j k h.
    (words_lem words (take (suc k) (drop j rs)) small (length-slice j k rs h)).1
      (ap (λ o. count o (take (suc k) (drop j rs))) e ∙ f j k h)
First-Masks words rs repl n (some res) small e (j, k, h, found, before, shorter, eq) = (
  j,
  k,
  h,
  (words_lem words (take (suc k) (drop j rs)) small (length-slice j k rs h)).0
      (omega (arith, found, ap (λ o. count o (take (suc k) (drop j rs))) e)),
  (λ j' k' l h'.
      (words_lem words (take (suc k') (drop j' rs)) small (length-slice j' k' rs h')).1
        (ap (λ o. count o (take (suc k') (drop j' rs))) e ∙ before j' k' l h')),
  (λ k' l.
      (words_lem words (take (suc k') (drop j rs)) small (length-slice j k' rs (omega arith))).1
        (ap (λ o. count o (take (suc k') (drop j rs))) e ∙ shorter k' l)),
  eq
      ∙ masked-before repl (0 + j) (0 + j + k) 0 j (suc k) rs (omega arith) (omega arith)
          (omega arith),
)

add_each-some : (n : Node) (words : List (List ℕ)) → (m : Node) × (add_each (some n) words ≡ some m)
unfolding add_each add
add_each-some n [] = (n, refl)
add_each-some n (w ∷ words) = add_each-some (add_from n w) words

-- After fewer than 2 ^ 32 words were added, so that no count wraps, `Has` finds in any text the first place where one of them begins and the
-- shortest that begins there, and replaces its letters and no other; it answers nil if and only if no
-- word of at least a letter stands in the text, and panics only before the first word is added.
pub has_word-Masks :
    (words : List (List ℕ)) (rs : List ℕ) (repl : ℕ)
    → length words < 2 ^ 32
    → Masks words rs repl (has_word (add_each none words) rs repl)
unfolding has_word add_each add Masks
has_word-Masks [] [] repl small = λ j k h. absurd (omega (arith, h))
has_word-Masks [] (r ∷ rs) repl small = (refl, omega arith)
has_word-Masks (w ∷ words) rs repl small =
    let (n, e) = add_each-some (add_from (or_new none) w) words in
    subst (λ o. Masks (w ∷ words) rs repl (has_word o rs repl)) (sym e)
      (First-Masks (w ∷ words) rs repl n (has_from 0 n rs rs repl) small e
        (has_from-First repl 0 n rs rs))
