-- ===== src/Basal/Words/Shortest.antt =====
-- sensitive_words_matcher.go: `has` finds the shortest word at the start of a text.
use card.Prelude.{
  ℕ, zero, suc, ◌+◌, ◌≤◌, ◌<◌, ◌≡◌, refl, List, [], ◌∷◌, Option, none, some, arith, if◌then◌else◌,
  if_ind, ltb, take, length, ap, ◌∙◌,
}
use card.Basal.Words.{Node, Children, node, find, count_of, has}
use card.Basal.Words.Counts.{count}

-- What `has` finds from a node on: the shortest word that the text begins with.
unfoldable pub Shortest : ℕ → Node → List ℕ → Option ℕ → Type 0
Shortest i n rs none = (k : ℕ) → k < length rs → count (some n) (take (suc k) rs) ≡ 0
Shortest i n rs (some m) =
    (k : ℕ) × (m ≡ i + k)
    × (k < length rs)
    × (1 ≤ count (some n) (take (suc k) rs))
    × ((j : ℕ) → j < k → count (some n) (take (suc j) rs) ≡ 0)

count_below :
    (r : ℕ) (c : Children) (x : ℕ) (m : Node) (p : List ℕ)
    → find r c ≡ some m
    → count (some (node c x)) (r ∷ p) ≡ count (some m) p
unfolding count
count_below r c x m p e = ap (λ o. count o p) e

-- A letter further: the child counts no word at its own place.
none_below :
    (r : ℕ) (c : Children) (x : ℕ) (rs : List ℕ) (m : Node) (bound : ℕ)
    → find r c ≡ some m
    → count (some m) [] ≡ 0
    → ((j : ℕ) → j < bound → count (some m) (take (suc j) rs) ≡ 0)
    → (j : ℕ) → j < suc bound
    → count (some (node c x)) (take (suc j) (r ∷ rs)) ≡ 0
none_below r c x rs m bound e z all zero l = count_below r c x m [] e ∙ z
none_below r c x rs m bound e z all (suc j) l =
    count_below r c x m (take (suc j) rs) e ∙ all j (omega arith)

Shortest-deeper :
    (i r : ℕ) (c : Children) (x : ℕ) (rs : List ℕ) (m : Node) (o : Option ℕ)
    → find r c ≡ some m
    → count (some m) [] ≡ 0
    → Shortest (i + 1) m rs o
    → Shortest i (node c x) (r ∷ rs) o
unfolding Shortest
Shortest-deeper i r c x rs m none e z s =
    λ k h. none_below r c x rs m (length rs) e z s k (omega (arith, h))
Shortest-deeper i r c x rs m (some p) e z (k, at, h, found, before) = (
  suc k,
  omega (arith, at),
  omega (arith, h),
  omega (arith, found, count_below r c x m (take (suc k) rs) e),
  none_below r c x rs m k e z before,
)

count_of_lem : (m : Node) → count (some m) [] ≡ count_of m
unfolding count
count_of_lem (node c x) = refl

Shortest-here :
    (i r : ℕ) (c : Children) (x : ℕ) (rs : List ℕ) (m : Node)
    → find r c ≡ some m
    → 1 ≤ count (some m) []
    → Shortest i (node c x) (r ∷ rs) (some i)
unfolding Shortest
Shortest-here i r c x rs m e h = (
  0,
  omega arith,
  omega arith,
  omega (arith, h, count_below r c x m [] e),
  λ j l. absurd (omega (arith, l)),
)

has_child :
    (i r : ℕ) (c : Children) (x : ℕ) (rs : List ℕ) (o : Option Node)
    → find r c ≡ o
    → ((j : ℕ) (m : Node) → Shortest j m rs (has j m rs))
    → Shortest i
        (node c x)
        (r ∷ rs)
        (elim o [ none ↦ none | some m ↦ if ltb 0 (count_of m) then some i else has (i + 1) m rs ])
unfolding Shortest count
has_child i r c x rs none e deeper = λ k h. ap (λ o. count o (take k rs)) e
has_child i r c x rs (some m) e deeper =
    if_ind (Shortest i (node c x) (r ∷ rs)) (ltb 0 (count_of m))
      (λ b. Shortest-here i r c x rs m e (ground (arith, count_of_lem m)))
      (λ b.
        Shortest-deeper i r c x rs m (has (i + 1) m rs) e (ground (arith, count_of_lem m))
          (deeper (i + 1) m))

pub has-Shortest : (i : ℕ) (n : Node) (rs : List ℕ) → Shortest i n rs (has i n rs)
unfolding has Shortest
has-Shortest i n [] = λ k h. absurd (omega (arith, h))
has-Shortest i (node c x) (r ∷ rs) =
    has_child i r c x rs (find r c) refl (λ j m. has-Shortest j m rs)
