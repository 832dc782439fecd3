-- ===== src/Basal/Words.antt =====
-- sensitive_words_matcher.go: the tree of words and the masking of a text. The letters are the runes of a
-- text in lower case.
mod Counts
mod Shortest
pub mod Masking
mod Tests
use card.Prelude.{
  ℕ, zero, suc, ◌+◌, ◌%◌, ◌^◌, ◌≤◌, ◌<◌, ◌≡◌, refl, Bool, true, false, ◌&&◌, List, [], ◌∷◌, Option,
  none, some, arith, if◌then◌else◌, ltb, leb, ite, drop, ℕ_discrete,
}
use card.Prelude.Text.{Str}

-- `sensitiveWordsNode`: its children and its count, a uint32 that wraps. The field `v` is never read.
mutual
  pub data Node : Type 0 where
    node : Children → ℕ → Node

  pub data Children : Type 0 where
    nil : Children
    child : ℕ → Node → Children → Children

abbrev pub new_node : Node
new_node = node nil 0

unfoldable pub find : ℕ → Children → Option Node
find r nil = none
find r (child k n rest) = ite (ℕ_discrete k r) (some n) (find r rest)

unfoldable pub put : ℕ → Node → Children → Children
put r n nil = child r n nil
put r n (child k m rest) = ite (ℕ_discrete k r) (child k n rest) (child k m (put r n rest))

abbrev pub or_new : Option Node → Node
or_new none = new_node
or_new (some n) = n

abbrev pub get : Node → ℕ → Option Node
get (node children count) r = find r children

-- The loop of `Add` below a node: the rest of the word, and at its end one more.
unfoldable pub add_below : List ℕ → Node → Node
unfolding find put
add_below [] (node children count) = node children ((count + 1) % 2 ^ 32)
add_below (r ∷ rs) (node children count) =
    node (put r (add_below rs (or_new (find r children))) children) count

-- `Add`; a word without letters makes the root and nothing else.
abbrev add_from : Node → List ℕ → Node
add_from root [] = root
add_from root (r ∷ rs) = add_below (r ∷ rs) root

unfoldable pub add : Option Node → List ℕ → Option Node
unfolding add_below
add root rs = some (add_from (or_new root) rs)

abbrev pub count_of : Node → ℕ
count_of (node children count) = count

-- `has` of the text from a node on; `none` is -1.
unfoldable pub has : ℕ → Node → List ℕ → Option ℕ
unfolding find
has i n [] = none
has i n (r ∷ rs) = elim (get n r) [
  | none ↦ none
  | some m ↦ if ltb 0 (count_of m) then some i else has (i + 1) m rs
]

-- The copy of the text in which the letters from `a` to `b` are replaced.
unfoldable pub masked : ℕ → ℕ → ℕ → ℕ → List ℕ → List ℕ
masked repl a b x [] = []
masked repl a b x (r ∷ rs) = (if leb a x && leb x b then repl else r) ∷ masked repl a b (x + 1) rs

-- What `Has` answers: a text, `none` for nil; `panics` where no word was added and the text has a letter.
pub data Answer : Type 0 where
  panics : Answer
  answer : Option (List ℕ) → Answer

unfoldable pub has_from : ℕ → Node → List ℕ → List ℕ → ℕ → Option (List ℕ)
unfolding has masked
has_from i root rs [] repl = none
has_from i root rs (r ∷ rest) repl = elim (has 0 root (r ∷ rest)) [
  | none ↦ has_from (i + 1) root rs rest repl
  | some more ↦ some (masked repl i (i + more) 0 rs)
]

abbrev without_root : List ℕ → Answer
without_root [] = answer none
without_root (r ∷ rs) = panics

unfoldable pub has_word : Option Node → List ℕ → ℕ → Answer
unfolding has_from
has_word none rs repl = without_root rs
has_word (some root) rs repl = answer (has_from 0 root rs rs repl)

-- The matcher after some calls of `Add`.
unfoldable pub add_each : Option Node → List (List ℕ) → Option Node
unfolding add
add_each root [] = root
add_each root (rs ∷ words) = add_each (add root rs) words
