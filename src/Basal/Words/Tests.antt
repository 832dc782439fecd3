-- ===== src/Basal/Words/Tests.antt =====
-- Runs of sensitive_words_matcher.go.
use card.Prelude.{arith, ◌≡◌, refl, [], ◌∷◌, none, some, ℕ_discrete}
use card.Basal.Words.{answer, has_word, has_from, has, masked, add_each, add, add_below, find, put}
use card.Basal.Words.Masking.{Masks, has_word-Masks}

-- The letters 1, 2 and 2, 3 are words; the text holds both, one over the other.
mask_overlap :
    has_word (add_each none ((1 ∷ 2 ∷ []) ∷ (2 ∷ 3 ∷ []) ∷ [])) (4 ∷ 1 ∷ 2 ∷ 3 ∷ []) 0
    ≡ answer (some (4 ∷ 0 ∷ 0 ∷ 3 ∷ []))
unfolding has_word has_from has masked add_each add add_below find put ℕ_discrete
mask_overlap = refl

has_word-Masks_example :
    Masks
      ((1 ∷ 2 ∷ []) ∷ (2 ∷ 3 ∷ []) ∷ [])
      (4 ∷ 1 ∷ 2 ∷ 3 ∷ [])
      0
      (has_word (add_each none ((1 ∷ 2 ∷ []) ∷ (2 ∷ 3 ∷ []) ∷ [])) (4 ∷ 1 ∷ 2 ∷ 3 ∷ []) 0)
has_word-Masks_example =
    has_word-Masks ((1 ∷ 2 ∷ []) ∷ (2 ∷ 3 ∷ []) ∷ []) (4 ∷ 1 ∷ 2 ∷ 3 ∷ []) 0 (omega arith)
