-- ===== src/Basal/Slice.antt =====
-- slice.go: the functions on slices that need no random numbers.
use card.Prelude.{
  ℕ, ◌+◌, List, [], ◌∷◌, Option, none, some, Bool, if◌then◌else◌, length, get_elem?, replicate, map,
  ltb,
}

module _ {ℓ} {T : Type ℓ} where
  -- `Repeat`.
  abbrev pub repeat : T → ℕ → List T
  repeat v count = replicate count v

  abbrev pub or_zero : T → Option T → T
  or_zero zero_value none = zero_value
  or_zero zero_value (some v) = v

  -- `GetSliceValue`, of an index that is not negative.
  abbrev pub get_slice_value : T → List T → ℕ → T
  get_slice_value zero_value sli index =
      if ltb index (length sli) then or_zero zero_value (get_elem? sli index) else zero_value

  -- `FindSliceValue`: the value and its index, `none` for the index -1.
  abbrev pub find_from : ℕ → (T → Bool) → List T → Option (T × ℕ)
  find_from i f [] = none
  find_from i f (v ∷ rest) = if f v then some (v, i) else find_from (i + 1) f rest

  abbrev pub find_slice_value : (T → Bool) → List T → Option (T × ℕ)
  find_slice_value f sli = find_from 0 f sli

  -- `SliceTo`.
  abbrev pub slice_to {κ} : {D : Type κ} → List T → (T → D) → List D
  slice_to src f = map f src
