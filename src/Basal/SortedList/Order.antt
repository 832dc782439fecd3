-- ===== src/Basal/SortedList/Order.antt =====
-- The order of the buffer: what the binary search finds, and that each method keeps the order.
use card.Prelude.{
  ℕ, zero, suc, ◌+◌, ◌-◌, ◌≤◌, ◌<◌, ◌≡◌, refl, ap, ◌∙◌, Bool, true, false, List, [], ◌∷◌, ◌++◌,
  some, arith, if◌then◌else◌, length, get_elem?, set, take, drop, length-append, Bool-cases, inl,
  inr,
}
use card.Prelude.Int.{ℤ, leb_ℤ}
use card.Prelude.Pairs.{All, AllPairs, All-get, All-map}
use card.Basal.SortedList.Defs.{SortedList, reached, probe, shift_right, insert_at}

module _ {ℓ} {T : Type ℓ} where
  -- Item `a` may stand before item `b`.
  abbrev pub before : SortedList T → T → T → Bool
  before my a b =
      if my.reverse
      then leb_ℤ (my.get_score b) (my.get_score a)
      else leb_ℤ (my.get_score a) (my.get_score b)

  abbrev pub InOrder : SortedList T → T → T → Type 0
  InOrder my a b = before my a b ≡ true

  -- The buffer is in order: ascending scores, or descending ones if the list is reversed.
  abbrev pub IsOrdered : SortedList T → List T → Type 0
  IsOrdered my buf = AllPairs (InOrder my) buf

  pub get_elem?-some : (xs : List T) (i : ℕ) → i < length xs → (x : T) × get_elem? xs i ≡ some x
  get_elem?-some [] i h = absurd (omega arith)
  get_elem?-some (x ∷ xs) zero h = (x, refl)
  get_elem?-some (x ∷ xs) (suc i) h = get_elem?-some xs i (omega arith)

  take-length-append : (xs ys : List T) → take (length xs) (xs ++ ys) ≡ xs
  take-length-append [] ys = refl
  take-length-append (x ∷ xs) ys = ap (λ l. x ∷ l) (take-length-append xs ys)

  shift_right-suc : (i : ℕ) (x : T) (l : List T) → shift_right (suc i) (x ∷ l) ≡ x ∷ shift_right i l
  unfolding shift_right
  shift_right-suc i x l =
      let e : suc i + 1 ≡ suc (i + 1) = omega arith in
      let e' : suc (length l) - suc (i + 1) ≡ length l - (i + 1) = omega arith in
      ap (λ n. take n (x ∷ l) ++ take (suc (length l) - n) (drop i l)) e
      ∙ ap (λ n. x ∷ (take (i + 1) l ++ take n (drop i l))) e'

  -- `copy` and the assignment leave the items before the index, then `v`, then the rest.
  pub insert_at_lem :
      (index : ℕ) (v : T) (buf : List T)
      → index ≤ length buf
      → insert_at index v buf ≡ take index buf ++ v ∷ drop index buf
  unfolding insert_at shift_right
  insert_at_lem zero v [] h = refl
  insert_at_lem zero v (x ∷ buf) h =
      let e : suc (length (buf ++ v ∷ [])) - 1 ≡ length (x ∷ buf) =
        omega (arith, length-append buf (v ∷ [])) in
      ap (λ l. v ∷ l)
        (ap (λ n. take n (x ∷ buf ++ v ∷ [])) e ∙ take-length-append (x ∷ buf) (v ∷ []))
  insert_at_lem (suc i) v [] h = absurd (omega arith)
  insert_at_lem (suc i) v (x ∷ buf) h =
      ap (λ l. set l (suc i) v) (shift_right-suc i x (buf ++ v ∷ []))
      ∙ ap (λ l. x ∷ l) (insert_at_lem i v buf (omega arith))

  module _ (my : SortedList T) (score : ℤ) where
    reached_after :
        (a b : T) → InOrder my a b → reached my score a ≡ true → reached my score b ≡ true
    unfolding reached
    reached_after a b h k = ground arith

    abbrev pub IsReached : T → Type 0
    IsReached a = reached my score a ≡ true

    abbrev pub IsEarlier : T → Type 0
    IsEarlier a = reached my score a ≡ false

    first_early :
        (x : T) (buf : List T) (r : ℕ)
        → All (InOrder my x) buf
        → ((i : ℕ) → suc r ≡ suc i → probe my score (x ∷ buf) i ≡ false)
        → suc r ≤ length (x ∷ buf)
        → IsEarlier x
    unfolding probe
    first_early x buf zero o lo le = lo 0 refl
    first_early x [] (suc r) o lo le = absurd (omega arith)
    first_early x (y ∷ buf) (suc r) o lo le =
        let (b, e) = get_elem?-some (y ∷ buf) r (omega arith) in
        let after : InOrder my x b = All-get (InOrder my x) (y ∷ buf) r b o e in
        let miss : probe my score (x ∷ y ∷ buf) (suc r) ≡ false = lo (suc r) refl in
        let late : reached my score b ≡ false = rw (e, probe) at miss in
        elim (Bool-cases (reached my score x)) [
          | inl hit ↦ let k : reached my score b ≡ true = reached_after x b after hit in cc
          | inr h ↦ h
        ]

    -- A boundary of the test cuts an ordered buffer in the items before the score and the rest.
    pub cut :
        (buf : List T) (r : ℕ)
        → IsOrdered my buf
        → ((i : ℕ) → r ≡ suc i → probe my score buf i ≡ false)
        → r ≤ length buf
        → (r < length buf → probe my score buf r ≡ true)
        → All IsEarlier (take r buf) × All IsReached (drop r buf)
    unfolding probe
    cut [] zero o lo le hi = (tt, tt)
    cut [] (suc r) o lo le hi = absurd (omega arith)
    cut (x ∷ buf) zero o lo le hi =
        let r : IsReached x = hi (omega arith) in
        (tt, (r, All-map (InOrder my x) IsReached (λ b h. reached_after x b h r) buf o.0))
    cut (x ∷ buf) (suc r) o lo le hi =
        let (early, late) =
          cut buf r o.1 (λ i e. lo (suc i) (ap suc e)) (omega arith) (λ k. hi (omega arith)) in
        ((first_early x buf r o.0 lo le, early), late)
