-- ===== src/Basal/SortedSet/Keys.antt =====
-- The keys of a SortedSet: what adding and removing do to them, and that none stands twice.
use card.Prelude.{
  ℕ, zero, suc, ◌≡◌, refl, sym, ap, subst, ◌∙◌, Bool, true, false, not, ◌&&◌, ◌||◌, List, [], ◌∷◌,
  ◌++◌, arith, if◌then◌else◌, take, drop, Bool-cases, inl, inr,
}
use card.Prelude.Int.{ℤ, eq_ℤ, eq_of_eq_ℤ}

and_true : (b : Bool) → b ≡ b && true
and_true true = refl
and_true false = refl

or_assoc : (b d e : Bool) → b || (d || e) ≡ (b || d) || e
or_assoc true d e = refl
or_assoc false d e = refl

or_swap : (a b c : Bool) → a || (b || c) ≡ b || (a || c)
or_swap a b c = ground arith

or_right : (a b : Bool) → a || b ≡ false → b ≡ false
or_right a b h = ground arith

or_left : (a b : Bool) → a || b ≡ false → a ≡ false
or_left a b h = ground arith

apart_sym : (k l : ℤ) → eq_ℤ l k ≡ false → eq_ℤ k l ≡ false
apart_sym k l h = ground arith

module _ {ℓ} {T : Type ℓ} (key : T → ℤ) where
  -- Whether an item of a list has the key `k`.
  abbrev pub has : ℤ → List T → Bool
  has k [] = false
  has k (x ∷ xs) = eq_ℤ (key x) k || has k xs

  abbrev pub remove_first : ℤ → List T → List T
  remove_first k [] = []
  remove_first k (x ∷ xs) = if eq_ℤ (key x) k then xs else x ∷ remove_first k xs

  gone :
      (x : T) (l : ℤ) (xs : List T)
      → has (key x) xs ≡ false
      → has l xs ≡ (eq_ℤ (key x) l || has l xs) && not (eq_ℤ (key x) l)
  gone x l xs h = elim (Bool-cases (eq_ℤ (key x) l)) [
    | inl e ↦ rw e (subst (λ m. has m xs ≡ false) (eq_of_eq_ℤ (key x) l e) h)
    | inr e ↦ rw e (and_true (has l xs))
  ]

  -- No key stands twice.
  abbrev pub IsKeyed : List T → Type 0
  IsKeyed [] = Unit
  IsKeyed (x ∷ xs) = (has (key x) xs ≡ false) × IsKeyed xs

  pub has-append : (k : ℤ) (xs ys : List T) → has k (xs ++ ys) ≡ has k xs || has k ys
  has-append k [] ys = refl
  has-append k (x ∷ xs) ys =
      ap (λ b. eq_ℤ (key x) k || b) (has-append k xs ys)
      ∙ or_assoc (eq_ℤ (key x) k) (has k xs) (has k ys)

  pub has-remove_first :
      (k l : ℤ) (xs : List T) → IsKeyed xs → has l (remove_first k xs) ≡ has l xs && not (eq_ℤ k l)
  has-remove_first k l [] h = refl
  has-remove_first k l (x ∷ xs) h = elim (Bool-cases (eq_ℤ (key x) k)) [
    | inl e ↦
        let p : key x ≡ k = eq_of_eq_ℤ (key x) k e in
        rw e (
          subst (λ m. has l xs ≡ (eq_ℤ (key x) l || has l xs) && not (eq_ℤ m l)) p
            (gone x l xs h.0))
    | inr e ↦ rw e (elim (Bool-cases (eq_ℤ (key x) l)) [
      | inl f ↦
          let p : key x ≡ l = eq_of_eq_ℤ (key x) l f in
          rw f (subst (λ m. true ≡ not (eq_ℤ k m)) p (sym (ap not (apart_sym k (key x) e))))
      | inr f ↦ rw f (has-remove_first k l xs h.1)
    ])
  ]

  pub remove_first-IsKeyed : (k : ℤ) (xs : List T) → IsKeyed xs → IsKeyed (remove_first k xs)
  remove_first-IsKeyed k [] h = tt
  remove_first-IsKeyed k (x ∷ xs) h = elim (Bool-cases (eq_ℤ (key x) k)) [
    | inl e ↦ rw e h.1
    | inr e ↦ rw e (
      has-remove_first k (key x) xs h.1 ∙ ap (λ b. b && not (eq_ℤ k (key x))) h.0,
      remove_first-IsKeyed k xs h.1,
    )
  ]

  pub has-insert :
      (i : ℕ) (v : T) (k : ℤ) (xs : List T)
      → has k (take i xs ++ v ∷ drop i xs) ≡ eq_ℤ (key v) k || has k xs
  has-insert zero v k xs = refl
  has-insert (suc i) v k [] = refl
  has-insert (suc i) v k (x ∷ xs) =
      ap (λ b. eq_ℤ (key x) k || b) (has-insert i v k xs)
      ∙ or_swap (eq_ℤ (key x) k) (eq_ℤ (key v) k) (has k xs)

  pub insert-IsKeyed :
      (i : ℕ) (v : T) (xs : List T)
      → IsKeyed xs
      → has (key v) xs ≡ false
      → IsKeyed (take i xs ++ v ∷ drop i xs)
  insert-IsKeyed zero v xs h new = (new, h)
  insert-IsKeyed (suc i) v [] h new = (new, h)
  insert-IsKeyed (suc i) v (x ∷ xs) h new = (
    has-insert i v (key x) xs
        ∙ rw (apart_sym (key v) (key x) (or_left (eq_ℤ (key x) (key v)) (has (key v) xs) new), h.0)
            refl,
    insert-IsKeyed i v xs h.1 (or_right (eq_ℤ (key x) (key v)) (has (key v) xs) new),
  )
