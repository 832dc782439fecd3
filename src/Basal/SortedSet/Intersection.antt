-- ===== src/Basal/SortedSet/Intersection.antt =====
-- SortedSet.Intersection, which builds a new set.
use card.Prelude.{
  ◌≡◌, refl, sym, ap, ◌∙◌, Bool, true, false, ◌&&◌, ◌||◌, List, [], ◌∷◌, arith, inl, inr,
}
use card.Prelude.Int.{ℤ, eq_ℤ, eq_of_eq_ℤ}
use card.Basal.SortedList.Defs.{SortedList, new_sorted_list}
use card.Basal.SortedSet.Defs.{set_add, add_common, intersection, new_sorted_set}
use card.Basal.SortedSet.Keys.{has}
use card.Basal.SortedSet.Algebra.{
  has_key, IsKeyedSet, IsSetOf, holding, regain, itself, set_add-IsSetOf, search_by_key-has,
  or_false,
}

gather : (e b c d : Bool) → (e ≡ true → d ≡ true) → (e || b) || (c && d) ≡ b || ((e || c) && d)
gather true b c d h = rw (h refl) (ground arith)
gather false b c d h = refl

skip : (e b c d : Bool) → (e ≡ true → d ≡ false) → b || (c && d) ≡ b || ((e || c) && d)
skip true b c d h = rw (h refl) (ground arith)
skip false b c d h = refl

module _ {ℓ} {T : Type ℓ} (b : SortedList T) where
  same_answer :
      (key : T → ℤ) (v : T) (k : ℤ) (answer : Bool)
      → has_key b (key v) ≡ answer
      → eq_ℤ (key v) k ≡ true
      → has_key b k ≡ answer
  same_answer key v k answer h e = ap (has_key b) (sym (eq_of_eq_ℤ (key v) k e)) ∙ h

  add_common-IsSetOf :
      (c : SortedList T) (values : List T)
      → IsKeyedSet c
      → IsSetOf c
          (λ k. has_key c k || (has c.get_key k values && has_key b k))
          (add_common c.get_key b c values)
  unfolding add_common
  add_common-IsSetOf c [] h =
      regain c c c.buf (has_key c) (λ k. has_key c k || false) (itself c h)
        (λ k. or_false (has_key c k))
  add_common-IsSetOf c (v ∷ values) h = elim (search_by_key-has b (c.get_key v)) [
    | inl (absent, no_key) ↦ rw absent (
        regain c (add_common c.get_key b c values) c.buf
          (λ k. has_key c k || (has c.get_key k values && has_key b k))
          (λ k. has_key c k || ((eq_ℤ (c.get_key v) k || has c.get_key k values) && has_key b k))
          (add_common-IsSetOf c values h)
          (λ k.
            skip (eq_ℤ (c.get_key v) k) (has_key c k) (has c.get_key k values) (has_key b k)
              (same_answer c.get_key v k false no_key)))
    | inr (i, found, key) ↦
        let r : IsSetOf c (λ k. eq_ℤ (c.get_key v) k || has_key c k) (set_add c v).0 =
          (set_add-IsSetOf c v h).0 in
        rw (found, r.settings)
          (regain c (add_common c.get_key b (holding c r.items) values) r.items
            (λ k. has c.get_key k r.items || (has c.get_key k values && has_key b k))
            (λ k. has_key c k || ((eq_ℤ (c.get_key v) k || has c.get_key k values) && has_key b k))
            (add_common-IsSetOf (holding c r.items) values r.is_set)
            (λ k.
              ap (λ (x : Bool). x || (has c.get_key k values && has_key b k)) (r.keys_of k)
              ∙ gather (eq_ℤ (c.get_key v) k) (has_key c k) (has c.get_key k values) (has_key b k)
                  (same_answer c.get_key v k true key)))
  ]

  -- `Intersection` of any two lists is a set that holds the keys that both have.
  pub intersection-IsSetOf :
      (my : SortedList T)
      → IsSetOf
          (new_sorted_set my.reverse my.get_score my.get_key)
          (λ k. has my.get_key k my.buf && has_key b k)
          (intersection my b)
  unfolding new_sorted_list
  intersection-IsSetOf my =
      add_common-IsSetOf (new_sorted_set my.reverse my.get_score my.get_key) my.buf
        (record { sorted = record { ordered = tt; apart = λ one. tt }; repeats = refl; keyed = tt })
