-- ===== src/Basal/SortedSet/Algebra.antt =====
-- SortedSet as a set of keys: what Add, Difference, Intersection and Union hold.
use card.Prelude.{
  ℕ, suc, ◌+◌, ◌≡◌, refl, sym, ap, ◌∙◌, ◌⊎◌, Bool, true, false, not, ◌&&◌, ◌||◌, List, [], ◌∷◌,
  none, some, arith, Bool-cases, inl, inr,
}
use card.Prelude.Int.{ℤ, eq_ℤ, eq_ℤ-refl}
use card.Basal.SortedList.Defs.{
  SortedList, search_key_from, search_by_key, remove_at, add, remove_by_key,
}
use card.Basal.SortedList.Search.{bound}
use card.Basal.SortedList.Updates.{IsSorted, placed, IsAdded, add-IsAdded, add-IsSorted}
use card.Basal.SortedList.History.{remove_by_key-IsSorted}
use card.Basal.SortedSet.Defs.{set_add, remove_keys_of, add_each, difference, union}
use card.Basal.SortedSet.Keys.{
  has, remove_first, IsKeyed, has-remove_first, remove_first-IsKeyed, has-insert, insert-IsKeyed,
}

at_zero : (i : ℕ) → 0 + i ≡ i
at_zero i = omega arith

with_own : (e b : Bool) → e || (b && not e) ≡ e || b
with_own e b = ground arith

and_false : (b : Bool) → b && false ≡ false
and_false b = ground arith

pub or_false : (b : Bool) → b ≡ b || false
or_false b = ground arith

and_true : (b : Bool) → b ≡ b && true
and_true b = ground arith

pub or_turn : (e b c : Bool) → (e || b) || c ≡ b || (e || c)
or_turn e b c = ground arith

and_turn : (b e c : Bool) → (b && not e) && not c ≡ b && not (e || c)
and_turn b e c = ground arith

module _ {ℓ} {T : Type ℓ} where
  abbrev pub has_key : SortedList T → ℤ → Bool
  has_key my k = has my.get_key k my.buf

  -- A sorted list that lets scores repeat and holds no key twice.
  pub record IsKeyedSet (my : SortedList T) : Type ℓ where
    pub sorted : IsSorted my
    pub repeats : my.score_repeat ≡ true
    pub keyed : IsKeyed my.get_key my.buf

  module _ (my : SortedList T) (k : ℤ) where
    search-cases :
        (n : ℕ) (xs : List T)
        → ((search_key_from my k n xs ≡ none)
            × (has my.get_key k xs ≡ false)
            × (remove_first my.get_key k xs ≡ xs))
          ⊎ ((i : ℕ) × (search_key_from my k n xs ≡ some (n + i))
              × (has my.get_key k xs ≡ true)
              × (remove_at i xs ≡ remove_first my.get_key k xs))
    unfolding search_key_from
    search-cases n [] = inl (refl, refl, refl)
    search-cases n (x ∷ xs) = elim (Bool-cases (eq_ℤ (my.get_key x) k)) [
      | inl e ↦
          let z : n + 0 ≡ n = omega arith in inr (0, rw e (ap some (sym z)), rw e refl, rw e refl)
      | inr e ↦ elim (search-cases (n + 1) xs) [
        | inl (f, g, h) ↦ inl (rw e f, rw e g, rw e (ap (λ l. x ∷ l) h))
        | inr (i, f, g, h) ↦
            let z : n + 1 + i ≡ n + suc i = omega arith in
            let w : suc i + 1 ≡ suc (i + 1) = omega arith in
            inr (suc i, rw e (f ∙ ap some z), rw e g, rw (e, w) (ap (λ l. x ∷ l) h))
      ]
    ]

    pub search_by_key-has :
        (search_by_key my k ≡ none) × (has_key my k ≡ false)
        ⊎ (i : ℕ) × (search_by_key my k ≡ some i) × (has_key my k ≡ true)
    unfolding search_by_key
    search_by_key-has = elim (search-cases 0 my.buf) [
      | inl (f, g, h) ↦ inl (f, g)
      | inr (i, f, g, h) ↦ inr (0 + i, f, g)
    ]

    with_buf : List T → SortedList T
    with_buf xs = record my { buf = xs }

    remove_by_key_lem :
        (remove_by_key my k).0 ≡ record my { buf = remove_first my.get_key k my.buf }
    unfolding remove_by_key search_by_key with_buf
    remove_by_key_lem = elim (search-cases 0 my.buf) [
      | inl (f, g, h) ↦ rw (f, remove_by_key, search_by_key) (ap with_buf (sym h))
      | inr (i, f, g, h) ↦
          let f' : search_key_from my k 0 my.buf ≡ some i = rw (at_zero i) at f in
          rw (f', remove_by_key, search_by_key) (ap with_buf h)
    ]

  -- A list with another buffer.
  abbrev pub holding : SortedList T → List T → SortedList T
  holding my xs = record my { buf = xs }

  -- What an operation on a set returns: a set with the settings of `my` whose keys are `keys`.
  pub record IsSetOf (my : SortedList T) (keys : ℤ → Bool) (c : SortedList T) : Type ℓ where
    pub items : List T
    pub settings : c ≡ holding my items
    pub is_set : IsKeyedSet (holding my items)
    pub keys_of : (k : ℤ) → has my.get_key k items ≡ keys k

  remove_by_key-IsSetOf :
      (my : SortedList T) (j : ℤ)
      → IsKeyedSet my
      → IsSetOf my (λ k. has_key my k && not (eq_ℤ j k)) (remove_by_key my j).0
  remove_by_key-IsSetOf my j h = record {
    items = remove_first my.get_key j my.buf;
    settings = remove_by_key_lem my j;
    is_set = record {
      sorted = rw (remove_by_key_lem my j) at (remove_by_key-IsSorted my j h.sorted);
      repeats = h.repeats;
      keyed = remove_first-IsKeyed my.get_key j my.buf h.keyed;
    };
    keys_of = λ k. has-remove_first my.get_key j k my.buf h.keyed;
  }

  -- `Add` of a list without the key of the item.
  add-IsSetOf :
      (my : SortedList T) (v : T)
      → IsKeyedSet my
      → has_key my (my.get_key v) ≡ false
      → IsSetOf my (λ k. eq_ℤ (my.get_key v) k || has_key my k) (add my v).0 × ((add my v).1 ≡ true)
  add-IsSetOf my v h new =
      let r : IsAdded my v (add my v) = add-IsAdded my v h.sorted.ordered in
      elim (Bool-cases (add my v).1) [
        | inl yes_added ↦
            let (e, _) = r.accepted yes_added in
            (
              record {
                items = placed my v;
                settings = e;
                is_set = record {
                  sorted = rw e at (add-IsSorted my v h.sorted);
                  repeats = h.repeats;
                  keyed =
                      insert-IsKeyed my.get_key (bound my (my.get_score v)) v my.buf h.keyed new;
                };
                keys_of = λ k. has-insert my.get_key (bound my (my.get_score v)) v k my.buf;
              },
              yes_added,
            )
        | inr not_added ↦
            let e : my.score_repeat ≡ false = (r.refused not_added).1 in
            let e' : my.score_repeat ≡ true = h.repeats in cc
      ]

  -- `Add` of a set answers true, keeps it a set and gives it the key of the item beside its own.
  pub set_add-IsSetOf :
      (my : SortedList T) (v : T)
      → IsKeyedSet my
      → IsSetOf my (λ k. eq_ℤ (my.get_key v) k || has_key my k) (set_add my v).0
        × ((set_add my v).1 ≡ true)
  unfolding set_add
  set_add-IsSetOf my v h =
      let r : IsSetOf my (λ k. has_key my k && not (eq_ℤ (my.get_key v) k))
          (remove_by_key my (my.get_key v)).0 =
        remove_by_key-IsSetOf my (my.get_key v) h in
      let new : has my.get_key (my.get_key v) r.items ≡ false =
        r.keys_of (my.get_key v)
        ∙ rw (eq_ℤ-refl (my.get_key v)) (and_false (has_key my (my.get_key v))) in
      let (a, answer) = add-IsSetOf (holding my r.items) v r.is_set new in
      rw r.settings (
        record {
          items = a.items;
          settings = a.settings;
          is_set = a.is_set;
          keys_of = λ k.
              a.keys_of k
              ∙ ap (λ b. eq_ℤ (my.get_key v) k || b) (r.keys_of k)
              ∙ with_own (eq_ℤ (my.get_key v) k) (has_key my k);
        },
        answer,
      )

  pub regain :
      (my c : SortedList T) (xs : List T) (keys keys' : ℤ → Bool)
      → IsSetOf (holding my xs) keys c
      → ((k : ℤ) → keys k ≡ keys' k)
      → IsSetOf my keys' c
  regain my c xs keys keys' r e = record {
    items = r.items;
    settings = r.settings;
    is_set = r.is_set;
    keys_of = λ k. r.keys_of k ∙ e k;
  }

  pub itself : (my : SortedList T) → IsKeyedSet my → IsSetOf my (has_key my) my
  itself my h = record { items = my.buf; settings = refl; is_set = h; keys_of = λ k. refl }

  add_each-IsSetOf :
      (my : SortedList T) (values : List T)
      → IsKeyedSet my
      → IsSetOf my (λ k. has_key my k || has my.get_key k values) (add_each my values)
  unfolding add_each
  add_each-IsSetOf my [] h =
      regain my my my.buf (has_key my) (λ k. has_key my k || false) (itself my h)
        (λ k. or_false (has_key my k))
  add_each-IsSetOf my (v ∷ values) h =
      let r : IsSetOf my (λ k. eq_ℤ (my.get_key v) k || has_key my k) (set_add my v).0 =
        (set_add-IsSetOf my v h).0 in
      rw r.settings (
        regain my (add_each (holding my r.items) values) r.items
          (λ k. has my.get_key k r.items || has my.get_key k values)
          (λ k. has_key my k || (eq_ℤ (my.get_key v) k || has my.get_key k values))
          (add_each-IsSetOf (holding my r.items) values r.is_set)
          (λ k.
            ap (λ b. b || has my.get_key k values) (r.keys_of k)
            ∙ or_turn (eq_ℤ (my.get_key v) k) (has_key my k) (has my.get_key k values)))

  remove_keys_of-IsSetOf :
      (my : SortedList T) (values : List T)
      → IsKeyedSet my
      → IsSetOf my
          (λ k. has_key my k && not (has my.get_key k values))
          (remove_keys_of my.get_key my values)
  unfolding remove_keys_of
  remove_keys_of-IsSetOf my [] h =
      regain my my my.buf (has_key my) (λ k. has_key my k && true) (itself my h)
        (λ k. and_true (has_key my k))
  remove_keys_of-IsSetOf my (v ∷ values) h =
      let r : IsSetOf my (λ k. has_key my k && not (eq_ℤ (my.get_key v) k))
          (remove_by_key my (my.get_key v)).0 =
        remove_by_key-IsSetOf my (my.get_key v) h in
      rw r.settings (
        regain my (remove_keys_of my.get_key (holding my r.items) values) r.items
          (λ k. has my.get_key k r.items && not (has my.get_key k values))
          (λ k. has_key my k && not (eq_ℤ (my.get_key v) k || has my.get_key k values))
          (remove_keys_of-IsSetOf (holding my r.items) values r.is_set)
          (λ k.
            ap (λ b. b && not (has my.get_key k values)) (r.keys_of k)
            ∙ and_turn (has_key my k) (eq_ℤ (my.get_key v) k) (has my.get_key k values)))

  -- `Union` of a set with any list is a set that holds the keys of both.
  pub union-IsSetOf :
      (my b : SortedList T)
      → IsKeyedSet my
      → IsSetOf my (λ k. has_key my k || has my.get_key k b.buf) (union my b)
  union-IsSetOf my b h = add_each-IsSetOf my b.buf h

  -- `Difference` of a set and any list is a set that holds the keys of the set that the list has not.
  pub difference-IsSetOf :
      (my b : SortedList T)
      → IsKeyedSet my
      → IsSetOf my (λ k. has_key my k && not (has my.get_key k b.buf)) (difference my b)
  difference-IsSetOf my b h = remove_keys_of-IsSetOf my b.buf h
