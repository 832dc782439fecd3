-- ===== src/Net/Manager/Kept.antt =====
-- What holds of the tables as long as only moves are made: each connection that was made is in the
-- table or being stopped, and never both.
use card.Prelude.{
  ℕ, ◌+◌, ◌<◌, ◌≡◌, refl, ap, sym, ◌∙◌, ◌≢◌, inl, inr, if_pos, if_neg, true, false, [], ◌∷◌, none,
  some, arith, if◌then◌else◌, ℕ_discrete, Option-cases, Bool-cases,
}
use card.Prelude.Int.{ℤ}
use card.Prelude.Text.{Str}
use card.Prelude.Map.{
  Map, lookup, insert, delete, lookup-insert, lookup-delete, IsMap, insert-IsMap, delete-IsMap,
  delete_absent,
}
use card.Net.Model.{is_accept, Msgque}
use card.Net.Manager.Defs.{NetMgr, sess_at, svr_at}
use card.Net.Manager.Moves.{Same, Takes, Adds, Again, Moves, done, stays, takes, again, adds, has}

module _ {M : Type 0} where
  abbrev one : Msgque M → ℕ
  one mq = if is_accept mq.conn_typ then 1 else 0

  -- The connections of a table that came in through the listener.
  abbrev pub count_accepted : (ℕ → Msgque M) → Map ℕ ℕ → ℕ
  count_accepted heap [] = 0
  count_accepted heap ((id, p) ∷ rest) =
      (if is_accept (heap p).conn_typ then 1 else 0) + count_accepted heap rest

  count-heap :
      (heap heap' : ℕ → Msgque M) (l : Map ℕ ℕ)
      → IsMap ℕ_discrete l
      → ((id p : ℕ) → lookup ℕ_discrete id l ≡ some p → (heap' p).conn_typ ≡ (heap p).conn_typ)
      → count_accepted heap' l ≡ count_accepted heap l
  unfolding lookup
  count-heap heap heap' [] u h = refl
  count-heap heap heap' ((id, p) ∷ rest) u h =
      let head : (heap' p).conn_typ ≡ (heap p).conn_typ = h id p (ground arith) in
      rw (head, count-heap heap heap' rest u.1 (λ i q e. ground (arith, h i q)))

  count-delete :
      (heap : ℕ → Msgque M) (id p : ℕ) (l : Map ℕ ℕ)
      → IsMap ℕ_discrete l
      → lookup ℕ_discrete id l ≡ some p
      → count_accepted heap (delete ℕ_discrete id l) + one (heap p) ≡ count_accepted heap l
  unfolding lookup delete
  count-delete heap id p [] u e = cc
  count-delete heap id p ((j, q) ∷ rest) u e = elim (ℕ_discrete j id) [
    | yes same ↦
        let gone : lookup ℕ_discrete id rest ≡ none = ground arith in
        let own : q ≡ p = ground arith in
        rw (if_pos _ same, delete_absent ℕ_discrete id rest gone, own) (omega arith)
    | no other ↦
        let e' : lookup ℕ_discrete id rest ≡ some p = ground arith in
        rw (if_neg _ other) (omega (arith, count-delete heap id p rest u.1 e'))
  ]

  count-insert :
      (heap : ℕ → Msgque M) (id p : ℕ) (l : Map ℕ ℕ)
      → lookup ℕ_discrete id l ≡ none
      → count_accepted heap (insert ℕ_discrete id p l) ≡ count_accepted heap l + one (heap p)
  unfolding lookup insert
  count-insert heap id p [] e = omega arith
  count-insert heap id p ((j, q) ∷ rest) e = elim (ℕ_discrete j id) [
    | yes same ↦ absurd (ground arith)
    | no other ↦
        let e' : lookup ℕ_discrete id rest ≡ none = ground arith in
        rw (if_neg _ other) (omega (arith, count-insert heap id p rest e'))
  ]

-- The tables are consistent with the connections that were made.
pub record IsKept {M : Type 0} (gen : ℕ → ℕ) (m : NetMgr M) : Type 0 where
  pub numbered : (p : ℕ) → p < m.next → (m.heap p).sess_id ≡ gen p
  pub named : (id p : ℕ) → sess_at m id ≡ some p → (p < m.next) × ((m.heap p).sess_id ≡ id)
  pub kept : (p : ℕ) → p < m.next → has p m.stops ≡ false → sess_at m (m.heap p).sess_id ≡ some p
  pub apart : (id p : ℕ) → sess_at m id ≡ some p → has p m.stops ≡ false
  pub old : (p : ℕ) → has p m.stops ≡ true → p < m.next
  pub routed : (t : Str) (i : ℤ) (p : ℕ) → svr_at m t i ≡ some p → p < m.next
  pub waiting : (id : ℕ) → lookup ℕ_discrete id m.login_pending ≢ none → sess_at m id ≢ none
  pub single : IsMap ℕ_discrete m.sess_map
  pub counted : m.accept_sess_num ≡ count_accepted m.heap m.sess_map

module _ {M : Type 0} (gen : ℕ → ℕ) (m m' : NetMgr M) (v : IsKept gen m) where
  Same-IsKept : Same m m' → IsKept gen m'
  Same-IsKept s = record {
    numbered = λ p h. s.same_ids.ids p ∙ v.numbered p (rw s.same_ids.next at h);
    named = λ id p e.
        let k = v.named id p (rw s.table at e) in ground (arith, s.same_ids.next, s.same_ids.ids p);
    kept = λ p h e.
        rw (s.same_ids.ids p, s.table) (v.kept p (rw s.same_ids.next at h) (rw s.stops at e));
    apart = λ id p e. rw s.stops (v.apart id p (rw s.table at e));
    old = λ p e. rw s.same_ids.next (v.old p (rw s.stops at e));
    routed = λ t i p e. ground (arith, s.same_ids.routes t i p e, v.routed t i p, s.same_ids.next);
    waiting = λ id e. rw s.table (v.waiting id (s.pending id e));
    single = rw s.table v.single;
    counted =
        s.num
        ∙ v.counted
        ∙ sym (
            ap (count_accepted m'.heap) s.table
            ∙ count-heap m.heap m'.heap m.sess_map v.single (λ id p e. s.same_ids.types p));
  }

  Takes-IsKept : (id p : ℕ) → Takes m m' id p → IsKept gen m'
  Takes-IsKept id p t = record {
    numbered = λ q h. t.same_ids.ids q ∙ v.numbered q (rw t.same_ids.next at h);
    named = λ i q e. ground (
      arith,
      v.named i q,
      t.same_ids.ids q,
      t.same_ids.next,
      t.table,
      lookup-delete ℕ_discrete id i m.sess_map,
    );
    kept = λ q h e. ground (
      arith,
      v.kept q,
      t.same_ids.ids q,
      t.same_ids.next,
      t.table,
      t.stops,
      t.found,
      lookup-delete ℕ_discrete id (m.heap q).sess_id m.sess_map,
    );
    apart = λ i q e. ground (
      arith,
      v.apart i q,
      v.named i q,
      v.named id p t.found,
      t.table,
      t.stops,
      lookup-delete ℕ_discrete id i m.sess_map,
    );
    old = λ q e. ground (arith, v.old q, v.named id p t.found, t.stops, t.same_ids.next);
    routed =
        λ t' i q e. ground (arith, t.same_ids.routes t' i q e, v.routed t' i q, t.same_ids.next);
    waiting = λ i e.
        ground (arith, v.waiting i, t.pending i, t.table, lookup-delete ℕ_discrete id i m.sess_map);
    single = rw t.table (delete-IsMap ℕ_discrete id m.sess_map v.single);
    counted =
        let moved : count_accepted m'.heap m'.sess_map
            ≡ count_accepted m.heap (delete ℕ_discrete id m.sess_map) =
          ap (count_accepted m'.heap) t.table
          ∙ count-heap m.heap m'.heap (delete ℕ_discrete id m.sess_map)
              (delete-IsMap ℕ_discrete id m.sess_map v.single) (λ i q e. t.same_ids.types q) in
        let less : count_accepted m.heap (delete ℕ_discrete id m.sess_map) + one (m.heap p)
            ≡ count_accepted m.heap m.sess_map =
          count-delete m.heap id p m.sess_map v.single t.found in
        ground (arith, t.num, v.counted);
  }

  Again-IsKept : (p : ℕ) → Again m m' p → IsKept gen m'
  Again-IsKept p s = record {
    numbered = λ q h. s.same_ids.ids q ∙ v.numbered q (rw s.same_ids.next at h);
    named = λ id q e.
        let k = v.named id q (rw s.table at e) in ground (arith, s.same_ids.next, s.same_ids.ids q);
    kept = λ q h e. ground (arith, v.kept q, s.same_ids.ids q, s.same_ids.next, s.table, s.stops);
    apart = λ id q e. ground (arith, v.apart id q, s.table, s.stops, s.started);
    old = λ q e. ground (arith, v.old q, v.old p s.started, s.stops, s.same_ids.next);
    routed = λ t i q e. ground (arith, s.same_ids.routes t i q e, v.routed t i q, s.same_ids.next);
    waiting = λ id e. ground (arith, v.waiting id, s.table, s.pending);
    single = rw s.table v.single;
    counted =
        s.num
        ∙ v.counted
        ∙ sym (
            ap (count_accepted m'.heap) s.table
            ∙ count-heap m.heap m'.heap m.sess_map v.single (λ id q e. s.same_ids.types q));
  }

  -- The identifier of a new connection is not in the table.
  gen-absent : ((i j : ℕ) → gen i ≡ gen j → i ≡ j) → sess_at m (gen m.next) ≡ none
  gen-absent unique = elim (Option-cases (sess_at m (gen m.next))) [
    | inl e ↦ e
    | inr (p, e) ↦ absurd (ground (arith, v.named (gen m.next) p e, v.numbered p, unique p m.next))
  ]

  Adds-IsKept : ((i j : ℕ) → gen i ≡ gen j → i ≡ j) → Adds gen m m' → IsKept gen m'
  Adds-IsKept unique a = record {
    numbered = λ q h. ground (arith, a.ids q, a.next, a.numbered, v.numbered q);
    named = λ i q e. ground (
      arith,
      v.named i q,
      a.ids q,
      a.next,
      a.numbered,
      a.table,
      lookup-insert ℕ_discrete (gen m.next) i m.next m.sess_map,
    );
    kept = λ q h e. ground (
      arith,
      v.kept q,
      a.ids q,
      a.next,
      a.numbered,
      a.table,
      a.stops,
      v.numbered q,
      unique m.next q,
      lookup-insert ℕ_discrete (gen m.next) (m'.heap q).sess_id m.next m.sess_map,
    );
    apart = λ i q e. ground (
      arith,
      Bool-cases (has q m.stops),
      v.old q,
      v.apart i q,
      a.table,
      a.stops,
      lookup-insert ℕ_discrete (gen m.next) i m.next m.sess_map,
    );
    old = λ q e. ground (arith, v.old q, a.stops, a.next);
    routed = λ t i q e. ground (arith, v.routed t i q, a.agents, a.next);
    waiting = λ i e. ground (
      arith,
      v.waiting i,
      a.pending i,
      a.table,
      lookup-insert ℕ_discrete (gen m.next) i m.next m.sess_map,
    );
    single = rw a.table (insert-IsMap ℕ_discrete (gen m.next) m.next m.sess_map v.single);
    counted =
        let moved : count_accepted m'.heap m'.sess_map
            ≡ count_accepted m'.heap m.sess_map + one (m'.heap m.next) =
          ap (count_accepted m'.heap) a.table
          ∙ count-insert m'.heap (gen m.next) m.next m.sess_map (gen-absent unique) in
        let same : count_accepted m'.heap m.sess_map ≡ count_accepted m.heap m.sess_map =
          count-heap m.heap m'.heap m.sess_map v.single
            (λ i q e. let k = v.named i q e in a.types q (λ f. absurd (omega (arith, f)))) in
        ground (arith, a.num, v.counted);
  }

pub Moves-IsKept :
    {M : Type 0} {gen : ℕ → ℕ} {m m' : NetMgr M}
    → ((i j : ℕ) → gen i ≡ gen j → i ≡ j)
    → Moves gen m m'
    → IsKept gen m
    → IsKept gen m'
Moves-IsKept unique done v = v
Moves-IsKept unique (stays s h) v = Moves-IsKept unique h (Same-IsKept _ _ _ v s)
Moves-IsKept unique (takes id p t h) v = Moves-IsKept unique h (Takes-IsKept _ _ _ v id p t)
Moves-IsKept unique (again p a h) v = Moves-IsKept unique h (Again-IsKept _ _ _ v p a)
Moves-IsKept unique (adds a h) v = Moves-IsKept unique h (Adds-IsKept _ _ _ v unique a)
