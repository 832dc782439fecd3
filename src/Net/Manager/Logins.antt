-- ===== src/Net/Manager/Logins.antt =====
-- handleLoginTimeout: who is stopped, and who may go on waiting.
use card.Prelude.{
  ℕ, ◌-◌, ◌≤◌, ◌<◌, ◌≡◌, refl, ap, sym, subst, ◌∙◌, ◌≢◌, ◌⊎◌, inl, inr, true, false, [], ◌∷◌,
  Option, none, some, arith, leb, leb→le, ℕ_discrete, Option-cases, Bool-cases,
}
use card.Prelude.Map.{Map, lookup, lookup-delete}
use card.Net.Model.{Msgque, needs_login}
use card.Net.Manager.Defs.{
  NetMgr, sess_at, delete_sess, delete_found, clear_login_pending, start_stop, check_login,
  check_logins, handle_login_timeout, timeout_millis,
}
use card.Net.Manager.Moves.{has}

lookup-cons_ne :
    (j id : ℕ) (l : Map ℕ (Unit {0}))
    → j ≢ id
    → lookup ℕ_discrete id ((j, tt) ∷ l) ≡ lookup ℕ_discrete id l
unfolding lookup
lookup-cons_ne j id l ne = ground arith

nothing_listed : (id : ℕ) → lookup {V = Unit {0}} ℕ_discrete id [] ≡ none
unfolding lookup
nothing_listed id = refl

lookup-cons :
    (j id : ℕ) (l : Map ℕ (Unit {0}))
    → (j ≡ id) ⊎ (lookup ℕ_discrete id l ≢ none)
    → lookup ℕ_discrete id ((j, tt) ∷ l) ≢ none
unfolding lookup
lookup-cons j id l h = ground arith

module _ {M : Type 0} where
  abbrev pub pending_at : NetMgr M → ℕ → Option (Unit {0})
  pending_at m id = lookup ℕ_discrete id m.login_pending

module _ {M : Type 0} (time_mill : ℕ → ℕ) (now : ℕ) where
  -- A connection that may go on waiting for its login.
  pub record MayWait (m : NetMgr M) (id : ℕ) : Type 0 where
    pub waiting : ℕ
    pub found : sess_at m id ≡ some waiting
    pub unnamed : needs_login (m.heap waiting) ≡ true
    pub in_time : now - time_mill id ≤ timeout_millis

  -- One round, at its own identifier and at another.
  record Round (m m' : NetMgr M) (id : ℕ) : Type 0 where
    heap : m'.heap ≡ m.heap
    settled : pending_at m' id ≢ none → MayWait m' id
    others : (i : ℕ) → id ≢ i → (sess_at m' i ≡ sess_at m i) × (pending_at m' i ≡ pending_at m i)
    stops : (p : ℕ) → has p m.stops ≡ true → has p m'.stops ≡ true
    gone : (i : ℕ) → sess_at m i ≡ none → sess_at m' i ≡ none
    own :
        (p : ℕ)
        → sess_at m id ≡ some p
        → ((sess_at m' id ≡ some p)
            × ((needs_login (m.heap p) ≡ false) ⊎ (now - time_mill id ≤ timeout_millis)))
          ⊎ ((needs_login (m.heap p) ≡ true)
              × (timeout_millis < now - time_mill id)
              × (sess_at m' id ≡ none)
              × (has p m'.stops ≡ true))

  clear-Round :
      (m : NetMgr M) (id : ℕ)
      → ((p : ℕ) → sess_at m id ≡ some p → needs_login (m.heap p) ≡ false)
      → Round m (clear_login_pending m id) id
  unfolding clear_login_pending
  clear-Round m id free = record {
    heap = refl;
    settled = λ h. absurd (ground (arith, lookup-delete ℕ_discrete id id m.login_pending));
    others = λ i ne. (refl, ground (arith, lookup-delete ℕ_discrete id i m.login_pending));
    stops = λ p h. h;
    gone = λ i h. h;
    own = λ p e. inl (e, inl (free p e));
  }

  stop-Round :
      (m : NetMgr M) (id p : ℕ)
      → sess_at m id ≡ some p
      → needs_login (m.heap p) ≡ true
      → timeout_millis < now - time_mill id
      → Round m (start_stop (delete_found m id p) p) id
  unfolding delete_found clear_login_pending
  stop-Round m id p e need late = record {
    heap = refl;
    settled = λ h. absurd (ground (arith, lookup-delete ℕ_discrete id id m.login_pending));
    others = λ i ne. (
      ground (arith, lookup-delete ℕ_discrete id i m.sess_map),
      ground (arith, lookup-delete ℕ_discrete id i m.login_pending),
    );
    stops = λ q h. ground arith;
    gone = λ i h. ground (arith, lookup-delete ℕ_discrete id i m.sess_map);
    own = λ q k.
        let same : p ≡ q = ground arith in
        inr (
          ground arith,
          late,
          ground (arith, lookup-delete ℕ_discrete id id m.sess_map),
          ground arith,
        );
  }

  freed :
      (m : NetMgr M) (id p q : ℕ)
      → sess_at m id ≡ some p
      → sess_at m id ≡ some q
      → needs_login (m.heap p) ≡ false
      → needs_login (m.heap q) ≡ false
  freed m id p q e k b =
      let same : p ≡ q = ground arith in subst (λ i. needs_login (m.heap i) ≡ false) same b

  check_login-Round : (m : NetMgr M) (id : ℕ) → Round m (check_login time_mill now m id) id
  unfolding check_login delete_sess
  check_login-Round m id = elim (Option-cases (sess_at m id)) [
    | inl e ↦ rw (e, check_login) (clear-Round m id (λ p k. cc))
    | inr (p, e) ↦ elim (Bool-cases (needs_login (m.heap p))) [
      | inr b ↦ rw (e, check_login) (rw b (clear-Round m id (λ q k. freed m id p q e k b)))
      | inl b ↦ elim (Bool-cases (leb (now - time_mill id) timeout_millis)) [
        | inl c ↦
            rw (e, check_login)
              (rw b (
                rw c (record {
                  heap = refl;
                  settled =
                      λ h. record { waiting = p; found = e; unnamed = b; in_time = leb→le _ _ c };
                  others = λ i ne. (refl, refl);
                  stops = λ q h. h;
                  gone = λ i h. h;
                  own = λ q k. inl (k, inr (leb→le _ _ c));
                })))
        | inr c ↦
            rw (e, check_login)
              (rw b (rw c (rw (e, delete_sess) (stop-Round m id p e b (ground arith)))))
      ]
    ]
  ]

  -- What becomes of a session in the table: it stays, since it did not wait, had its login or was in
  -- time, or it waited for its login for too long, is out of the table and was stopped.
  abbrev pub Fate : NetMgr M → NetMgr M → Map ℕ (Unit {0}) → ℕ → ℕ → Type 0
  Fate m m' l id p =
      ((sess_at m' id ≡ some p)
        × ((lookup ℕ_discrete id l ≡ none)
            ⊎ (needs_login (m.heap p) ≡ false)
            ⊎ (now - time_mill id ≤ timeout_millis)))
      ⊎ ((lookup ℕ_discrete id l ≢ none)
          × (needs_login (m.heap p) ≡ true)
          × (timeout_millis < now - time_mill id)
          × (sess_at m' id ≡ none)
          × (has p m'.stops ≡ true))

  -- The loop over the identifiers `l`.
  record Loop (m m' : NetMgr M) (l : Map ℕ (Unit {0})) : Type 0 where
    heap : m'.heap ≡ m.heap
    stops : (p : ℕ) → has p m.stops ≡ true → has p m'.stops ≡ true
    gone : (i : ℕ) → sess_at m i ≡ none → sess_at m' i ≡ none
    settled :
        ((id : ℕ) → pending_at m id ≢ none → (lookup ℕ_discrete id l ≢ none) ⊎ MayWait m id)
        → (id : ℕ) → pending_at m' id ≢ none
        → MayWait m' id
    fates : (id p : ℕ) → sess_at m id ≡ some p → Fate m m' l id p

  MayWait-kept :
      (m m' : NetMgr M) (id : ℕ)
      → m'.heap ≡ m.heap
      → sess_at m' id ≡ sess_at m id
      → MayWait m id
      → MayWait m' id
  MayWait-kept m m' id h e w = record {
    waiting = w.waiting;
    found = e ∙ w.found;
    unnamed = ap (λ f. needs_login (f w.waiting)) h ∙ w.unnamed;
    in_time = w.in_time;
  }

  -- A fate in the rest of the loop, for a session that the round left alone.
  later-Fate :
      (m m1 m' : NetMgr M) (j : ℕ) (rest : Map ℕ (Unit {0})) (id p : ℕ)
      → m1.heap ≡ m.heap
      → j ≢ id
      → Fate m1 m' rest id p
      → Fate m m' ((j, tt) ∷ rest) id p
  later-Fate m m1 m' j rest id p h ne (inl (e, inl n)) =
      inl (e, inl (lookup-cons_ne j id rest ne ∙ n))
  later-Fate m m1 m' j rest id p h ne (inl (e, inr (inl b))) =
      inl (e, inr (inl (ap (λ (k : ℕ → Msgque M). needs_login (k p)) (sym h) ∙ b)))
  later-Fate m m1 m' j rest id p h ne (inl (e, inr (inr t))) = inl (e, inr (inr t))
  later-Fate m m1 m' j rest id p h ne (inr f) = inr (
    lookup-cons j id rest (inr f.0),
    ap (λ (k : ℕ → Msgque M). needs_login (k p)) (sym h) ∙ f.1,
    f.2,
    f.3,
    f.4,
  )

  nothing_left :
      (m : NetMgr M) (id : ℕ)
      → (lookup {V = Unit {0}} ℕ_discrete id [] ≢ none) ⊎ MayWait m id
      → MayWait m id
  unfolding lookup
  nothing_left m id (inl n) = absurd (n refl)
  nothing_left m id (inr w) = w

  module _ (m m1 m' : NetMgr M) (j : ℕ) (rest : Map ℕ (Unit {0})) (r : Round m m1 j)
      (k : Loop m1 m' rest) where
    other_left :
        (id : ℕ)
        → j ≢ id
        → (lookup ℕ_discrete id ((j, tt) ∷ rest) ≢ none) ⊎ MayWait m id
        → (lookup ℕ_discrete id rest ≢ none) ⊎ MayWait m1 id
    other_left id ne (inl n) = inl (λ z. n (lookup-cons_ne j id rest ne ∙ z))
    other_left id ne (inr w) = inr (MayWait-kept m m1 id r.heap (r.others id ne).0 w)

    -- After a round that left a session in the table for a reason, the rest leaves it for that reason.
    stayed-Fate :
        (p : ℕ)
        → (needs_login (m.heap p) ≡ false) ⊎ (now - time_mill j ≤ timeout_millis)
        → Fate m1 m' rest j p
        → Fate m m' ((j, tt) ∷ rest) j p
    stayed-Fate p why (inl (e, _)) = inl (e, inr why)
    stayed-Fate p why (inr f) = inr (
      lookup-cons j j rest (inl refl),
      ap (λ (k : ℕ → Msgque M). needs_login (k p)) (sym r.heap) ∙ f.1,
      f.2,
      f.3,
      f.4,
    )

    own-Fate : (p : ℕ) → sess_at m j ≡ some p → Fate m m' ((j, tt) ∷ rest) j p
    own-Fate p e = elim (r.own p e) [
      | inl (stays, why) ↦ stayed-Fate p why (k.fates j p stays)
      | inr f ↦ inr (lookup-cons j j rest (inl refl), f.0, f.1, k.gone j f.2, k.stops p f.3)
    ]

    cons-Loop : Loop m m' ((j, tt) ∷ rest)
    cons-Loop = record {
      heap = k.heap ∙ r.heap;
      stops = λ p h. k.stops p (r.stops p h);
      gone = λ i h. k.gone i (r.gone i h);
      settled = λ h. k.settled (λ id q. elim (ℕ_discrete j id) [
        | yes same ↦
            subst (λ i. (lookup ℕ_discrete i rest ≢ none) ⊎ MayWait m1 i) same
              (inr (r.settled (subst (λ i. pending_at m1 i ≢ none) (sym same) q)))
        | no other ↦ other_left id other (h id (λ z. q ((r.others id other).1 ∙ z)))
      ]);
      fates = λ id p e. elim (ℕ_discrete j id) [
        | yes same ↦
            subst (λ i. Fate m m' ((j, tt) ∷ rest) i p) same
              (own-Fate p (subst (λ i. sess_at m i ≡ some p) (sym same) e))
        | no other ↦
            later-Fate m m1 m' j rest id p r.heap other (k.fates id p ((r.others id other).0 ∙ e))
      ];
    }

  check_logins-Loop :
      (m : NetMgr M) (l : Map ℕ (Unit {0})) → Loop m (check_logins time_mill now m l) l
  unfolding check_logins
  check_logins-Loop m [] = record {
    heap = refl;
    stops = λ p h. h;
    gone = λ i h. h;
    settled = λ h id k. nothing_left m id (h id k);
    fates = λ id p e. inl (e, inl (nothing_listed id));
  }
  check_logins-Loop m ((j, _) ∷ rest) =
      let m1 : NetMgr M = check_login time_mill now m j in
      cons-Loop m m1 (check_logins time_mill now m1 rest) j rest (check_login-Round m j)
        (check_logins-Loop m1 rest)

  -- After a check, whoever still waits for a login is in the table, without a login, and within the
  -- minute. A session in the table stays there under its identifier if it was not waiting, had its
  -- login, or was within the minute; if it was waiting, without a login, for more than the minute, it
  -- is out of the table and `stop` was started for it.
  pub handle_login_timeout_lem :
      (m : NetMgr M)
      → ((id : ℕ)
          → pending_at (handle_login_timeout time_mill now m) id ≢ none
          → MayWait (handle_login_timeout time_mill now m) id)
        × ((id p : ℕ)
            → sess_at m id ≡ some p
            → Fate m (handle_login_timeout time_mill now m) m.login_pending id p)
  unfolding handle_login_timeout
  handle_login_timeout_lem m =
      let k = check_logins-Loop m m.login_pending in (k.settled (λ id h. inl h), k.fates)
