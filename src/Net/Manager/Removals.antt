-- ===== src/Net/Manager/Removals.antt =====
-- Each task that takes connections out is a sequence of moves.
use card.Prelude.{
  ℕ, ◌-◌, ◌<◌, ◌≡◌, refl, ap, ◌∙◌, ◌≢◌, inl, inr, ite, Bool, true, not, ◌&&◌, [], ◌∷◌, some, arith,
  leb, ℕ_discrete, Option-cases, Bool-cases, ite_ind,
}
use card.Prelude.Int.{ℤ, pos, eq_ℤ}
use card.Prelude.Map.{Map, lookup, lookup-delete, IsMap}
use card.Prelude.Text.{Str, str_dec}
use card.Net.Options.{ConnectParams}
use card.Net.Agent.{get_svr_agt, get_clt_user, add_svr_agt}
use card.Net.Model.{is_conn, needs_login}
use card.Net.Manager.Defs.{
  NetMgr, sess_at, svr_at, delete_sess, register_sess, inc_sess_agent, clear_login_pending,
  kick_session, remove_session, remove_svr, delete_svr, stop_front_one, stop_front_each,
  sess_over_evt, can_again, check_login, check_logins, timeout_millis,
}
use card.Net.Manager.Moves.{Moves, has, done, stays, again, Moves-trans}
use card.Net.Manager.Kept.{IsKept}
use card.Net.Manager.Effects.{
  Quiet, one_move, quiet_move, update-Quiet, Quiet-refl, Quiet-Same, Drops-stop, Quiet-Drops,
  delete_sess-Drops, delete_sess_absent, Quiet-Again, inc_sess_agent-Quiet, dec_sess_agent-Quiet,
  delete_svr-Quiet, take_out-Takes, clear-Same, reconnects-Quiet,
}

module _ {M : Type 0} where
  module _ (gen : ℕ → ℕ) (m : NetMgr M) where
    pub register_sess-Moves :
        (t : Str) (i : ℤ) (id : ℕ)
        → ((p : ℕ) → sess_at m id ≡ some p → p < m.next)
        → Moves gen m (register_sess m t i id)
    unfolding register_sess clear_login_pending
    register_sess-Moves t i id h = elim (Option-cases (sess_at m id)) [
      | inl e ↦ rw (e, register_sess) done
      | inr (p, e) ↦
          let a : NetMgr M = inc_sess_agent m t i p in
          let b : NetMgr M = clear_login_pending a id in
          rw (e, register_sess)
            (stays (Quiet-Same (inc_sess_agent-Quiet m t i p (h p e))) (
              stays (clear-Same a id) (
                quiet_move (
                  update-Quiet b p (record (b.heap p) { agt = add_svr_agt (b.heap p).agt t i }) refl
                    refl))))
    ]

    pub kick_session-Moves : (id : ℕ) (gid : ℤ) → Moves gen m (kick_session m id gid)
    unfolding kick_session
    kick_session-Moves id gid = elim (Option-cases (sess_at m id)) [
      | inl e ↦ rw (e, kick_session) done
      | inr (p, e) ↦
          elim (Bool-cases
            (not (eq_ℤ gid (pos 0)) && not (eq_ℤ gid (get_clt_user (m.heap p).agt)))) [
              | inl b ↦ rw (e, kick_session) (rw b done)
              | inr b ↦ rw (e, kick_session) (rw b (one_move id p (take_out-Takes m id p e)))
            ]
    ]

    pub remove_session-Moves : (id : ℕ) → Moves gen m (remove_session m id)
    unfolding remove_session
    remove_session-Moves id = elim (Option-cases (sess_at m id)) [
      | inl e ↦ rw (e, remove_session) done
      | inr (p, e) ↦ rw (e, remove_session) (one_move id p (take_out-Takes m id p e))
    ]

    -- Where a server leads to a connection that is out of the table, `stop` was started for it.
    pub remove_svr-Moves :
        ((i j : ℕ) → gen i ≡ gen j → i ≡ j)
        → IsKept gen m
        → (t : Str) (i : ℤ) → Moves gen m (remove_svr m t i)
    unfolding remove_svr
    remove_svr-Moves unique v t i = elim (Option-cases (svr_at m t i)) [
      | inl e ↦ rw (e, remove_svr) done
      | inr (p, e) ↦ elim (Option-cases (sess_at m (m.heap p).sess_id)) [
        | inr (q, f) ↦
            let own : q ≡ p = ground (
              arith,
              v.named (m.heap p).sess_id q f,
              v.routed t i p e,
              v.numbered p,
              v.numbered q,
              unique q p,
            ) in
            let found : sess_at m (m.heap p).sess_id ≡ some p = ground arith in
            rw (e, remove_svr)
              (one_move (m.heap p).sess_id p (
                Drops-stop (delete_sess-Drops m (m.heap p).sess_id p found)
                  (dec_sess_agent-Quiet (delete_sess m (m.heap p).sess_id) t (m.heap p).sess_id)))
        | inl f ↦
            let started : has p m.stops ≡ true =
              ground (arith, v.kept p (v.routed t i p e), Bool-cases (has p m.stops)) in
            rw (e, remove_svr)
              (rw (delete_sess_absent m (m.heap p).sess_id f)
                (again p (Quiet-Again started (dec_sess_agent-Quiet m t (m.heap p).sess_id)) done))
      ]
    ]

    pub sess_over_evt-Moves :
        (can_reconnect : ConnectParams → Bool) (p : ℕ)
        → Moves gen m (sess_over_evt can_reconnect m p)
    unfolding sess_over_evt
    sess_over_evt-Moves can_reconnect p = elim (Option-cases (sess_at m (m.heap p).sess_id)) [
      | inl e ↦ rw (e, sess_over_evt) done
      | inr (tc, e) ↦
          rw (e, sess_over_evt)
            (Moves-trans
              (one_move (m.heap p).sess_id tc (
                Drops-stop (delete_sess-Drops m (m.heap p).sess_id tc e) (
                  dec_sess_agent-Quiet (delete_sess m (m.heap p).sess_id)
                    (get_svr_agt (m.heap p).agt).0 (m.heap p).sess_id)))
              (quiet_move (
                reconnects-Quiet _ (can_again can_reconnect (m.heap p).connect_params)
                  (m.heap tc).connect_params)))
    ]

    pub stop_front_one-Moves :
        (sid p : ℕ) → sess_at m sid ≡ some p → Moves gen m (stop_front_one m sid p)
    unfolding stop_front_one
    stop_front_one-Moves sid p e = elim (Bool-cases (is_conn (m.heap p).conn_typ)) [
      | inl b ↦ rw b done
      | inr b ↦
          let svr = get_svr_agt (m.heap p).agt in
          let q : Quiet m (ite (str_dec svr.0 []) m (delete_svr m svr.0 svr.1)) =
            ite_ind (Quiet m) (str_dec svr.0 []) (Quiet-refl m) (delete_svr-Quiet m svr.0 svr.1) in
          rw b (
            one_move sid p (
              Drops-stop
                (Quiet-Drops q (delete_sess-Drops _ sid p (ap (lookup ℕ_discrete sid) q.table ∙ e)))
                (Quiet-refl _)))
    ]

    pub check_login-Moves :
        (time_mill : ℕ → ℕ) (now id : ℕ) → Moves gen m (check_login time_mill now m id)
    unfolding check_login
    check_login-Moves time_mill now id = elim (Option-cases (sess_at m id)) [
      | inl e ↦ rw (e, check_login) (stays (clear-Same m id) done)
      | inr (p, e) ↦ elim (Bool-cases (not (needs_login (m.heap p)))) [
        | inl b ↦ rw (e, check_login) (rw b (stays (clear-Same m id) done))
        | inr b ↦ elim (Bool-cases (leb (now - time_mill id) timeout_millis)) [
          | inl c ↦ rw (e, check_login) (rw b (rw c done))
          | inr c ↦
              rw (e, check_login)
                (rw b
                  (rw c (one_move id p (Drops-stop (delete_sess-Drops m id p e) (Quiet-refl _)))))
        ]
      ]
    ]

  pub check_logins-Moves :
      (gen : ℕ → ℕ) (time_mill : ℕ → ℕ) (now : ℕ) (m : NetMgr M) (ids : Map ℕ (Unit {0}))
      → Moves gen m (check_logins time_mill now m ids)
  unfolding check_logins
  check_logins-Moves gen time_mill now m [] = done
  check_logins-Moves gen time_mill now m ((id, _) ∷ rest) =
      Moves-trans (check_login-Moves gen m time_mill now id)
        (check_logins-Moves gen time_mill now (check_login time_mill now m id) rest)

  delete_sess_ne :
      (m : NetMgr M) (sid i : ℕ) → sid ≢ i → sess_at (delete_sess m sid) i ≡ sess_at m i
  delete_sess_ne m sid i ne = elim (Option-cases (sess_at m sid)) [
    | inl e ↦ ap (λ n. sess_at n i) (delete_sess_absent m sid e)
    | inr (p, e) ↦
        ground
          (arith, (delete_sess-Drops m sid p e).table, lookup-delete ℕ_discrete sid i m.sess_map)
  ]

  -- The rest of the table still stands when the head was dealt with.
  stop_front_one-rest :
      (m : NetMgr M) (sid p i q : ℕ)
      → sid ≢ i
      → sess_at m i ≡ some q
      → sess_at (stop_front_one m sid p) i ≡ some q
  unfolding stop_front_one
  stop_front_one-rest m sid p i q ne e = elim (Bool-cases (is_conn (m.heap p).conn_typ)) [
    | inl b ↦ rw b e
    | inr b ↦
        let svr = get_svr_agt (m.heap p).agt in
        let k : Quiet m (ite (str_dec svr.0 []) m (delete_svr m svr.0 svr.1)) =
          ite_ind (Quiet m) (str_dec svr.0 []) (Quiet-refl m) (delete_svr-Quiet m svr.0 svr.1) in
        rw b (delete_sess_ne _ sid i ne ∙ ap (lookup ℕ_discrete i) k.table ∙ e)
  ]

  pub stop_front_each-Moves :
      (gen : ℕ → ℕ) (m : NetMgr M) (l : Map ℕ ℕ)
      → IsMap ℕ_discrete l
      → ((id p : ℕ) → lookup ℕ_discrete id l ≡ some p → sess_at m id ≡ some p)
      → Moves gen m (stop_front_each m l)
  unfolding stop_front_each lookup
  stop_front_each-Moves gen m [] u h = done
  stop_front_each-Moves gen m ((sid, p) ∷ rest) u h =
      Moves-trans (stop_front_one-Moves gen m sid p (h sid p (ground arith))) (
        stop_front_each-Moves gen (stop_front_one m sid p) rest u.1
          λ i q e. stop_front_one-rest m sid p i q (λ same. ground arith) (h i q (ground arith)))
