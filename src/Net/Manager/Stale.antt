-- ===== src/Net/Manager/Stale.antt =====
-- RegisterSess of a connection that a client has logged in on.
use card.Prelude.{
  ℕ, ◌≡◌, refl, ap, ◌∙◌, inl, inr, ite, if_pos, true, [], none, some, arith, ℕ_discrete,
  Option-cases,
}
use card.Prelude.Int.{ℤ, pos, ltb_ℤ, ℤ_discrete}
use card.Prelude.Map.{lookup, insert, lookup-insert, lookup-delete}
use card.Prelude.Text.{Str, str_dec}
use card.Net.Agent.{ConnSnap, client, add_svr_agt, get_svr_agt}
use card.Net.Manager.Defs.{
  NetMgr, sess_at, svr_at, svr_in, register_sess, inc_sess_agent, clear_login_pending, set_agent,
  remove_session, take_out, delete_sess, delete_found, dec_sess_agent, start_stop,
}
use card.Net.Manager.Moves.{has}

still_client :
    (user : ConnSnap) (t : Str) (i : ℤ)
    → user.kind ≡ client
    → ltb_ℤ (pos 0) user.gid ≡ true
    → (get_svr_agt (add_svr_agt (some user) t i)).0 ≡ []
unfolding add_svr_agt get_svr_agt
still_client user t i kind gid = rw gid (rw kind)

module _ {M : Type 0} where
  inc_sess_agent-route :
      (m : NetMgr M) (t : Str) (i : ℤ) (p : ℕ) → svr_at (inc_sess_agent m t i p) t i ≡ some p
  unfolding inc_sess_agent
  inc_sess_agent-route m t i p = elim (Option-cases (lookup str_dec t m.sess_agent)) [
    | inl e ↦ rw e (
        ground (
          arith,
          lookup-insert str_dec t t (insert ℤ_discrete i p []) m.sess_agent,
          lookup-insert ℤ_discrete i i p [],
        ))
    | inr (svrs, e) ↦ rw e (
        ground (
          arith,
          lookup-insert str_dec t t (insert ℤ_discrete i p svrs) m.sess_agent,
          lookup-insert ℤ_discrete i i p svrs,
        ))
  ]

  take_out_plain :
      (m : NetMgr M) (id p : ℕ)
      → sess_at m id ≡ some p
      → (get_svr_agt (m.heap p).agt).0 ≡ []
      → take_out m id p ≡ start_stop (delete_found m id p) p
  unfolding take_out delete_found clear_login_pending
  take_out_plain m id p e c =
      let d : delete_sess m id ≡ delete_found m id p = rw (e, delete_sess) in
      ap
        (λ k.
          start_stop
            (ite (str_dec (get_svr_agt (k.heap p).agt).0 []) k
              (dec_sess_agent k (get_svr_agt (k.heap p).agt).0 id))
            p)
        d
      ∙ ap (λ k. start_stop k p)
          (if_pos (str_dec (get_svr_agt (m.heap p).agt).0 []) c (delete_found m id p) _)

  -- The removal of a connection that stands for no server leaves the servers alone.
  take_out-client :
      (m : NetMgr M) (id p : ℕ)
      → sess_at m id ≡ some p
      → (get_svr_agt (m.heap p).agt).0 ≡ []
      → ((take_out m id p).sess_agent ≡ m.sess_agent)
        × (sess_at (take_out m id p) id ≡ none)
        × (has p (take_out m id p).stops ≡ true)
  unfolding delete_found clear_login_pending
  take_out-client m id p e c =
      rw (take_out_plain m id p e c)
        (refl, ground (arith, lookup-delete ℕ_discrete id id m.sess_map), ground arith)

  register_sess-Registered :
      (m : NetMgr M) (t : Str) (i : ℤ) (id p : ℕ)
      → sess_at m id ≡ some p
      → register_sess m t i id
        ≡ set_agent
            (clear_login_pending (inc_sess_agent m t i p) id)
            p
            (add_svr_agt (m.heap p).agt t i)
  unfolding register_sess inc_sess_agent clear_login_pending
  register_sess-Registered m t i id p e = rw (e, register_sess)

  -- A connection on which a user has logged in does not become a server, yet RegisterSess leads the
  -- server to it; when the connection is removed, the server still leads to it, though it is out of the
  -- table and being stopped.
  pub register_sess_leaks :
      (m : NetMgr M) (svr_type : Str) (svr_id : ℤ) (sess_id p : ℕ) (user : ConnSnap)
      → sess_at m sess_id ≡ some p
      → (m.heap p).agt ≡ some user
      → user.kind ≡ client
      → ltb_ℤ (pos 0) user.gid ≡ true
      → let m' = remove_session (register_sess m svr_type svr_id sess_id) sess_id in
        (svr_at m' svr_type svr_id ≡ some p) × (sess_at m' sess_id ≡ none) × (has p m'.stops ≡ true)
  unfolding remove_session inc_sess_agent clear_login_pending
  register_sess_leaks m svr_type svr_id sess_id p user e agt kind gid =
      let m1 : NetMgr M =
        set_agent (clear_login_pending (inc_sess_agent m svr_type svr_id p) sess_id) p
          (add_svr_agt (m.heap p).agt svr_type svr_id) in
      let found : sess_at m1 sess_id ≡ some p = e in
      let own : (m1.heap p).agt ≡ add_svr_agt (some user) svr_type svr_id = ground arith in
      let plain : (get_svr_agt (m1.heap p).agt).0 ≡ [] =
        ap (λ a. (get_svr_agt a).0) own ∙ still_client user svr_type svr_id kind gid in
      let gone = take_out-client m1 sess_id p found plain in
      let removed : remove_session m1 sess_id ≡ take_out m1 sess_id p =
        rw (found, remove_session) in
      rw (register_sess-Registered m svr_type svr_id sess_id p e, removed)
        (
          ap (λ a. svr_in (lookup str_dec svr_type a) svr_id) gone.0
              ∙ inc_sess_agent-route m svr_type svr_id p,
          gone.1,
          gone.2,
        )
