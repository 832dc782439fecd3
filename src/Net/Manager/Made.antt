-- ===== src/Net/Manager/Made.antt =====
-- How many connections each task makes.
use card.Prelude.{
  ℕ, ◌+◌, ◌≡◌, refl, ◌∙◌, Bool, true, inl, inr, List, [], ◌∷◌, Option, none, some, arith,
  Option-cases, ite, ite_ind, if_ind,
}
use card.Prelude.Int.{ℤ}
use card.Prelude.Map.{Map}
use card.Prelude.Text.{Str, str_dec}
use card.Net.Options.{ConnectParams}
use card.Net.Agent.{get_svr_agt}
use card.Net.Model.{Msgque, is_conn, new_tcp_accept, new_tcp_connect}
use card.Net.Manager.Defs.{
  NetMgr, sess_at, svr_at, add_sess, delete_sess, delete_found, dec_sess_agent, take_out,
  register_sess, kick_session, remove_session, remove_svr, delete_svr, stop_front_one,
  stop_front_each, stop_front, sess_over_evt, start_stop, track_login_pending, clear_login_pending,
  inc_sess_agent, reconnect_with_new_mq, can_again,
}
use card.Net.Manager.Tasks.{
  Env, Task, register, kick, remove, remove_server, front, sess_over, accepted, connected, to_one,
  to_all, to_fix, to_sess, to_all_user, run_task, drain_tasks, allocate, accept_task, connect_task,
  send_msg2_fix, send_msg2_sess, send_msg2_all_user,
}
use card.Net.Manager.Moves.{has}
use card.Net.Manager.Effects.{Quiet, Quiet-refl, delete_svr-Quiet}
use card.Net.Manager.TaskMoves.{
  send_msg2_one-Quiet, send_msg2_all-Quiet, send_at-Quiet, send_users-Quiet,
}

-- The connections that a task makes, and those of a list of tasks.
abbrev pub makes : {M : Type 0} → Task M → ℕ
makes (accepted size params host addr) = 1
makes (connected size params) = 1
makes (register t i id) = 0
makes (kick id gid) = 0
makes (remove id) = 0
makes (remove_server t i) = 0
makes front = 0
makes (sess_over p) = 0
makes (to_one t msg) = 0
makes (to_all t msg) = 0
makes (to_fix t i msg) = 0
makes (to_sess id msg) = 0
makes (to_all_user msg) = 0

abbrev pub makes_all : {M : Type 0} → List (Task M) → ℕ
makes_all [] = 0
makes_all (t ∷ ts) = makes t + makes_all ts

module _ {M : Type 0} where
  delete_sess-next : (m : NetMgr M) (id : ℕ) → (delete_sess m id).next ≡ m.next
  unfolding delete_sess delete_found clear_login_pending
  delete_sess-next m id = ground arith

  delete_sess-stops : (m : NetMgr M) (id : ℕ) → (delete_sess m id).stops ≡ m.stops
  unfolding delete_sess delete_found clear_login_pending
  delete_sess-stops m id = ground arith

  dec_sess_agent-next : (m : NetMgr M) (t : Str) (id : ℕ) → (dec_sess_agent m t id).next ≡ m.next
  unfolding dec_sess_agent
  dec_sess_agent-next m t id = ground arith

  removed-next :
      (m : NetMgr M) (t : Str) (id : ℕ) → (dec_sess_agent (delete_sess m id) t id).next ≡ m.next
  removed-next m t id = dec_sess_agent-next (delete_sess m id) t id ∙ delete_sess-next m id

  take_out-next : (m : NetMgr M) (id p : ℕ) → (take_out m id p).next ≡ m.next
  unfolding take_out
  take_out-next m id p =
      let out : NetMgr M = delete_sess m id in
      let t : Str = (get_svr_agt (out.heap p).agt).0 in
      ite_ind (λ (n : NetMgr M). n.next ≡ m.next) (str_dec t []) (delete_sess-next m id)
        (removed-next m t id)

  register_sess-next :
      (m : NetMgr M) (t : Str) (i : ℤ) (id : ℕ) → (register_sess m t i id).next ≡ m.next
  unfolding register_sess inc_sess_agent clear_login_pending
  register_sess-next m t i id = ground arith

  kick_session-next : (m : NetMgr M) (id : ℕ) (gid : ℤ) → (kick_session m id gid).next ≡ m.next
  unfolding kick_session
  kick_session-next m id gid = elim (Option-cases (sess_at m id)) [
    | inl e ↦ rw (e, kick_session) refl
    | inr (p, e) ↦
        rw (e, kick_session)
          (if_ind (λ (n : NetMgr M). n.next ≡ m.next) _ (λ b. refl) (λ b. take_out-next m id p))
  ]

  remove_session-next : (m : NetMgr M) (id : ℕ) → (remove_session m id).next ≡ m.next
  unfolding remove_session
  remove_session-next m id = elim (Option-cases (sess_at m id)) [
    | inl e ↦ rw (e, remove_session) refl
    | inr (p, e) ↦ rw (e, remove_session) (take_out-next m id p)
  ]

  remove_svr-next : (m : NetMgr M) (t : Str) (i : ℤ) → (remove_svr m t i).next ≡ m.next
  unfolding remove_svr
  remove_svr-next m t i = elim (Option-cases (svr_at m t i)) [
    | inl e ↦ rw (e, remove_svr) refl
    | inr (p, e) ↦ rw (e, remove_svr) (removed-next m t (m.heap p).sess_id)
  ]

  again-next : (m : NetMgr M) (o : Option ConnectParams) → (reconnect_with_new_mq m o).next ≡ m.next
  again-next m none = refl
  again-next m (some params) = refl

  sess_over_evt-next :
      (c : ConnectParams → Bool) (m : NetMgr M) (p : ℕ) → (sess_over_evt c m p).next ≡ m.next
  unfolding sess_over_evt
  sess_over_evt-next c m p = elim (Option-cases (sess_at m (m.heap p).sess_id)) [
    | inl e ↦ rw (e, sess_over_evt) refl
    | inr (tc, e) ↦
        let id : ℕ = (m.heap p).sess_id in
        let t : Str = (get_svr_agt (m.heap p).agt).0 in
        let out : NetMgr M = start_stop (dec_sess_agent (delete_sess m id) t id) tc in
        let h : out.next ≡ m.next = removed-next m t id in
        rw (e, sess_over_evt)
          (if_ind (λ (n : NetMgr M). n.next ≡ m.next) (can_again c (m.heap p).connect_params)
            (λ b. again-next out (m.heap tc).connect_params ∙ h) (λ b. h))
  ]

  -- `StopFront` makes no connection and forgets no `stop`.
  pub record IsLater (m m' : NetMgr M) : Type 0 where
    pub next : m'.next ≡ m.next
    pub stops : (p : ℕ) → has p m.stops ≡ true → has p m'.stops ≡ true

  stop_front_one-IsLater : (m : NetMgr M) (sid p : ℕ) → IsLater m (stop_front_one m sid p)
  unfolding stop_front_one
  stop_front_one-IsLater m sid p =
      if_ind (IsLater m) (is_conn (m.heap p).conn_typ)
        (λ b. record { next = refl; stops = λ q h. h })
        (λ b.
          let svr = get_svr_agt (m.heap p).agt in
          let k : Quiet m (ite (str_dec svr.0 []) m (delete_svr m svr.0 svr.1)) =
            ite_ind (Quiet m) (str_dec svr.0 []) (Quiet-refl m) (delete_svr-Quiet m svr.0 svr.1) in
          record {
            next = delete_sess-next _ sid ∙ k.same_ids.next;
            stops = λ q h. ground (
              arith,
              delete_sess-stops (ite (str_dec svr.0 []) m (delete_svr m svr.0 svr.1)) sid,
              k.stops,
            );
          })

  stop_front_each-IsLater : (m : NetMgr M) (l : Map ℕ ℕ) → IsLater m (stop_front_each m l)
  unfolding stop_front_each
  stop_front_each-IsLater m [] = record { next = refl; stops = λ q h. h }
  stop_front_each-IsLater m ((sid, p) ∷ rest) =
      let h = stop_front_one-IsLater m sid p in
      let k = stop_front_each-IsLater (stop_front_one m sid p) rest in
      record { next = k.next ∙ h.next; stops = λ q e. k.stops q (h.stops q e) }

  pub stop_front-IsLater : (m : NetMgr M) → IsLater m (stop_front m)
  unfolding stop_front
  stop_front-IsLater m = stop_front_each-IsLater m m.sess_map

  add_sess-next : (m : NetMgr M) (p : ℕ) → (add_sess m p).next ≡ m.next
  unfolding add_sess track_login_pending
  add_sess-next m p = ground arith

  accept_task-next :
      (env : Env M) (m : NetMgr M) (size : ℕ) (params : Option ConnectParams) (host : Option Str)
      (addr : Str)
      → (accept_task env m size params host addr).next ≡ m.next + 1
  unfolding accept_task allocate
  accept_task-next env m size params host addr =
      let mq : Msgque M = new_tcp_accept (env.gen_int64_id m.next) size params host addr in
      let added : NetMgr M = add_sess (allocate m mq) m.next in
      let e : added.next ≡ m.next + 1 = add_sess-next (allocate m mq) m.next in
      if_ind (λ (n : NetMgr M). n.next ≡ m.next + 1) (env.on_new_msg_que mq) (λ b. e)
        (λ b. delete_sess-next added mq.sess_id ∙ e)

  connect_task-next :
      (env : Env M) (m : NetMgr M) (size : ℕ) (params : Option ConnectParams)
      → (connect_task env m size params).next ≡ m.next + 1
  unfolding connect_task allocate
  connect_task-next env m size params =
      add_sess-next (allocate m (new_tcp_connect (env.gen_int64_id m.next) size params)) m.next

  pub run_task-next :
      (env : Env M) (m : NetMgr M) (t : Task M) → (run_task env m t).next ≡ m.next + makes t
  unfolding run_task send_msg2_fix send_msg2_sess send_msg2_all_user
  run_task-next env m (register t i id) = omega (arith, register_sess-next m t i id)
  run_task-next env m (kick id gid) = omega (arith, kick_session-next m id gid)
  run_task-next env m (remove id) = omega (arith, remove_session-next m id)
  run_task-next env m (remove_server t i) = omega (arith, remove_svr-next m t i)
  run_task-next env m front = omega (arith, (stop_front-IsLater m).next)
  run_task-next env m (sess_over p) = omega (arith, sess_over_evt-next env.can_reconnect m p)
  run_task-next env m (accepted size params host addr) =
      accept_task-next env m size params host addr
  run_task-next env m (connected size params) = connect_task-next env m size params
  run_task-next env m (to_one t msg) = omega (arith, (send_msg2_one-Quiet m t msg).same_ids.next)
  run_task-next env m (to_all t msg) = omega (arith, (send_msg2_all-Quiet m t msg).same_ids.next)
  run_task-next env m (to_fix t i msg) =
      omega (arith, (send_at-Quiet m (svr_at m t i) msg).same_ids.next)
  run_task-next env m (to_sess id msg) =
      omega (arith, (send_at-Quiet m (sess_at m id) msg).same_ids.next)
  run_task-next env m (to_all_user msg) =
      omega (arith, (send_users-Quiet m m.sess_map msg).same_ids.next)

  pub drain_tasks-next :
      (env : Env M) (m : NetMgr M) (ts : List (Task M))
      → (drain_tasks env m ts).next ≡ m.next + makes_all ts
  unfolding drain_tasks
  drain_tasks-next env m [] = omega arith
  drain_tasks-next env m (t ∷ ts) =
      omega (arith, drain_tasks-next env (run_task env m t) ts, run_task-next env m t)
