-- ===== src/Net/Manager/TaskMoves.antt =====
-- Every task of netmgr.go is a sequence of moves.
use card.Prelude.{
  ℕ, ◌≡◌, refl, ap, ◌∙◌, ◌≢◌, ◌⊎◌, inl, inr, [], ◌∷◌, Option, none, some, arith, if◌then◌else◌,
  ℕ_discrete, Option-cases, Bool-cases,
}
use card.Prelude.Int.{ℤ, pos, ltb_ℤ}
use card.Prelude.Map.{Map, lookup, insert, lookup-insert, lookup-insert_self}
use card.Prelude.Text.{Str, str_dec}
use card.Net.Options.{ConnectParams}
use card.Net.Agent.{get_clt_user}
use card.Net.Model.{Msgque, needs_login, send, new_tcp_accept, new_tcp_connect}
use card.Net.Manager.Defs.{
  NetMgr, update, sess_at, svr_at, add_sess, track_login_pending, stop_front,
}
use card.Net.Manager.Tasks.{
  Env, Task, register, kick, remove, remove_server, front, sess_over, accepted, connected, to_one,
  to_all, to_fix, to_sess, to_all_user, allocate, accept_task, connect_task, send_to, send_first,
  send_msg2_one, send_each, send_msg2_all, send_msg2_fix, send_msg2_sess, send_users,
  send_msg2_all_user, run_task, send_at, send_all_of,
}
use card.Net.Manager.Moves.{Adds, Moves, done, adds}
use card.Net.Manager.Kept.{IsKept}
use card.Net.Manager.Effects.{
  Quiet, one_move, quiet_move, update-Quiet, Quiet-refl, Quiet-trans, Drops-stop, delete_sess-Drops,
}
use card.Net.Manager.Removals.{
  register_sess-Moves, kick_session-Moves, remove_session-Moves, remove_svr-Moves,
  sess_over_evt-Moves, stop_front_each-Moves,
}

module _ {M : Type 0} where
  send-same :
      (mq : Msgque M) (msg : M)
      → ((send mq msg).0.sess_id ≡ mq.sess_id) × ((send mq msg).0.conn_typ ≡ mq.conn_typ)
  unfolding send
  send-same mq msg = (ground arith, ground arith)

  send_to-Quiet : (m : NetMgr M) (p : ℕ) (msg : M) → Quiet m (send_to m p msg).0
  unfolding send_to
  send_to-Quiet m p msg =
      update-Quiet m p (send (m.heap p) msg).0 (send-same (m.heap p) msg).0
        (send-same (m.heap p) msg).1

  send_first-Quiet : (m : NetMgr M) (l : Map ℤ ℕ) (msg : M) → Quiet m (send_first m l msg).0
  unfolding send_first
  send_first-Quiet m [] msg = Quiet-refl m
  send_first-Quiet m ((k, p) ∷ rest) msg = elim (Bool-cases (send_to m p msg).1) [
    | inl b ↦ rw b (send_to-Quiet m p msg)
    | inr b ↦
        rw b (Quiet-trans (send_to-Quiet m p msg) (send_first-Quiet (send_to m p msg).0 rest msg))
  ]

  send_each-Quiet :
      (m : NetMgr M) (l : Map ℤ ℕ) (msg : M) (failed : ℕ) → Quiet m (send_each m l msg failed).0
  unfolding send_each
  send_each-Quiet m [] msg failed = Quiet-refl m
  send_each-Quiet m ((k, p) ∷ rest) msg failed =
      Quiet-trans (send_to-Quiet m p msg) (send_each-Quiet (send_to m p msg).0 rest msg _)

  pub send_users-Quiet : (m : NetMgr M) (l : Map ℕ ℕ) (msg : M) → Quiet m (send_users m l msg)
  unfolding send_users
  send_users-Quiet m [] msg = Quiet-refl m
  send_users-Quiet m ((k, p) ∷ rest) msg =
      elim (Bool-cases (ltb_ℤ (pos 0) (get_clt_user (m.heap p).agt))) [
        | inl b ↦
            rw b
              (Quiet-trans (send_to-Quiet m p msg) (send_users-Quiet (send_to m p msg).0 rest msg))
        | inr b ↦ rw b (send_users-Quiet m rest msg)
      ]

  pub send_at-Quiet : (m : NetMgr M) (found : Option ℕ) (msg : M) → Quiet m (send_at m found msg).0
  send_at-Quiet m none msg = Quiet-refl m
  send_at-Quiet m (some p) msg = send_to-Quiet m p msg

  pub send_msg2_one-Quiet : (m : NetMgr M) (t : Str) (msg : M) → Quiet m (send_msg2_one m t msg).0
  unfolding send_msg2_one
  send_msg2_one-Quiet m t msg = elim (Option-cases (lookup str_dec t m.sess_agent)) [
    | inl e ↦ rw (e, send_msg2_one) (Quiet-refl m)
    | inr (sp, e) ↦ rw (e, send_msg2_one) (send_first-Quiet m sp msg)
  ]

  send_all_of-Quiet : (m : NetMgr M) (sp : Map ℤ ℕ) (msg : M) → Quiet m (send_all_of m sp msg).0
  send_all_of-Quiet m [] msg = Quiet-refl m
  send_all_of-Quiet m (e ∷ sp) msg = send_each-Quiet m (e ∷ sp) msg 0

  pub send_msg2_all-Quiet : (m : NetMgr M) (t : Str) (msg : M) → Quiet m (send_msg2_all m t msg).0
  unfolding send_msg2_all
  send_msg2_all-Quiet m t msg = elim (Option-cases (lookup str_dec t m.sess_agent)) [
    | inl e ↦ rw (e, send_msg2_all) (Quiet-refl m)
    | inr (sp, e) ↦ rw (e, send_msg2_all) (send_all_of-Quiet m sp msg)
  ]

  pending_new :
      (gen : ℕ → ℕ) (m : NetMgr M) (mq : Msgque M) (i : ℕ)
      → lookup ℕ_discrete i (
          if needs_login mq
          then insert ℕ_discrete mq.sess_id tt m.login_pending
          else m.login_pending)
        ≢ none
      → (mq.sess_id ≡ i) ⊎ (lookup ℕ_discrete i m.login_pending ≢ none)
  pending_new gen m mq i h =
      ground (arith, lookup-insert ℕ_discrete mq.sess_id i tt m.login_pending)

  -- A new connection is entered under its identifier.
  add_sess-Adds :
      (gen : ℕ → ℕ) (m : NetMgr M) (mq : Msgque M)
      → mq.sess_id ≡ gen m.next
      → Adds gen m (add_sess (allocate m mq) m.next)
  unfolding add_sess allocate track_login_pending
  add_sess-Adds gen m mq e =
      let own : update m.heap m.next mq m.next ≡ mq = ground arith in
      record {
        ids = λ q h. ground arith;
        types = λ q h. ground arith;
        next = refl;
        agents = refl;
        numbered = ground arith;
        table = rw (own, e);
        stops = refl;
        num = refl;
        pending = λ i h. rw (own, e) at (pending_new gen m (update m.heap m.next mq m.next) i h);
      }

  accept_task-Moves :
      (env : Env M) (m : NetMgr M) (size : ℕ) (params : Option ConnectParams) (host : Option Str)
      (addr : Str)
      → Moves env.gen_int64_id m (accept_task env m size params host addr)
  unfolding accept_task new_tcp_accept
  accept_task-Moves env m size params host addr =
      let mq : Msgque M = new_tcp_accept (env.gen_int64_id m.next) size params host addr in
      let a : Adds env.gen_int64_id m (add_sess (allocate m mq) m.next) =
        add_sess-Adds env.gen_int64_id m mq refl in
      let found : sess_at (add_sess (allocate m mq) m.next) mq.sess_id ≡ some m.next =
        ap (lookup ℕ_discrete (env.gen_int64_id m.next)) a.table
        ∙ lookup-insert_self ℕ_discrete (env.gen_int64_id m.next) m.next m.sess_map in
      elim (Bool-cases (env.on_new_msg_que mq)) [
        | inl b ↦ rw b (adds a done)
        | inr b ↦ rw b (
            adds a (
              one_move mq.sess_id m.next
                (Drops-stop (delete_sess-Drops _ mq.sess_id m.next found) (Quiet-refl _))))
      ]

  connect_task-Moves :
      (env : Env M) (m : NetMgr M) (size : ℕ) (params : Option ConnectParams)
      → Moves env.gen_int64_id m (connect_task env m size params)
  unfolding connect_task new_tcp_connect
  connect_task-Moves env m size params = adds (add_sess-Adds env.gen_int64_id m _ refl) done

module _ {M : Type 0} (env : Env M)
    (unique : (i j : ℕ) → env.gen_int64_id i ≡ env.gen_int64_id j → i ≡ j) where
  pub run_task-Moves :
      (m : NetMgr M) (t : Task M)
      → IsKept env.gen_int64_id m
      → Moves env.gen_int64_id m (run_task env m t)
  unfolding run_task stop_front send_msg2_fix send_msg2_sess send_msg2_all_user
  run_task-Moves m (register t i id) v =
      register_sess-Moves env.gen_int64_id m t i id (λ p e. (v.named id p e).0)
  run_task-Moves m (kick id gid) v = kick_session-Moves env.gen_int64_id m id gid
  run_task-Moves m (remove id) v = remove_session-Moves env.gen_int64_id m id
  run_task-Moves m (remove_server t i) v = remove_svr-Moves env.gen_int64_id m unique v t i
  run_task-Moves m front v =
      stop_front_each-Moves env.gen_int64_id m m.sess_map v.single (λ id p e. e)
  run_task-Moves m (sess_over p) v = sess_over_evt-Moves env.gen_int64_id m env.can_reconnect p
  run_task-Moves m (accepted size params host addr) v =
      accept_task-Moves env m size params host addr
  run_task-Moves m (connected size params) v = connect_task-Moves env m size params
  run_task-Moves m (to_one t msg) v = quiet_move (send_msg2_one-Quiet m t msg)
  run_task-Moves m (to_all t msg) v = quiet_move (send_msg2_all-Quiet m t msg)
  run_task-Moves m (to_fix t i msg) v = quiet_move (send_at-Quiet m (svr_at m t i) msg)
  run_task-Moves m (to_sess id msg) v = quiet_move (send_at-Quiet m (sess_at m id) msg)
  run_task-Moves m (to_all_user msg) v = quiet_move (send_users-Quiet m m.sess_map msg)
