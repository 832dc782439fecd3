-- ===== src/Net/Manager/Tasks.antt =====
-- netmgr.go and handleAcceptConn and connectOnce of msgque_tcp.go: what is posted to the manager's
-- task channel, and the loop that runs it. A closure is a constructor with what it captured.
use card.Prelude.{
  ℕ, ◌+◌, Bool, true, false, not, List, [], ◌∷◌, ◌++◌, Option, none, some, if◌then◌else◌, ltb,
  length, get_elem?, take, drop,
}
use card.Prelude.Int.{ℤ, pos, ltb_ℤ}
use card.Prelude.Map.{Map, lookup}
use card.Prelude.Text.{Str, str_dec}
use card.Net.Options.{ConnectParams}
use card.Net.Agent.{add_clt_user, get_clt_user}
use card.Net.Model.{Msgque, send, new_tcp_accept, new_tcp_connect}
use card.Net.Manager.Defs.{
  NetMgr, update, sess_at, svr_at, add_sess, delete_sess, start_stop, set_agent, register_sess,
  kick_session, remove_session, remove_svr, stop_front, sess_over_evt, handle_login_timeout,
}

-- What the manager is given: the identifier that fastid makes for the n-th connection, the time in an
-- identifier, the callback of RegisterCanReconnect, and what OnNewMsgQue answers (true without handler).
pub record Env (M : Type 0) : Type 0 where
  pub gen_int64_id : ℕ → ℕ
  pub time_mill : ℕ → ℕ
  pub can_reconnect : ConnectParams → Bool
  pub on_new_msg_que : Msgque M → Bool

pub data Task (M : Type 0) : Type 0 where
  register : Str → ℤ → ℕ → Task M
  kick : ℕ → ℤ → Task M
  remove : ℕ → Task M
  remove_server : Str → ℤ → Task M
  front : Task M
  sess_over : ℕ → Task M
  accepted : ℕ → Option ConnectParams → Option Str → Str → Task M
  connected : ℕ → Option ConnectParams → Task M
  to_one : Str → M → Task M
  to_all : Str → M → Task M
  to_fix : Str → ℤ → M → Task M
  to_sess : ℕ → M → Task M
  to_all_user : M → Task M

module _ {M : Type 0} where
  -- The new connection at the next address.
  unfoldable pub allocate : NetMgr M → Msgque M → NetMgr M
  allocate m mq = record m { heap = update m.heap m.next mq; next = m.next + 1 }

  -- The task that `handleAcceptConn` posts. It stands in the table before it is started.
  unfoldable pub accept_task :
      Env M → NetMgr M → ℕ → Option ConnectParams → Option Str → Str → NetMgr M
  unfolding allocate add_sess delete_sess
  accept_task env m write_chan_size connect_params host remote_addr =
      let p : ℕ = m.next in
      let mq : Msgque M =
        new_tcp_accept (env.gen_int64_id p) write_chan_size connect_params host remote_addr in
      let m = add_sess (allocate m mq) p in
      if env.on_new_msg_que mq then m else start_stop (delete_sess m mq.sess_id) p

  -- The task that `connectOnce` posts.
  unfoldable pub connect_task : Env M → NetMgr M → ℕ → Option ConnectParams → NetMgr M
  unfolding allocate add_sess
  connect_task env m write_chan_size connect_params =
      let p : ℕ = m.next in
      add_sess (allocate m (new_tcp_connect (env.gen_int64_id p) write_chan_size connect_params)) p

  -- `v.Send(msg)` for the connection at an address.
  unfoldable pub send_to : NetMgr M → ℕ → M → NetMgr M × Bool
  unfolding send
  send_to m p msg =
      let (mq, sent) = send (m.heap p) msg in (record m { heap = update m.heap p mq }, sent)

  -- The loop that ends with the first connection that takes the message.
  unfoldable pub send_first : NetMgr M → Map ℤ ℕ → M → NetMgr M × Bool
  unfolding send_to
  send_first m [] msg = (m, false)
  send_first m ((k, p) ∷ rest) msg =
      let (m', sent) = send_to m p msg in
      let next : NetMgr M × Bool = send_first m' rest msg in if sent then (m', true) else next

  -- The senders give the manager and whether they called `failFunc`.
  unfoldable pub send_msg2_one : NetMgr M → Str → M → NetMgr M × Bool
  unfolding send_first
  send_msg2_one m svr_type msg = elim (lookup str_dec svr_type m.sess_agent) [
    | none ↦ (m, true)
    | some sp ↦ let (m', sent) = send_first m sp msg in (m', not sent)
  ]

  -- The loop over all connections, with the identifier of the last that refused the message.
  unfoldable pub send_each : NetMgr M → Map ℤ ℕ → M → ℕ → NetMgr M × ℕ
  unfolding send_to
  send_each m [] msg send_fail_id = (m, send_fail_id)
  send_each m ((k, p) ∷ rest) msg send_fail_id =
      let (m', sent) = send_to m p msg in
      send_each m' rest msg (if sent then send_fail_id else (m.heap p).sess_id)

  abbrev pub send_all_of : NetMgr M → Map ℤ ℕ → M → NetMgr M × Bool
  send_all_of m [] msg = (m, true)
  send_all_of m (e ∷ sp) msg =
      let (m', send_fail_id) = send_each m (e ∷ sp) msg 0 in (m', ltb 0 send_fail_id)

  unfoldable pub send_msg2_all : NetMgr M → Str → M → NetMgr M × Bool
  unfolding send_each
  send_msg2_all m svr_type msg = elim (lookup str_dec svr_type m.sess_agent) [
    | none ↦ (m, true)
    | some sp ↦ send_all_of m sp msg
  ]

  abbrev pub send_at : NetMgr M → Option ℕ → M → NetMgr M × Bool
  send_at m none msg = (m, true)
  send_at m (some p) msg = let (m', sent) = send_to m p msg in (m', not sent)

  unfoldable pub send_msg2_fix : NetMgr M → Str → ℤ → M → NetMgr M × Bool
  unfolding send_to
  send_msg2_fix m svr_type svr_id msg = send_at m (svr_at m svr_type svr_id) msg

  unfoldable pub send_msg2_sess : NetMgr M → ℕ → M → NetMgr M × Bool
  unfolding send_to
  send_msg2_sess m sess_id msg = send_at m (sess_at m sess_id) msg

  unfoldable pub send_users : NetMgr M → Map ℕ ℕ → M → NetMgr M
  unfolding send_to
  send_users m [] msg = m
  send_users m ((sess_id, p) ∷ rest) msg =
      send_users (if ltb_ℤ (pos 0) (get_clt_user (m.heap p).agt) then (send_to m p msg).0 else m)
        rest msg

  unfoldable pub send_msg2_all_user : NetMgr M → M → NetMgr M
  unfolding send_users
  send_msg2_all_user m msg = send_users m m.sess_map msg

  unfoldable pub run_task : Env M → NetMgr M → Task M → NetMgr M
  run_task env m (register svr_type svr_id sess_id) = register_sess m svr_type svr_id sess_id
  run_task env m (kick sess_id gid) = kick_session m sess_id gid
  run_task env m (remove sess_id) = remove_session m sess_id
  run_task env m (remove_server svr_type svr_id) = remove_svr m svr_type svr_id
  run_task env m front = stop_front m
  run_task env m (sess_over p) = sess_over_evt env.can_reconnect m p
  run_task env m (accepted size params host addr) = accept_task env m size params host addr
  run_task env m (connected size params) = connect_task env m size params
  run_task env m (to_one svr_type msg) = (send_msg2_one m svr_type msg).0
  run_task env m (to_all svr_type msg) = (send_msg2_all m svr_type msg).0
  run_task env m (to_fix svr_type svr_id msg) = (send_msg2_fix m svr_type svr_id msg).0
  run_task env m (to_sess sess_id msg) = (send_msg2_sess m sess_id msg).0
  run_task env m (to_all_user msg) = send_msg2_all_user m msg

-- The manager with its channel: `checked` are the tasks of the callers of `addTask` that found the
-- manager not stopping and have not come to the channel yet, and `ended` is true once the loop has
-- returned.
pub record Server (M : Type 0) : Type 0 where
  pub mgr : NetMgr M
  pub checked : List (Task M)
  pub task_chan : List (Task M)
  pub stopping : Bool
  pub ended : Bool

abbrev pub task_chan_size : ℕ
task_chan_size = 100000

-- What happens: `addTask` is called for a task, it comes to the channel with the task that stands at a
-- place among those that were checked, the loop runs the oldest task, its ticker fires, `Stop` is
-- called, the loop sees it; and beside the loop, a `stop` that was handed on runs and sets the flag of
-- its connection, `StopFront`, refused because of `Stop`, runs its task itself, and a handler enters the
-- user of a connection.
pub data Event (M : Type 0) : Type 0 where
  post : Task M → Event M
  send_task : ℕ → Event M
  loop_task : Event M
  tick : ℕ → Event M
  stop : Event M
  loop_stop : Event M
  stop_runs : ℕ → Event M
  front_inline : Event M
  login : ℕ → ℤ → Event M

module _ {M : Type 0} where
  -- The first half of `addTask`, the look at the flag.
  unfoldable pub add_task : Server M → Task M → Server M
  add_task s t = if s.stopping then s else record s { checked = s.checked ++ t ∷ [] }

  -- The second half, the channel, with what `addTask` answers; no one looks at the flag again.
  unfoldable pub send_to_chan : Server M → ℕ → Option (Task M) → Server M × Bool
  send_to_chan s i none = (s, false)
  send_to_chan s i (some t) =
      let s' = record s { checked = take i s.checked ++ drop (i + 1) s.checked } in
      if ltb (length s.task_chan) task_chan_size
      then (record s' { task_chan = s.task_chan ++ t ∷ [] }, true)
      else (s', false)

  unfoldable pub drain_tasks : Env M → NetMgr M → List (Task M) → NetMgr M
  unfolding run_task
  drain_tasks env m [] = m
  drain_tasks env m (t ∷ ts) = drain_tasks env (run_task env m t) ts

  unfoldable pub stop_all_sess : NetMgr M → Map ℕ ℕ → NetMgr M
  stop_all_sess m [] = m
  stop_all_sess m ((sess_id, p) ∷ rest) = stop_all_sess (start_stop m p) rest

  abbrev pub run_first : Env M → Server M → List (Task M) → Server M
  run_first env s [] = s
  run_first env s (t ∷ ts) = record s { mgr = run_task env s.mgr t; task_chan = ts }

  abbrev pub on_stopping : Env M → Server M → Bool → Server M
  on_stopping env s false = s
  on_stopping env s true =
      let m = drain_tasks env s.mgr s.task_chan in
      record s { mgr = stop_all_sess m m.sess_map; task_chan = []; ended = true }

  abbrev pub on_stop_runs : NetMgr M → Option ℕ → NetMgr M
  on_stop_runs m none = m
  on_stop_runs m (some p) = record m {
    heap = update m.heap p (record (m.heap p) { stopping = true });
  }

  unfoldable pub step : Env M → Server M → Event M → Server M
  unfolding add_task send_to_chan drain_tasks stop_all_sess run_task
  step env s (post t) = add_task s t
  step env s (send_task i) = (send_to_chan s i (get_elem? s.checked i)).0
  step env s loop_task = if s.ended then s else run_first env s s.task_chan
  step env s (tick now) =
      if s.ended then s else record s { mgr = handle_login_timeout env.time_mill now s.mgr }
  step env s stop = record s { stopping = true }
  step env s loop_stop = if s.ended then s else on_stopping env s s.stopping
  step env s (stop_runs i) = record s { mgr = on_stop_runs s.mgr (get_elem? s.mgr.stops i) }
  step env s front_inline = if s.stopping then record s { mgr = stop_front s.mgr } else s
  step env s (login p gid) = record s {
    mgr = set_agent s.mgr p (add_clt_user (s.mgr.heap p).agt gid);
  }

  unfoldable pub run : Env M → Server M → List (Event M) → Server M
  unfolding step
  run env s [] = s
  run env s (e ∷ es) = run env (step env s e) es

  -- What `NewNetMgr` makes; the heap holds what no connection was made at yet.
  unfoldable pub new_server : NetMgr M → Server M
  new_server m = record { mgr = m; checked = []; task_chan = []; stopping = false; ended = false }
