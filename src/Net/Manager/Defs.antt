-- ===== src/Net/Manager/Defs.antt =====
-- netmgr.go: the tables of the manager and what its tasks do to them. The tables hold pointers to
-- connections, which stand on a heap; `next` connections were made. A map is an association list, whose
-- order stands for the order that Go chooses. `stops` lists the connections whose `stop` was handed on,
-- to a goroutine that `SafeGo` starts or, by the task of `StopFront`, to `stopSync`, which its caller
-- runs after the task, the last first; when it runs is another step (`stop_runs` of Tasks).
-- `reconnects` lists the targets for which a new connection was started.
use card.Prelude.{
  ℕ, ◌+◌, ◌-◌, ite, Bool, false, not, ◌&&◌, List, [], ◌∷◌, Option, none, some, if◌then◌else◌, leb,
  ◌==◌, ℕ_discrete,
}
use card.Prelude.Int.{ℤ, pos, negsuc, leb_ℤ, eq_ℤ, ℤ_discrete}
use card.Prelude.Map.{Map, lookup, insert, delete}
use card.Prelude.Text.{Str, str_dec}
use card.Net.Options.{ConnectParams}
use card.Net.Agent.{ConnAgt, add_svr_agt, get_svr_agt, get_clt_user}
use card.Net.Model.{is_accept, is_conn, Msgque, needs_login}

pub record NetMgr (M : Type 0) : Type 0 where
  pub heap : ℕ → Msgque M
  pub next : ℕ
  pub sess_map : Map ℕ ℕ
  pub sess_agent : Map Str (Map ℤ ℕ)
  pub login_pending : Map ℕ (Unit {0})
  pub accept_sess_num : ℕ
  pub stops : List ℕ
  pub reconnects : List ConnectParams

abbrev pub svr_in : Option (Map ℤ ℕ) → ℤ → Option ℕ
svr_in none svr_id = none
svr_in (some svrs) svr_id = lookup ℤ_discrete svr_id svrs

-- The counter goes down by one, and up again where that made it negative.
abbrev pub dec_accept_sess_num : ℕ → ℕ
dec_accept_sess_num n = n - 1

-- Whether to connect again is asked for the connection that ended; the target is that of `tc`.
abbrev pub can_again : (ConnectParams → Bool) → Option ConnectParams → Bool
can_again can_reconnect none = false
can_again can_reconnect (some params) = can_reconnect params

-- One minute.
abbrev pub timeout_millis : ℕ
timeout_millis = 60000

module _ {M : Type 0} where
  abbrev pub update : (ℕ → Msgque M) → ℕ → Msgque M → ℕ → Msgque M
  update h p mq q = ite (ℕ_discrete p q) mq (h q)

  unfoldable pub new_net_mgr : (ℕ → Msgque M) → NetMgr M
  new_net_mgr heap = record {
    heap = heap;
    next = 0;
    sess_map = [];
    sess_agent = [];
    login_pending = [];
    accept_sess_num = 0;
    stops = [];
    reconnects = [];
  }

  -- `sessMap[id]`, and `sessAgent[svrType][svrId]` through a map that may be missing.
  abbrev pub sess_at : NetMgr M → ℕ → Option ℕ
  sess_at m id = lookup ℕ_discrete id m.sess_map

  abbrev pub svr_at : NetMgr M → Str → ℤ → Option ℕ
  svr_at m svr_type svr_id = svr_in (lookup str_dec svr_type m.sess_agent) svr_id

  unfoldable pub inc_sess_agent : NetMgr M → Str → ℤ → ℕ → NetMgr M
  inc_sess_agent m svr_type svr_id p =
      let svrs : Map ℤ ℕ = elim (lookup str_dec svr_type m.sess_agent) [ none ↦ [] | some s ↦ s ] in
      record m {
        sess_agent = insert str_dec svr_type (insert ℤ_discrete svr_id p svrs) m.sess_agent;
      }

  unfoldable pub clear_login_pending : NetMgr M → ℕ → NetMgr M
  clear_login_pending m sess_id = record m {
    login_pending = delete ℕ_discrete sess_id m.login_pending;
  }

  unfoldable pub track_login_pending : NetMgr M → ℕ → NetMgr M
  track_login_pending m p = record m {
    login_pending =
        if needs_login (m.heap p)
        then insert ℕ_discrete (m.heap p).sess_id tt m.login_pending
        else m.login_pending;
  }

  unfoldable pub add_sess : NetMgr M → ℕ → NetMgr M
  unfolding track_login_pending
  add_sess m p =
      let m' = record m { sess_map = insert ℕ_discrete (m.heap p).sess_id p m.sess_map } in
      record (track_login_pending m' p) {
        accept_sess_num =
            if is_accept (m.heap p).conn_typ then m.accept_sess_num + 1 else m.accept_sess_num;
      }

  unfoldable pub delete_found : NetMgr M → ℕ → ℕ → NetMgr M
  unfolding clear_login_pending
  delete_found m sess_id tc =
      let m' = record m {
        accept_sess_num =
            if is_accept (m.heap tc).conn_typ
            then dec_accept_sess_num m.accept_sess_num
            else m.accept_sess_num;
        sess_map = delete ℕ_discrete sess_id m.sess_map;
      } in
      clear_login_pending m' sess_id

  unfoldable pub delete_sess : NetMgr M → ℕ → NetMgr M
  unfolding delete_found
  delete_sess m sess_id = elim (sess_at m sess_id) [
    | none ↦ m
    | some tc ↦ delete_found m sess_id tc
  ]

  -- The number of the first server that the session stands for, and -1 without one.
  unfoldable pub find_svr : (ℕ → Msgque M) → Map ℤ ℕ → ℕ → ℤ
  find_svr heap [] sess_id = negsuc 0
  find_svr heap ((k, v) ∷ rest) sess_id =
      if (heap v).sess_id == sess_id then k else find_svr heap rest sess_id

  unfoldable pub dec_sess_agent : NetMgr M → Str → ℕ → NetMgr M
  unfolding find_svr
  dec_sess_agent m svr_name sess_id = elim (lookup str_dec svr_name m.sess_agent) [
    | none ↦ m
    | some svrs ↦
        let svr_id : ℤ = find_svr m.heap svrs sess_id in
        if leb_ℤ (pos 0) svr_id
        then record m {
          sess_agent = insert str_dec svr_name (delete ℤ_discrete svr_id svrs) m.sess_agent;
        }
        else m
  ]

  -- `basal.SafeGo(func() { mq.stop() })`
  abbrev pub start_stop : NetMgr M → ℕ → NetMgr M
  start_stop m p = record m { stops = p ∷ m.stops }

  abbrev pub set_agent : NetMgr M → ℕ → ConnAgt → NetMgr M
  set_agent m p agt = record m { heap = update m.heap p (record (m.heap p) { agt = agt }) }

  unfoldable pub register_sess : NetMgr M → Str → ℤ → ℕ → NetMgr M
  unfolding inc_sess_agent clear_login_pending
  register_sess m svr_type svr_id sess_id = elim (sess_at m sess_id) [
    | none ↦ m
    | some p ↦
        let m = inc_sess_agent m svr_type svr_id p in
        let m = clear_login_pending m sess_id in
        set_agent m p (add_svr_agt (m.heap p).agt svr_type svr_id)
  ]

  -- What `KickSession` and `RemoveSession` do once they have found the connection.
  unfoldable pub take_out : NetMgr M → ℕ → ℕ → NetMgr M
  unfolding delete_sess dec_sess_agent
  take_out m sess_id p =
      let m = delete_sess m sess_id in
      let svr_type : Str = (get_svr_agt (m.heap p).agt).0 in
      let m = ite (str_dec svr_type []) m (dec_sess_agent m svr_type sess_id) in start_stop m p

  unfoldable pub kick_session : NetMgr M → ℕ → ℤ → NetMgr M
  unfolding take_out
  kick_session m sess_id gid = elim (sess_at m sess_id) [
    | none ↦ m
    | some p ↦
        if not (eq_ℤ gid (pos 0)) && not (eq_ℤ gid (get_clt_user (m.heap p).agt))
        then m
        else take_out m sess_id p
  ]

  unfoldable pub remove_session : NetMgr M → ℕ → NetMgr M
  unfolding take_out
  remove_session m sess_id = elim (sess_at m sess_id) [ none ↦ m | some p ↦ take_out m sess_id p ]

  unfoldable pub remove_svr : NetMgr M → Str → ℤ → NetMgr M
  unfolding delete_sess dec_sess_agent
  remove_svr m svr_type svr_id = elim (svr_at m svr_type svr_id) [
    | none ↦ m
    | some p ↦
        let sess_id : ℕ = (m.heap p).sess_id in
        start_stop (dec_sess_agent (delete_sess m sess_id) svr_type sess_id) p
  ]

  -- `delete(mgr.sessAgent[svrType], svrId)`, which does nothing to a missing map.
  abbrev pub delete_svr : NetMgr M → Str → ℤ → NetMgr M
  delete_svr m svr_type svr_id = elim (lookup str_dec svr_type m.sess_agent) [
    | none ↦ m
    | some svrs ↦ record m {
      sess_agent = insert str_dec svr_type (delete ℤ_discrete svr_id svrs) m.sess_agent;
    }
  ]

  -- The round of the task of `StopFront` for one session; `stopQus`, which `stopSync` is given, goes to
  -- `stops`.
  unfoldable pub stop_front_one : NetMgr M → ℕ → ℕ → NetMgr M
  unfolding delete_sess
  stop_front_one m sid p =
      if is_conn (m.heap p).conn_typ
      then m
      else (let (svr_type, svr_id) = get_svr_agt (m.heap p).agt in
          let m' = ite (str_dec svr_type []) m (delete_svr m svr_type svr_id) in
          start_stop (delete_sess m' sid) p)

  unfoldable pub stop_front_each : NetMgr M → Map ℕ ℕ → NetMgr M
  unfolding stop_front_one
  stop_front_each m [] = m
  stop_front_each m ((sid, p) ∷ rest) = stop_front_each (stop_front_one m sid p) rest

  unfoldable pub stop_front : NetMgr M → NetMgr M
  unfolding stop_front_each
  stop_front m = stop_front_each m m.sess_map

  abbrev pub reconnect_with_new_mq : NetMgr M → Option ConnectParams → NetMgr M
  reconnect_with_new_mq m none = m
  reconnect_with_new_mq m (some params) = record m { reconnects = params ∷ m.reconnects }

  -- The connection at `p` has ended; `tc` is what the table holds under its identifier.
  unfoldable pub sess_over_evt : (ConnectParams → Bool) → NetMgr M → ℕ → NetMgr M
  unfolding delete_sess dec_sess_agent
  sess_over_evt can_reconnect m p =
      let sess_id : ℕ = (m.heap p).sess_id in
      elim (sess_at m sess_id) [
        | none ↦ m
        | some tc ↦
            let svr_type : Str = (get_svr_agt (m.heap p).agt).0 in
            let m' = start_stop (dec_sess_agent (delete_sess m sess_id) svr_type sess_id) tc in
            if can_again can_reconnect (m.heap p).connect_params
            then reconnect_with_new_mq m' (m.heap tc).connect_params
            else m'
      ]

  -- `time_mill` is fastid.GetTimeMillFromFastID. A difference below 0 is within the time as well.
  unfoldable pub check_login : (ℕ → ℕ) → ℕ → NetMgr M → ℕ → NetMgr M
  unfolding delete_sess clear_login_pending
  check_login time_mill now_millis m sess_id = elim (sess_at m sess_id) [
    | none ↦ clear_login_pending m sess_id
    | some p ↦
        if not (needs_login (m.heap p))
        then clear_login_pending m sess_id
        else if leb (now_millis - time_mill sess_id) timeout_millis
        then m
        else start_stop (delete_sess m sess_id) p
  ]

  unfoldable pub check_logins : (ℕ → ℕ) → ℕ → NetMgr M → Map ℕ (Unit {0}) → NetMgr M
  unfolding check_login
  check_logins time_mill now_millis m [] = m
  check_logins time_mill now_millis m ((sess_id, _) ∷ rest) =
      check_logins time_mill now_millis (check_login time_mill now_millis m sess_id) rest

  unfoldable pub handle_login_timeout : (ℕ → ℕ) → ℕ → NetMgr M → NetMgr M
  unfolding check_logins
  handle_login_timeout time_mill now_millis m = check_logins time_mill now_millis m m.login_pending
