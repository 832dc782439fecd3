-- ===== src/Gate/Manager/Defs.antt =====
-- manager.go: the table of connections. Both maps of the manager hold pointers to the same `Gamer`
-- objects, so the objects stand on a heap of their own. Each method holds the manager's lock for the
-- whole of its body, so a method is one step. A method that returns a clone returns the object's value.
use card.Prelude.{ℕ, ◌+◌, ite, List, [], ◌∷◌, map, Option, none, some, ℕ_discrete, length}
use card.Prelude.Int.{pos}
use card.Prelude.Map.{Map, lookup, insert, delete}
use card.Prelude.Text.{Str, codes, str_dec, parse_int64}
use card.Gate.Model.{
  Time, online, incoming, Profile, AuthSession, Gamer, GateStats, Error, conn_not_found, Result, ok,
  err, new_id,
}

-- The addresses below `next` are in use. `closed` lists the connections closed so far, the last first.
pub record Manager : Type 0 where
  pub heap : ℕ → Gamer
  pub next : ℕ
  pub by_conn_id : Map Str ℕ
  pub by_session : Map Str ℕ
  pub closers : Map Str ℕ
  pub closed : List ℕ

abbrev pub update : (ℕ → Gamer) → ℕ → Gamer → ℕ → Gamer
update h p g q = ite (ℕ_discrete p q) g (h q)

unfoldable pub new_gamer_manager : (ℕ → Gamer) → Manager
new_gamer_manager h = record {
  heap = h;
  next = 0;
  by_conn_id = [];
  by_session = [];
  closers = [];
  closed = [];
}

-- `byConnID`, `bySession` and `closers` by key.
abbrev pub conn_at : Manager → Str → Option ℕ
conn_at m c = lookup str_dec c m.by_conn_id

abbrev pub session_at : Manager → Str → Option ℕ
session_at m s = lookup str_dec s m.by_session

unfoldable pub close_locked : Manager → Str → Manager
close_locked m conn_id =
    let found : Option ℕ = lookup str_dec conn_id m.closers in
    record m {
      closers = elim found [ none ↦ m.closers | some _ ↦ delete str_dec conn_id m.closers ];
      closed = elim found [ none ↦ m.closed | some closer ↦ closer ∷ m.closed ];
    }

unfoldable pub delete_locked : Manager → ℕ → Manager
delete_locked m gamer = record m {
  by_conn_id = delete str_dec (m.heap gamer).conn_id m.by_conn_id;
  by_session =
      ite (str_dec (m.heap gamer).session_id []) m.by_session
        (delete str_dec (m.heap gamer).session_id m.by_session);
  closers = delete str_dec (m.heap gamer).conn_id m.closers;
}

unfoldable pub opened_gamer : Str → Str → Time → Gamer
opened_gamer conn_id remote_addr now = record {
  conn_id = conn_id;
  account_id = [];
  player_id = [];
  session_id = [];
  channel = [];
  device_id = [];
  remote_addr = remote_addr;
  status = incoming;
  profile = none;
  connected_at = now;
  last_seen_at = now;
}

-- What `Open` does once it has its identifier.
unfoldable pub opened : Manager → Str → Str → Option ℕ → Time → Manager
opened m conn_id remote_addr closer now = record m {
  heap = update m.heap m.next (opened_gamer conn_id remote_addr now);
  next = m.next + 1;
  by_conn_id = insert str_dec conn_id m.next m.by_conn_id;
  closers = elim closer [ none ↦ m.closers | some c ↦ insert str_dec conn_id c m.closers ];
}

-- `random` is what the random source gives.
unfoldable pub open_conn :
    Manager → Str → Option ℕ → Option (List ℕ) → Time → Manager × Result Gamer
open_conn m remote_addr closer random now = elim (new_id (codes "conn") random) [
  | err e ↦ (m, err e)
  | ok conn_id ↦
      (opened m conn_id remote_addr closer now, ok (opened_gamer conn_id remote_addr now))
]

unfoldable pub build_gamer_profile : AuthSession → Profile
build_gamer_profile s =
    let profile : Profile = record {
      id = pos 0;
      account = s.account_id;
      session = s.session_id;
      login_time = s.last_login_at.sec;
    } in
    ite (str_dec s.player_id []) profile (elim (parse_int64 s.player_id) [
      | none ↦ profile
      | some player_id ↦ record profile { id = player_id }
    ])

-- The assignments of `BindSession` to the gamer.
unfoldable pub bound_gamer : Gamer → AuthSession → Time → Gamer
bound_gamer g s now = record g {
  account_id = s.account_id;
  player_id = s.player_id;
  session_id = s.session_id;
  channel = s.channel;
  device_id = s.device_id;
  status = online;
  last_seen_at = now;
  profile = some (build_gamer_profile s);
}

-- The first half of `BindSession`: another connection that holds the session is closed and dropped.
unfoldable pub kick_old : Manager → Str → Str → Manager
kick_old m conn_id session_id = elim (lookup str_dec session_id m.by_session) [
  | none ↦ m
  | some old ↦
      ite (str_dec (m.heap old).conn_id conn_id) m
        (delete_locked (close_locked m (m.heap old).conn_id) old)
]

-- The second half, for the gamer at address `p`.
unfoldable pub attach : Manager → ℕ → AuthSession → Time → Manager
attach m p s now = record m {
  heap = update m.heap p (bound_gamer (m.heap p) s now);
  by_session = insert str_dec s.session_id p m.by_session;
}

unfoldable pub bind_session : Manager → Str → AuthSession → Time → Manager × Result Gamer
bind_session m conn_id s now = elim (lookup str_dec conn_id m.by_conn_id) [
  | none ↦ (m, err conn_not_found)
  | some p ↦
      let m' = kick_old m conn_id s.session_id in
      (attach m' p s now, ok (bound_gamer (m'.heap p) s now))
]

-- The error is `none` where the method returns nil.
unfoldable pub disconnect : Manager → Str → Manager × Option Error
disconnect m conn_id = elim (lookup str_dec conn_id m.by_conn_id) [
  | none ↦ (m, some conn_not_found)
  | some p ↦ (delete_locked (close_locked m conn_id) p, none)
]

-- The loop of `CloseAll`. Go fixes no order of the keys; the list's order stands for any.
unfoldable pub close_each : Manager → Map Str ℕ → Manager
close_each m [] = m
close_each m ((conn_id, _) ∷ rest) = close_each (close_locked m conn_id) rest

unfoldable pub close_all : Manager → Manager
close_all m = record (close_each m m.by_conn_id) { by_conn_id = []; by_session = []; closers = [] }

unfoldable pub get : Manager → Str → Result Gamer
get m conn_id = elim (lookup str_dec conn_id m.by_conn_id) [
  | none ↦ err conn_not_found
  | some p ↦ ok (m.heap p)
]

unfoldable pub list : Manager → List Gamer
list m = map (λ e. m.heap e.1) m.by_conn_id

unfoldable pub stats : Manager → GateStats
stats m = record { connections = length m.by_conn_id; sessions = length m.by_session }

-- A call of the manager, with what the environment gives it.
pub data Call : Type 0 where
  open_call : Str → Option ℕ → Option (List ℕ) → Time → Call
  bind_call : Str → AuthSession → Time → Call
  disconnect_call : Str → Call
  close_all_call : Call

unfoldable pub run_call : Manager → Call → Manager
run_call m (open_call r closer random now) = (open_conn m r closer random now).0
run_call m (bind_call conn_id s now) = (bind_session m conn_id s now).0
run_call m (disconnect_call conn_id) = (disconnect m conn_id).0
run_call m close_all_call = close_all m

unfoldable pub run_calls : Manager → List Call → Manager
run_calls m [] = m
run_calls m (c ∷ cs) = run_calls (run_call m c) cs
