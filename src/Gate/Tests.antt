-- ===== src/Gate/Tests.antt =====
-- Concrete runs of the gate, and its theorems at concrete inputs.
use card.Prelude.{ne_of_dec, ite, ◌≡◌, refl, ◌≢◌, inl, List, [], ◌∷◌, none, some, arith, ℕ_discrete}
use card.Prelude.Int.{pos}
use card.Prelude.Map.{lookup, insert, delete}
use card.Prelude.Text.{Str, codes, str_dec, is_space, trim_left, trim_space, hex_encode}
use card.Gate.Model.{Time, AuthSession, Gamer, incoming, Result, ok, err, new_id, conn_not_found}
use card.Gate.Manager.Defs.{
  Manager, conn_at, session_at, close_locked, delete_locked, opened_gamer, opened, open_conn,
  bound_gamer, build_gamer_profile, kick_old, attach, bind_session, disconnect, close_each,
  close_all, get, stats, new_gamer_manager,
}
use card.Gate.Manager.Invariant.{IsConsistent}
use card.Gate.Manager.Reach.{
  Reach, here, then, opens, binds, Reach-IsConsistent, new-IsConsistent, single_login,
}
use card.Gate.Manager.Calls.{bind_session-kicks, disconnect_lem}
use card.Gate.Manager.Defs.{disconnect_call, run_call, run_calls}
use card.Gate.Manager.Owned.{IsOwned}
use card.Gate.Manager.Rebind.{rebind_leaks, stale_unbinds}
use card.Gate.Model.{upstream}
use card.Gate.Service.{
  AuthClient, AttachTokenInput, bind_answer, open_socket, logout, disconnect_conn, login_by_token,
}
use card.Gate.Service.Logins.{IsVouched, login_by_token-IsVouched}
use card.Gate.Sockets.{TcpRequest, Line, Response, handle_conn, handle_ws, tcp_loop, serve}
use card.Gate.Sockets.Lifetime.{handle_conn-gone, handle_ws-gone}
use mathlib.Core.List.{head?}

program : Unit {0}
unfolding lookup insert delete str_dec ℕ_discrete is_space trim_left trim_space hex_encode new_id
    close_locked delete_locked opened_gamer opened open_conn bound_gamer build_gamer_profile
    kick_old attach bind_session disconnect close_each close_all get stats new_gamer_manager
program = tt

abbrev epoch : Time
epoch = record { sec = pos 0; nsec = 0 }

abbrev nobody : Gamer
nobody = record {
  conn_id = [];
  account_id = [];
  player_id = [];
  session_id = [];
  channel = [];
  device_id = [];
  remote_addr = [];
  status = incoming;
  profile = none;
  connected_at = epoch;
  last_seen_at = epoch;
}

abbrev alice : AuthSession
alice = record {
  session_id = codes "sess_1";
  account_id = codes "acc_1";
  player_id = codes "7";
  channel = codes "guest";
  subject = codes "d";
  device_id = codes "d";
  created_at = epoch;
  expires_at = epoch;
  last_login_at = epoch;
}

abbrev start : Manager
start = new_gamer_manager (λ _. nobody)

abbrev first : Str
first = codes "conn_01"

abbrev second : Str
second = codes "conn_02"

-- Two connections; Alice logs in on the first, and then on the second.
abbrev one : Manager
one = (open_conn start [] (some 11) (some (1 ∷ [])) epoch).0

abbrev two : Manager
two = (open_conn one [] (some 12) (some (2 ∷ [])) epoch).0

abbrev three : Manager
three = (bind_session two first alice epoch).0

abbrev four : Manager
four = (bind_session three second alice epoch).0

abbrev bob : AuthSession
bob = record alice { session_id = codes "sess_2"; account_id = codes "acc_2" }

kicked : (four.closed ≡ 11 ∷ []) × (conn_at four first ≡ none) × (conn_at four second ≡ some 1)
unfolding program
kicked = (refl, refl, refl)

Reach-one : Reach start one
unfolding program
Reach-one = then here (opens [] (some 11) (some (1 ∷ [])) epoch (λ c e. refl))

Reach-two : Reach start two
unfolding program
Reach-two =
    then Reach-one
      (opens [] (some 12) (some (2 ∷ [])) epoch (λ c e. let k : c ≡ second = cc in rw k refl))

Reach-three : Reach start three
unfolding program
Reach-three =
    then Reach-two
      (binds first alice epoch (λ e. cc) (λ p e. let k : p ≡ 0 = cc in rw k (inl refl)))

Reach-four : Reach start four
unfolding program
Reach-four =
    then Reach-three
      (binds second alice epoch (λ e. cc) (λ p e. let k : p ≡ 1 = cc in rw k (inl refl)))

start-IsConsistent : IsConsistent start
start-IsConsistent = new-IsConsistent (λ _. nobody)

Reach-IsConsistent_example : IsConsistent four
Reach-IsConsistent_example = Reach-IsConsistent start-IsConsistent Reach-four

single_login_example : second ≡ second
unfolding program
single_login_example =
    single_login (λ _. nobody) four second second 1 1 Reach-four refl refl (λ e. cc) refl

three-IsConsistent : IsConsistent three
three-IsConsistent = Reach-IsConsistent start-IsConsistent Reach-three

bind_session-kicks_example :
    let m' = (bind_session three second alice epoch).0 in
    (conn_at m' first ≡ none)
    × (session_at m' (codes "sess_1") ≡ some 1)
    × (m'.closed ≡ 11 ∷ [])
    × ((d : Str) → d ≢ first → conn_at m' d ≡ conn_at three d)
unfolding program
bind_session-kicks_example =
    bind_session-kicks three second alice epoch 1 0 three-IsConsistent refl refl
      (ne_of_dec (str_dec first second) tt)

disconnect_lem_example :
    let m' = (disconnect three first).0 in
    ((disconnect three first).1 ≡ none)
    × (m'.closed ≡ 11 ∷ [])
    × (lookup str_dec first m'.closers ≡ none)
    × ((d : Str) → d ≢ first → conn_at m' d ≡ conn_at three d)
    × (disconnect m' first ≡ (m', some conn_not_found))
unfolding program
disconnect_lem_example = disconnect_lem three first 0 three-IsConsistent refl

rebind_leaks_example :
    let m' = (disconnect (bind_session three first bob epoch).0 first).0 in
    (conn_at m' first ≡ none) × (session_at m' (codes "sess_1") ≡ some 0)
unfolding program
rebind_leaks_example =
    rebind_leaks three first bob epoch 0 three-IsConsistent refl (λ e. cc)
      (ne_of_dec (str_dec (codes "sess_2") (codes "sess_1")) tt) refl

-- The first connection changes from Alice to Bob and leaves; Bob is then on the second one. A third
-- connection that takes Alice's session takes Bob's entry away.
abbrev left : Manager
left = (disconnect (bind_session three first bob epoch).0 first).0

abbrev third : Str
third = codes "conn_03"

abbrev stale : Manager
stale = (open_conn (bind_session left second bob epoch).0 [] none (some (3 ∷ [])) epoch).0

stale_unbinds_example :
    let m' = (bind_session stale third alice epoch).0 in
    (conn_at m' second ≡ some 1)
    × ((m'.heap 1).session_id ≡ codes "sess_2")
    × (session_at m' (codes "sess_2") ≡ none)
unfolding program
stale_unbinds_example =
    stale_unbinds stale second third alice epoch 1 0 2 refl (λ e. cc)
      (ne_of_dec (str_dec (codes "sess_2") (codes "sess_1")) tt)
      (ne_of_dec (str_dec first second) tt) (ne_of_dec (str_dec first third) tt) refl refl refl
      (omega arith)

-- Bob then logs in on the third connection too: two live connections hold one session.
two_logins :
    let m' = (bind_session (bind_session stale third alice epoch).0 third bob epoch).0 in
    (conn_at m' second ≡ some 1)
    × (conn_at m' third ≡ some 2)
    × ((m'.heap 1).session_id ≡ codes "sess_2")
    × ((m'.heap 2).session_id ≡ codes "sess_2")
unfolding program
two_logins = (refl, refl, refl, refl)

-- An auth client that knows Alice by the token `t`, whatever it is asked for.
abbrev asks : Unit {0} → Str → Unit {0} × Result AuthSession
asks _ s = (tt, ite (str_dec s (codes "t")) (ok alice) (err upstream))

abbrev client : AuthClient (Unit {0})
client = record {
  consume_connect_token = asks;
  consume_login_ticket = asks;
  validate_session = asks;
}

abbrev ping : TcpRequest
ping = record { op = codes "ping"; token = []; ticket = []; session_id = [] }

abbrev lines : List Line
lines =
    (some ping, [], epoch)
    ∷ (none, disconnect_call first ∷ [], epoch)
    ∷ (some (record ping { op = codes "login.token"; token = codes "t" }), [], epoch)
    ∷ []

abbrev fresh : Gamer
fresh = opened_gamer first [] epoch

start-IsOwned : IsOwned start
unfolding program
start-IsOwned c p e = cc

handle_conn-gone_example :
    conn_at (handle_conn client tt start [] 11 (some (1 ∷ [])) epoch lines).1 first ≡ none
unfolding program open_socket
handle_conn-gone_example =
    handle_conn-gone client tt start [] 11 (some (1 ∷ [])) epoch lines fresh start-IsOwned refl

handle_ws-gone_example :
    let m' = (handle_ws client tt start [] 11 (some (1 ∷ [])) epoch lines).1 in
    (conn_at m' first ≡ none) × (head? m'.closed ≡ some 11)
unfolding program open_socket
handle_ws-gone_example =
    handle_ws-gone client tt start [] 11 (some (1 ∷ [])) epoch lines fresh start-IsOwned refl

served :
    (handle_conn client tt start [] 11 (some (1 ∷ [])) epoch lines).2
    ≡ Response.connected first
      ∷ Response.pong first
      ∷ Response.invalid_json
      ∷ Response.login_failed conn_not_found
      ∷ []
unfolding program open_socket handle_conn tcp_loop serve run_calls run_call disconnect_conn logout
    login_by_token bind_answer
served = refl

abbrev token_input : AttachTokenInput
token_input = record { conn_id = codes " conn_01"; token = codes "t" }

login_by_token-IsVouched_example :
    IsVouched
      (asks tt (trim_space (codes "t")))
      (trim_space (codes " conn_01"))
      (login_by_token client tt two token_input epoch).1
      (bound_gamer fresh alice epoch)
unfolding program login_by_token bind_answer
login_by_token-IsVouched_example =
    login_by_token-IsVouched client tt two epoch (bound_gamer fresh alice epoch) token_input refl

two-IsOwned : IsOwned two
unfolding program
two-IsOwned = λ c p e. ((Reach-IsConsistent start-IsConsistent Reach-two).owned c p e)
