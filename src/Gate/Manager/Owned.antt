-- ===== src/Gate/Manager/Owned.antt =====
-- What holds of the table of connections after any calls, in any order.
use card.Prelude.{ℕ, ◌<◌, ◌≡◌, inl, inr, List, [], ◌∷◌, Option, none, some, arith, Option-cases}
use card.Prelude.Map.{lookup, lookup-insert, lookup-delete, lookup-delete_self}
use card.Prelude.Text.{Str, codes, str_dec}
use card.Gate.Model.{Time, AuthSession, Result-cases, new_id}
use card.Gate.Manager.Defs.{
  Manager, conn_at, session_at, close_locked, delete_locked, opened_gamer, opened, open_conn,
  bound_gamer, kick_old, attach, bind_session, disconnect, close_all, Call, open_call, bind_call,
  disconnect_call, close_all_call, run_call, run_calls,
}
use card.Gate.Manager.Calls.{
  kick_old-found, kick_old_self, kick_old-free, disconnect-found, disconnect-missing,
}

-- Each connection points to a gamer that carries its identifier, at an address in use.
abbrev pub IsOwned : Manager → Type 0
IsOwned m = (c : Str) (p : ℕ) → conn_at m c ≡ some p → ((m.heap p).conn_id ≡ c) × (p < m.next)

module _ (m : Manager) (v : IsOwned m) where
  delete_locked-IsOwned : (c : Str) (q : ℕ) → IsOwned (delete_locked (close_locked m c) q)
  unfolding delete_locked close_locked
  delete_locked-IsOwned c q d p e =
      ground (arith, v d p, lookup-delete str_dec (m.heap q).conn_id d m.by_conn_id)

  kick_old-IsOwned : (c s : Str) → IsOwned (kick_old m c s)
  kick_old-IsOwned c s = elim (Option-cases (session_at m s)) [
    | inl e ↦ rw (kick_old-free m c s e) v
    | inr (old, e) ↦ elim (str_dec (m.heap old).conn_id c) [
      | yes self ↦ rw (kick_old_self m c s old e self) v
      | no other ↦
          rw (kick_old-found m c s old e other) (delete_locked-IsOwned (m.heap old).conn_id old)
    ]
  ]

  attach-IsOwned : (p : ℕ) (s : AuthSession) (now : Time) → IsOwned (attach m p s now)
  unfolding attach bound_gamer
  attach-IsOwned p s now c q e = ground (arith, v c q)

  pub disconnect-IsOwned : (c : Str) → IsOwned (disconnect m c).0
  disconnect-IsOwned c = elim (Option-cases (conn_at m c)) [
    | inl e ↦ rw (disconnect-missing m c e) v
    | inr (p, e) ↦ rw (disconnect-found m c p e) (delete_locked-IsOwned c p)
  ]

  -- After `Disconnect` the connection is not in the table, whether it was there or not.
  pub disconnect-gone : (c : Str) → conn_at (disconnect m c).0 c ≡ none
  unfolding delete_locked close_locked
  disconnect-gone c = elim (Option-cases (conn_at m c)) [
    | inl e ↦ rw (disconnect-missing m c e) e
    | inr (p, e) ↦
        rw (disconnect-found m c p e) (rw ((v c p e).0) (lookup-delete_self str_dec c m.by_conn_id))
  ]

  pub open_conn-IsOwned :
      (r : Str) (closer : Option ℕ) (random : Option (List ℕ)) (now : Time)
      → IsOwned (open_conn m r closer random now).0
  unfolding open_conn opened opened_gamer
  open_conn-IsOwned r closer random now = elim (Result-cases (new_id (codes "conn") random)) [
    | inl (c, e) ↦
        rw (e, open_conn)
          (λ d p k. ground (arith, v d p, lookup-insert str_dec c d m.next m.by_conn_id))
    | inr (_, e) ↦ rw (e, open_conn) v
  ]

pub bind_session-IsOwned :
    (m : Manager)
    → IsOwned m
    → (c : Str) (s : AuthSession) (now : Time) → IsOwned (bind_session m c s now).0
unfolding bind_session
bind_session-IsOwned m v c s now = elim (Option-cases (conn_at m c)) [
  | inl e ↦ rw (e, bind_session) v
  | inr (p, e) ↦
      rw (e, bind_session) (attach-IsOwned _ (kick_old-IsOwned m v c s.session_id) p s now)
]

run_call-IsOwned : (m : Manager) → IsOwned m → (k : Call) → IsOwned (run_call m k)
unfolding run_call close_all lookup
run_call-IsOwned m v (open_call r closer random now) = open_conn-IsOwned m v r closer random now
run_call-IsOwned m v (bind_call c s now) = bind_session-IsOwned m v c s now
run_call-IsOwned m v (disconnect_call c) = disconnect-IsOwned m v c
run_call-IsOwned m v close_all_call = λ c p e. cc

pub run_calls-IsOwned : (m : Manager) → IsOwned m → (ks : List Call) → IsOwned (run_calls m ks)
unfolding run_calls
run_calls-IsOwned m v [] = v
run_calls-IsOwned m v (k ∷ ks) = run_calls-IsOwned (run_call m k) (run_call-IsOwned m v k) ks
