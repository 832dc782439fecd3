-- ===== src/Gate/Manager/Rebind.antt =====
-- What happens when a connection that is logged in takes another session: `BindSession` does not drop
-- the connection's entry under its old session.
use card.Prelude.{ℕ, ◌≡◌, ◌≢◌, [], none, some, arith}
use card.Prelude.Map.{insert, delete, lookup-insert, lookup-delete, lookup-delete_self}
use card.Prelude.Text.{Str, str_dec}
use card.Gate.Model.{Time, AuthSession}
use card.Gate.Manager.Defs.{
  Manager, conn_at, session_at, close_locked, delete_locked, bound_gamer, attach, bind_session,
  disconnect,
}
use card.Gate.Manager.Invariant.{IsConsistent}
use card.Gate.Manager.Calls.{bind_session-found, kick_old-found, kick_old-free, disconnect-found}

-- A connection that holds one session and logs in with another, free one leaves, once it
-- disconnects, an entry of its first session that points to a connection which is gone.
pub rebind_leaks :
    (m : Manager) (c : Str) (s : AuthSession) (now : Time) (p : ℕ)
    → IsConsistent m
    → conn_at m c ≡ some p
    → (m.heap p).session_id ≢ []
    → s.session_id ≢ (m.heap p).session_id
    → session_at m s.session_id ≡ none
    → let m' = (disconnect (bind_session m c s now).0 c).0 in
      (conn_at m' c ≡ none) × (session_at m' (m.heap p).session_id ≡ some p)
unfolding attach bound_gamer close_locked delete_locked
rebind_leaks m c s now p v e named new free =
    rw
      (
        bind_session-found m c s now p e,
        kick_old-free m c s.session_id free,
        disconnect-found (attach m p s now) c p e,
      )
      (
        ground (
          arith,
          v.owned c p e,
          v.entered c p e named,
          lookup-delete_self str_dec c m.by_conn_id,
        ),
        ground (
          arith,
          v.entered c p e named,
          lookup-insert str_dec s.session_id (m.heap p).session_id p m.by_session,
          lookup-delete str_dec s.session_id (m.heap p).session_id
              (insert str_dec s.session_id p m.by_session),
        ),
      )

-- While an entry of one session points to a gamer that is gone and last held a second session, a
-- login to the first session takes away the entry of the second, although its connection is live.
pub stale_unbinds :
    (m : Manager) (c d : Str) (s : AuthSession) (now : Time) (p q r : ℕ)
    → session_at m s.session_id ≡ some q
    → (m.heap q).session_id ≢ []
    → (m.heap q).session_id ≢ s.session_id
    → (m.heap q).conn_id ≢ c
    → (m.heap q).conn_id ≢ d
    → conn_at m c ≡ some p
    → (m.heap p).session_id ≡ (m.heap q).session_id
    → conn_at m d ≡ some r
    → p ≢ r
    → let m' = (bind_session m d s now).0 in
      (conn_at m' c ≡ some p)
      × ((m'.heap p).session_id ≡ (m.heap q).session_id)
      × (session_at m' (m.heap q).session_id ≡ none)
unfolding attach bound_gamer close_locked delete_locked
stale_unbinds m c d s now p q r e named other gone_c gone_d at_c holds at_d apart =
    rw (bind_session-found m d s now r at_d, kick_old-found m d s.session_id q e gone_d)
      (
        ground (arith, lookup-delete str_dec (m.heap q).conn_id c m.by_conn_id),
        ground arith,
        ground (
          arith,
          lookup-insert str_dec s.session_id (m.heap q).session_id r
              (delete str_dec (m.heap q).session_id m.by_session),
          lookup-delete_self str_dec (m.heap q).session_id m.by_session,
        ),
      )
