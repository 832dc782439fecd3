-- ===== src/Gate/Manager/Calls.antt =====
-- What each call of the manager does to the tables, and what a later call reads.
use mathlib.Core.List.{Mem, mem-cons_self, mem-cons_of_mem}
use card.Prelude.{
  ℕ, ◌≡◌, refl, ◌≢◌, inl, inr, List, [], ◌∷◌, Option, none, some, arith, Option-cases,
}
use card.Prelude.Map.{
  Map, lookup, lookup-delete, lookup-delete_self, lookup-delete_ne, lookup-insert_self,
}
use card.Prelude.Text.{Str, codes, str_dec}
use card.Gate.Model.{Time, AuthSession, Gamer, conn_not_found, ok, new_id, Result-cases}
use card.Gate.Manager.Defs.{
  Manager, conn_at, session_at, close_locked, delete_locked, opened, opened_gamer, open_conn,
  bound_gamer, kick_old, attach, bind_session, disconnect, close_each, close_all, get, stats,
}
use card.Gate.Manager.Invariant.{IsConsistent}

-- The connections closed once the closer of `c` is, if it has one.
abbrev pub closed_with : Manager → Str → List ℕ
closed_with m c = elim (lookup str_dec c m.closers) [
  | none ↦ m.closed
  | some closer ↦ closer ∷ m.closed
]

pub bind_session-found :
    (m : Manager) (c : Str) (s : AuthSession) (now : Time) (p : ℕ)
    → conn_at m c ≡ some p
    → bind_session m c s now ≡ (
      attach (kick_old m c s.session_id) p s now,
      ok (bound_gamer ((kick_old m c s.session_id).heap p) s now),
    )
unfolding bind_session
bind_session-found m c s now p e = rw (e, bind_session)

pub kick_old-found :
    (m : Manager) (c s : Str) (old : ℕ)
    → session_at m s ≡ some old
    → (m.heap old).conn_id ≢ c
    → kick_old m c s ≡ delete_locked (close_locked m (m.heap old).conn_id) old
unfolding kick_old
kick_old-found m c s old e other = rw (e, kick_old) (ground arith)

pub kick_old_self :
    (m : Manager) (c s : Str) (old : ℕ)
    → session_at m s ≡ some old
    → (m.heap old).conn_id ≡ c
    → kick_old m c s ≡ m
unfolding kick_old
kick_old_self m c s old e self = rw (e, kick_old) (ground arith)

pub kick_old-free : (m : Manager) (c s : Str) → session_at m s ≡ none → kick_old m c s ≡ m
unfolding kick_old
kick_old-free m c s e = rw (e, kick_old)

-- The first half of `BindSession` leaves the gamers and the connection of the call.
pub kick_old-keeps :
    (m : Manager) (c s : Str)
    → (conn_at (kick_old m c s) c ≡ conn_at m c) × ((kick_old m c s).heap ≡ m.heap)
unfolding delete_locked close_locked
kick_old-keeps m c s = elim (Option-cases (session_at m s)) [
  | inl e ↦ rw (kick_old-free m c s e) (refl, refl)
  | inr (old, e) ↦ elim (str_dec (m.heap old).conn_id c) [
    | yes self ↦ rw (kick_old_self m c s old e self) (refl, refl)
    | no other ↦
        rw (kick_old-found m c s old e other)
          (lookup-delete_ne str_dec (m.heap old).conn_id c m.by_conn_id other, refl)
  ]
]

pub disconnect-found :
    (m : Manager) (c : Str) (p : ℕ)
    → conn_at m c ≡ some p
    → disconnect m c ≡ (delete_locked (close_locked m c) p, none)
unfolding disconnect
disconnect-found m c p e = rw (e, disconnect)

pub disconnect-missing :
    (m : Manager) (c : Str) → conn_at m c ≡ none → disconnect m c ≡ (m, some conn_not_found)
unfolding disconnect
disconnect-missing m c e = rw (e, disconnect)

-- A login whose session another connection holds closes that connection and takes it out of the
-- table, gives the session to the new connection, and leaves every other connection in the table.
pub bind_session-kicks :
    (m : Manager) (c : Str) (s : AuthSession) (now : Time) (p old : ℕ)
    → IsConsistent m
    → conn_at m c ≡ some p
    → session_at m s.session_id ≡ some old
    → (m.heap old).conn_id ≢ c
    → let m' = (bind_session m c s now).0 in
      (conn_at m' (m.heap old).conn_id ≡ none)
      × (session_at m' s.session_id ≡ some p)
      × (m'.closed ≡ closed_with m (m.heap old).conn_id)
      × ((d : Str) → d ≢ (m.heap old).conn_id → conn_at m' d ≡ conn_at m d)
unfolding attach close_locked delete_locked
bind_session-kicks m c s now p old v e f other =
    rw (bind_session-found m c s now p e, kick_old-found m c s.session_id old f other)
      (
        lookup-delete_self str_dec (m.heap old).conn_id m.by_conn_id,
        lookup-insert_self str_dec s.session_id p _,
        refl,
        λ d ne. lookup-delete_ne str_dec (m.heap old).conn_id d m.by_conn_id (λ k. ne (cc)),
      )

-- What `BindSession` answers is what `Get` reads afterwards.
pub get-bind_session :
    (m : Manager) (c : Str) (s : AuthSession) (now : Time) (g : Gamer)
    → (bind_session m c s now).1 ≡ ok g
    → get (bind_session m c s now).0 c ≡ ok g
unfolding bind_session get attach
get-bind_session m c s now g = elim (Option-cases (conn_at m c)) [
  | inl e ↦ rw (e, bind_session) (λ h. cc)
  | inr (p, e) ↦
      let k = kick_old-keeps m c s.session_id in
      rw (e, bind_session) (λ h. rw (k.0, e, get) (ground arith))
]

-- What `Open` answers is what `Get` reads afterwards, under the identifier of the answer.
pub get-open_conn :
    (m : Manager) (r : Str) (closer : Option ℕ) (random : Option (List ℕ)) (now : Time) (g : Gamer)
    → (open_conn m r closer random now).1 ≡ ok g
    → get (open_conn m r closer random now).0 g.conn_id ≡ ok g
unfolding open_conn get opened opened_gamer
get-open_conn m r closer random now g = elim (Result-cases (new_id (codes "conn") random)) [
  | inl (c, e) ↦
      rw (e, open_conn) (λ h. ground (arith, lookup-insert_self str_dec c m.next m.by_conn_id))
  | inr (_, e) ↦ rw (e, open_conn) (λ h. cc)
]

-- `Disconnect` of a connection in the table closes it, takes it out of the table with its closer,
-- and leaves the others; a second call finds nothing.
pub disconnect_lem :
    (m : Manager) (c : Str) (p : ℕ)
    → IsConsistent m
    → conn_at m c ≡ some p
    → let m' = (disconnect m c).0 in
      ((disconnect m c).1 ≡ none)
      × (m'.closed ≡ closed_with m c)
      × (lookup str_dec c m'.closers ≡ none)
      × ((d : Str) → d ≢ c → conn_at m' d ≡ conn_at m d)
      × (disconnect m' c ≡ (m', some conn_not_found))
unfolding close_locked delete_locked
disconnect_lem m c p v e =
    let same = (v.owned c p e).0 in
    rw (disconnect-found m c p e) (
      refl,
      refl,
      rw same (lookup-delete_self str_dec c (close_locked m c).closers),
      λ d ne. rw same (lookup-delete_ne str_dec c d m.by_conn_id (λ k. ne (cc))),
      disconnect-missing _ c (rw same (lookup-delete_self str_dec c m.by_conn_id)),
    )

-- `closeLocked` keeps what is closed, closes the connection's closer, and keeps the other closers.
module _ (m : Manager) (c : Str) (h : ℕ) where
  mem-close_locked : Mem h m.closed → Mem h (close_locked m c).closed
  unfolding close_locked
  mem-close_locked k = elim (Option-cases (lookup str_dec c m.closers)) [
    | inl e ↦ rw (e, close_locked) k
    | inr (x, e) ↦ rw (e, close_locked) (mem-cons_of_mem x k)
  ]

  close_locked-closes : lookup str_dec c m.closers ≡ some h → Mem h (close_locked m c).closed
  unfolding close_locked
  close_locked-closes e = rw (e, close_locked) mem-cons_self

  close_locked-others :
      (d : Str)
      → lookup str_dec d m.closers ≡ some h
      → c ≢ d
      → lookup str_dec d (close_locked m c).closers ≡ some h
  unfolding close_locked
  close_locked-others d e other = ground (arith, lookup-delete str_dec c d m.closers)

-- The loop of `CloseAll` keeps what is closed, and closes the closer of each connection of its list.
mem-close_each :
    (m : Manager) (l : Map Str ℕ) (h : ℕ) → Mem h m.closed → Mem h (close_each m l).closed
unfolding close_each
mem-close_each m [] h k = k
mem-close_each m ((c, p) ∷ l) h k = mem-close_each (close_locked m c) l h (mem-close_locked m c h k)

close_each-closes :
    (m : Manager) (l : Map Str ℕ) (c : Str) (h : ℕ)
    → lookup str_dec c m.closers ≡ some h
    → lookup str_dec c l ≢ none
    → Mem h (close_each m l).closed
unfolding close_each lookup
close_each-closes m [] c h e live = absurd (live refl)
close_each-closes m ((d, p) ∷ l) c h e live = elim (str_dec d c) [
  | yes same ↦ mem-close_each (close_locked m d) l h (close_locked-closes m d h (rw same e))
  | no other ↦
      close_each-closes (close_locked m d) l c h (close_locked-others m d h c e other)
        (ground arith)
]

-- `CloseAll` closes every closer that the manager holds, and leaves no connection and no session.
pub close_all_lem :
    (m : Manager)
    → IsConsistent m
    → ((c : Str) (h : ℕ) → lookup str_dec c m.closers ≡ some h → Mem h (close_all m).closed)
      × (stats (close_all m) ≡ record { connections = 0; sessions = 0 })
unfolding close_all stats
close_all_lem m v = (λ c h e. close_each-closes m m.by_conn_id c h e (v.closable c h e), refl)
