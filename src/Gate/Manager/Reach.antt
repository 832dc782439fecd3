-- ===== src/Gate/Manager/Reach.antt =====
-- Sequences of the manager's calls, and that a session has one connection at most.
use card.Prelude.{ℕ, ◌≡◌, ◌≢◌, ◌⊎◌, inl, inr, List, [], Option, none, some, arith}
use card.Prelude.Map.{lookup}
use card.Prelude.Text.{Str, codes}
use card.Gate.Model.{Time, AuthSession, Gamer, ok, new_id, Result-cases}
use card.Gate.Manager.Defs.{
  Manager, conn_at, open_conn, bind_session, disconnect, close_all, new_gamer_manager,
}
use card.Gate.Manager.Invariant.{
  IsConsistent, opened-IsConsistent, bind_session-IsConsistent, disconnect-IsConsistent,
}

-- A call of the manager. `Open` gets an identifier that no connection has; a session has a name, and
-- no connection that is logged in takes another session.
pub data Step (m : Manager) : Manager → Type 0 where
  opens :
      (r : Str) (closer : Option ℕ) (random : Option (List ℕ)) (now : Time)
      → ((c : Str) → new_id (codes "conn") random ≡ ok c → conn_at m c ≡ none)
      → Step m (open_conn m r closer random now).0
  binds :
      (c : Str) (s : AuthSession) (now : Time)
      → s.session_id ≢ []
      → ((p : ℕ)
          → conn_at m c ≡ some p
          → ((m.heap p).session_id ≡ []) ⊎ ((m.heap p).session_id ≡ s.session_id))
      → Step m (bind_session m c s now).0
  disconnects : (c : Str) → Step m (disconnect m c).0
  closes_all : Step m (close_all m)

pub data Reach (m : Manager) : Manager → Type 0 where
  here : Reach m m
  then : {n o : Manager} → Reach m n → Step n o → Reach m o

pub new-IsConsistent : (h : ℕ → Gamer) → IsConsistent (new_gamer_manager h)
unfolding new_gamer_manager lookup
new-IsConsistent h = record {
  owned = λ c p e. cc;
  held = λ s p e. cc;
  entered = λ c p e k. cc;
  closable = λ c p e. cc;
}

close_all-IsConsistent : (m : Manager) → IsConsistent (close_all m)
unfolding close_all lookup
close_all-IsConsistent m = record {
  owned = λ c p e. cc;
  held = λ s p e. cc;
  entered = λ c p e k. cc;
  closable = λ c p e. cc;
}

open_conn-IsConsistent :
    (m : Manager) (r : Str) (closer : Option ℕ) (random : Option (List ℕ)) (now : Time)
    → IsConsistent m
    → ((c : Str) → new_id (codes "conn") random ≡ ok c → conn_at m c ≡ none)
    → IsConsistent (open_conn m r closer random now).0
unfolding open_conn
open_conn-IsConsistent m r closer random now v new =
    elim (Result-cases (new_id (codes "conn") random)) [
      | inl (c, e) ↦ rw (e, open_conn) (opened-IsConsistent m v c r closer now (new c e))
      | inr (_, e) ↦ rw (e, open_conn) v
    ]

Step-IsConsistent : {m n : Manager} → IsConsistent m → Step m n → IsConsistent n
Step-IsConsistent {m} v (opens r closer random now new) =
    open_conn-IsConsistent m r closer random now v new
Step-IsConsistent {m} v (binds c s now named same) =
    bind_session-IsConsistent m c v s now named same
Step-IsConsistent {m} v (disconnects c) = disconnect-IsConsistent m c v
Step-IsConsistent {m} v closes_all = close_all-IsConsistent m

-- Every sequence of calls from a consistent manager leaves it consistent, if each new connection has
-- a fresh identifier, each session has a name and no connection that is logged in takes another one.
pub Reach-IsConsistent : {m n : Manager} → IsConsistent m → Reach m n → IsConsistent n
Reach-IsConsistent v here = v
Reach-IsConsistent v (then r s) = Step-IsConsistent (Reach-IsConsistent v r) s

-- After any sequence of the calls Open, BindSession, Disconnect and CloseAll on a new manager, two
-- connections in the table that carry the same session, which is not the empty one, are one connection:
-- as long as each connection that is opened gets an identifier that is not in the table, each session
-- that is bound has a name, and no connection that is logged in is bound to another session, which
-- BindSession itself does not refuse.
pub single_login :
    (h : ℕ → Gamer) (m : Manager) (c d : Str) (p q : ℕ)
    → Reach (new_gamer_manager h) m
    → conn_at m c ≡ some p
    → conn_at m d ≡ some q
    → (m.heap p).session_id ≢ []
    → (m.heap p).session_id ≡ (m.heap q).session_id
    → c ≡ d
single_login h m c d p q r e f named same =
    let v = Reach-IsConsistent (new-IsConsistent h) r in
    ground (arith, v.owned c p e, v.owned d q f, v.entered c p e named, v.entered d q f)
