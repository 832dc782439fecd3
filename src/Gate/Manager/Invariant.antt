-- ===== src/Gate/Manager/Invariant.antt =====
-- What holds of the manager between two calls, as long as no connection changes its session.
use card.Prelude.{
  ℕ, ◌<◌, ◌≡◌, refl, ◌∙◌, ◌≢◌, ◌⊎◌, inl, inr, if_pos, if_neg, [], Option, none, some, arith,
  Option-cases,
}
use card.Prelude.Map.{lookup, lookup-insert, lookup-delete, lookup-delete_ne, lookup-insert_self}
use card.Prelude.Text.{Str, str_dec}
use card.Gate.Model.{Time, AuthSession}
use card.Gate.Manager.Defs.{
  Manager, conn_at, session_at, close_locked, delete_locked, opened_gamer, opened, bound_gamer,
  kick_old, attach, bind_session, disconnect,
}

-- The manager is consistent: connections point to gamers that carry their identifier, the sessions
-- point to live connections that carry the session, and every login is entered among the sessions.
pub record IsConsistent (m : Manager) : Type 0 where
  pub owned : (c : Str) (p : ℕ) → conn_at m c ≡ some p → ((m.heap p).conn_id ≡ c) × (p < m.next)
  pub held :
      (s : Str) (p : ℕ)
      → session_at m s ≡ some p
      → (conn_at m (m.heap p).conn_id ≡ some p) × ((m.heap p).session_id ≡ s) × (s ≢ [])
  pub entered :
      (c : Str) (p : ℕ)
      → conn_at m c ≡ some p
      → (m.heap p).session_id ≢ []
      → session_at m (m.heap p).session_id ≡ some p
  pub closable : (c : Str) (h : ℕ) → lookup str_dec c m.closers ≡ some h → conn_at m c ≢ none

-- A gamer is live if the table of connections holds it.
abbrev pub IsLive : Manager → ℕ → Type 0
IsLive m p = conn_at m (m.heap p).conn_id ≡ some p

module _ (m : Manager) (v : IsConsistent m) where
  IsLive-of_conn : (c : Str) (p : ℕ) → conn_at m c ≡ some p → IsLive m p
  IsLive-of_conn c p e = ground (arith, v.owned c p e)

  pub close_locked-IsConsistent : (c : Str) → IsConsistent (close_locked m c)
  unfolding close_locked
  close_locked-IsConsistent c = record {
    owned = v.owned;
    held = v.held;
    entered = v.entered;
    closable = λ c' h e. ground (arith, v.closable c' h, lookup-delete str_dec c c' m.closers);
  }

  pub delete_locked-IsConsistent : (q : ℕ) → IsLive m q → IsConsistent (delete_locked m q)
  unfolding delete_locked
  delete_locked-IsConsistent q live = record {
    owned = λ c p e.
        ground (arith, v.owned c p, lookup-delete str_dec (m.heap q).conn_id c m.by_conn_id);
    held = λ s p e. ground (
      arith,
      v.held s p,
      lookup-delete str_dec (m.heap q).session_id s m.by_session,
      lookup-delete str_dec (m.heap q).conn_id (m.heap p).conn_id m.by_conn_id,
    );
    entered = λ c p e h. ground (
      arith,
      v.owned c p,
      v.entered c p,
      v.entered (m.heap q).conn_id q live,
      lookup-delete str_dec (m.heap q).conn_id c m.by_conn_id,
      lookup-delete str_dec (m.heap q).session_id (m.heap p).session_id m.by_session,
    );
    closable = λ c h e. ground (
      arith,
      lookup-delete str_dec (m.heap q).conn_id c m.by_conn_id,
      lookup-delete str_dec (m.heap q).conn_id c m.closers,
      v.closable c h,
    );
  }

  opened_closable :
      (c r : Str) (closer : Option ℕ) (now : Time) (c' : Str) (h : ℕ)
      → lookup str_dec c' (opened m c r closer now).closers ≡ some h
      → conn_at (opened m c r closer now) c' ≢ none
  unfolding opened
  opened_closable c r none now c' h e =
      ground (arith, v.closable c' h, lookup-insert str_dec c c' m.next m.by_conn_id)
  opened_closable c r (some x) now c' h e = ground (
    arith,
    v.closable c' h,
    lookup-insert str_dec c c' m.next m.by_conn_id,
    lookup-insert str_dec c c' x m.closers,
  )

  pub opened-IsConsistent :
      (c r : Str) (closer : Option ℕ) (now : Time)
      → conn_at m c ≡ none
      → IsConsistent (opened m c r closer now)
  unfolding opened opened_gamer
  opened-IsConsistent c r closer now new = record {
    owned = λ c' p e. ground (arith, v.owned c' p, lookup-insert str_dec c c' m.next m.by_conn_id);
    held = λ s p e. ground (
      arith,
      v.held s p,
      v.owned (m.heap p).conn_id p,
      lookup-insert str_dec c (m.heap p).conn_id m.next m.by_conn_id,
    );
    entered = λ c' p e h.
        ground
          (arith, v.owned c' p, v.entered c' p, lookup-insert str_dec c c' m.next m.by_conn_id);
    closable = opened_closable c r closer now;
  }

  -- `p` is the gamer of the call's connection, and no other connection holds the session.
  attach-IsConsistent :
      (c : Str) (p : ℕ) (s : AuthSession) (now : Time)
      → conn_at m c ≡ some p
      → s.session_id ≢ []
      → ((m.heap p).session_id ≡ []) ⊎ ((m.heap p).session_id ≡ s.session_id)
      → ((q : ℕ) → session_at m s.session_id ≡ some q → q ≡ p)
      → IsConsistent (attach m p s now)
  unfolding attach bound_gamer
  attach-IsConsistent c p s now e named same free = record {
    owned = λ c' q k. ground (arith, v.owned c' q);
    held = λ s' q k.
        ground
          (arith, v.held s' q, v.owned c p, lookup-insert str_dec s.session_id s' p m.by_session);
    entered = λ c' q k h. ground (
      arith,
      v.entered c' q,
      free q,
      lookup-insert str_dec s.session_id (m.heap q).session_id p m.by_session,
      lookup-insert_self str_dec s.session_id p m.by_session,
    );
    closable = v.closable;
  }

-- What the first half of `BindSession` leaves: the connection itself, and no other holder.
pub record Kicked (m m' : Manager) (c s : Str) : Type 0 where
  pub consistent : IsConsistent m'
  pub conn_kept : conn_at m' c ≡ conn_at m c
  pub heap_kept : m'.heap ≡ m.heap
  pub free : (q : ℕ) → session_at m' s ≡ some q → (m.heap q).conn_id ≡ c

pub kick_old-Kicked : (m : Manager) (c s : Str) → IsConsistent m → Kicked m (kick_old m c s) c s
unfolding kick_old close_locked delete_locked
kick_old-Kicked m c s v = elim (Option-cases (session_at m s)) [
  | inl e ↦
      rw (e, kick_old)
        (record { consistent = v; conn_kept = refl; heap_kept = refl; free = λ q k. cc })
  | inr (old, e) ↦ elim (str_dec (m.heap old).conn_id c) [
    | yes self ↦
        rw (e, kick_old, if_pos _ self)
          (record { consistent = v; conn_kept = refl; heap_kept = refl; free = λ q k. cc })
    | no other ↦
        rw (e, kick_old, if_neg _ other)
          (record {
            consistent =
                delete_locked-IsConsistent _ (close_locked-IsConsistent m v (m.heap old).conn_id)
                  old (v.held s old e).0;
            conn_kept = lookup-delete_ne str_dec (m.heap old).conn_id c m.by_conn_id other;
            heap_kept = refl;
            free = λ q k. ground (
              arith,
              v.held s old e,
              lookup-delete str_dec (m.heap old).session_id s m.by_session,
            );
          })
  ]
]

module _ (m : Manager) (c : Str) (v : IsConsistent m) where
  pub bind_session-IsConsistent :
      (s : AuthSession) (now : Time)
      → s.session_id ≢ []
      → ((p : ℕ)
          → conn_at m c ≡ some p
          → ((m.heap p).session_id ≡ []) ⊎ ((m.heap p).session_id ≡ s.session_id))
      → IsConsistent (bind_session m c s now).0
  unfolding bind_session
  bind_session-IsConsistent s now named same = elim (Option-cases (conn_at m c)) [
    | inl e ↦ rw (e, bind_session) v
    | inr (p, e) ↦
        let k = kick_old-Kicked m c s.session_id v in
        rw (e, bind_session)
          (attach-IsConsistent (kick_old m c s.session_id) k.consistent c p s now (k.conn_kept ∙ e)
            named (rw k.heap_kept (same p e))
            λ q h.
              ground
                (arith, k.free q h, k.heap_kept, k.conn_kept, k.consistent.held s.session_id q h))
  ]

  pub disconnect-IsConsistent : IsConsistent (disconnect m c).0
  unfolding disconnect close_locked
  disconnect-IsConsistent = elim (Option-cases (conn_at m c)) [
    | inl e ↦ rw (e, disconnect) v
    | inr (p, e) ↦
        rw (e, disconnect)
          (delete_locked-IsConsistent _ (close_locked-IsConsistent m v c) p
            (IsLive-of_conn m v c p e))
  ]
