-- ===== src/Net/Manager/Moves.antt =====
-- What a task may do to the tables: nothing, take a connection out and start its `stop`, or enter
-- a new one. Every task is a sequence of such moves.
use card.Prelude.{
  ℕ, ◌+◌, ◌-◌, ◌<◌, ◌≡◌, refl, ap, ◌∙◌, ◌≢◌, ◌⊎◌, inl, ite, Bool, true, false, ◌||◌, List, [], ◌∷◌,
  none, some, arith, if◌then◌else◌, ◌==◌, ℕ_discrete,
}
use card.Prelude.Int.{ℤ}
use card.Prelude.Map.{lookup, insert, delete}
use card.Prelude.Text.{Str}
use card.Net.Model.{is_accept}
use card.Net.Manager.Defs.{NetMgr, sess_at, svr_at}

-- Whether `stop` of a connection was handed on.
abbrev pub has : ℕ → List ℕ → Bool
has p [] = false
has p (q ∷ qs) = q == p || has p qs

module _ {M : Type 0} where
  -- No connection changes its identifier or its type, and servers are led to connections that were made.
  pub record SameIds (m m' : NetMgr M) : Type 0 where
    pub ids : (q : ℕ) → (m'.heap q).sess_id ≡ (m.heap q).sess_id
    pub types : (q : ℕ) → (m'.heap q).conn_typ ≡ (m.heap q).conn_typ
    pub next : m'.next ≡ m.next
    pub routes :
        (t : Str) (i : ℤ) (q : ℕ) → svr_at m' t i ≡ some q → (svr_at m t i ≡ some q) ⊎ (q < m.next)

  pub record Same (m m' : NetMgr M) : Type 0 where
    pub same_ids : SameIds m m'
    pub table : m'.sess_map ≡ m.sess_map
    pub stops : m'.stops ≡ m.stops
    pub num : m'.accept_sess_num ≡ m.accept_sess_num
    pub pending :
        (i : ℕ)
        → lookup ℕ_discrete i m'.login_pending ≢ none
        → lookup ℕ_discrete i m.login_pending ≢ none

  pub record Takes (m m' : NetMgr M) (id p : ℕ) : Type 0 where
    pub same_ids : SameIds m m'
    pub found : sess_at m id ≡ some p
    pub table : m'.sess_map ≡ delete ℕ_discrete id m.sess_map
    pub stops : m'.stops ≡ p ∷ m.stops
    pub num :
        m'.accept_sess_num
        ≡ (if is_accept (m.heap p).conn_typ then m.accept_sess_num - 1 else m.accept_sess_num)
    pub pending :
        (i : ℕ)
        → lookup ℕ_discrete i m'.login_pending
          ≡ ite (ℕ_discrete id i) none (lookup ℕ_discrete i m.login_pending)

  -- `stop` is started once more, for a connection that a server still leads to.
  pub record Again (m m' : NetMgr M) (p : ℕ) : Type 0 where
    pub same_ids : SameIds m m'
    pub table : m'.sess_map ≡ m.sess_map
    pub stops : m'.stops ≡ p ∷ m.stops
    pub started : has p m.stops ≡ true
    pub num : m'.accept_sess_num ≡ m.accept_sess_num
    pub pending : m'.login_pending ≡ m.login_pending

  pub record Adds (gen : ℕ → ℕ) (m m' : NetMgr M) : Type 0 where
    pub ids : (q : ℕ) → q ≢ m.next → (m'.heap q).sess_id ≡ (m.heap q).sess_id
    pub types : (q : ℕ) → q ≢ m.next → (m'.heap q).conn_typ ≡ (m.heap q).conn_typ
    pub next : m'.next ≡ m.next + 1
    pub agents : m'.sess_agent ≡ m.sess_agent
    pub numbered : (m'.heap m.next).sess_id ≡ gen m.next
    pub table : m'.sess_map ≡ insert ℕ_discrete (gen m.next) m.next m.sess_map
    pub stops : m'.stops ≡ m.stops
    pub num :
        m'.accept_sess_num
        ≡ (if is_accept (m'.heap m.next).conn_typ then m.accept_sess_num + 1 else m.accept_sess_num)
    pub pending :
        (i : ℕ)
        → lookup ℕ_discrete i m'.login_pending ≢ none
        → (gen m.next ≡ i) ⊎ (lookup ℕ_discrete i m.login_pending ≢ none)

  pub data Moves (gen : ℕ → ℕ) : NetMgr M → NetMgr M → Type 0 where
    done : {m : NetMgr M} → Moves gen m m
    stays : {m m' m'' : NetMgr M} → Same m m' → Moves gen m' m'' → Moves gen m m''
    takes : {m m' m'' : NetMgr M} (id p : ℕ) → Takes m m' id p → Moves gen m' m'' → Moves gen m m''
    again : {m m' m'' : NetMgr M} (p : ℕ) → Again m m' p → Moves gen m' m'' → Moves gen m m''
    adds : {m m' m'' : NetMgr M} → Adds gen m m' → Moves gen m' m'' → Moves gen m m''

  pub Moves-trans : {gen : ℕ → ℕ} {a b c : NetMgr M} → Moves gen a b → Moves gen b c → Moves gen a c
  Moves-trans done k = k
  Moves-trans (stays s h) k = stays s (Moves-trans h k)
  Moves-trans (takes id p t h) k = takes id p t (Moves-trans h k)
  Moves-trans (again p t h) k = again p t (Moves-trans h k)
  Moves-trans (adds s h) k = adds s (Moves-trans h k)

  pub Same-refl : (m : NetMgr M) → Same m m
  Same-refl m = record {
    same_ids = record {
      ids = λ q. refl;
      types = λ q. refl;
      next = refl;
      routes = λ t i q e. inl e;
    };
    table = refl;
    stops = refl;
    num = refl;
    pending = λ i h. h;
  }

  pub SameIds-trans : {a b c : NetMgr M} → SameIds a b → SameIds b c → SameIds a c
  SameIds-trans h k = record {
    ids = λ q. k.ids q ∙ h.ids q;
    types = λ q. k.types q ∙ h.types q;
    next = k.next ∙ h.next;
    routes = λ t i q e. ground (arith, k.routes t i q e, h.routes t i q, h.next);
  }

  -- A move after which nothing more changes but the agents and the servers.
  pub Takes-Same :
      {a b c : NetMgr M} (id p : ℕ)
      → Takes a b id p
      → Same b c
      → c.login_pending ≡ b.login_pending
      → Takes a c id p
  Takes-Same id p h k e = record {
    same_ids = SameIds-trans h.same_ids k.same_ids;
    found = h.found;
    table = k.table ∙ h.table;
    stops = k.stops ∙ h.stops;
    num = k.num ∙ h.num;
    pending = λ i. ap (lookup ℕ_discrete i) e ∙ h.pending i;
  }
