-- ===== src/Net/Manager/Effects.antt =====
-- What the helpers of the manager do to the tables, in terms of moves.
use card.Prelude.{
  ℕ, ◌-◌, ◌<◌, ◌≡◌, refl, ap, sym, ◌∙◌, ◌⊎◌, inl, inr, ite, Bool, true, false, [], ◌∷◌, Option,
  none, some, arith, if◌then◌else◌, ℕ_discrete, Option-cases, Bool-cases, ite_ind,
}
use card.Prelude.Int.{ℤ, pos, leb_ℤ, ℤ_discrete}
use card.Prelude.Map.{Map, lookup, insert, delete, lookup-insert, lookup-delete}
use card.Prelude.Text.{Str, str_dec}
use card.Net.Options.{ConnectParams}
use card.Net.Agent.{get_svr_agt}
use card.Net.Model.{is_accept, Msgque}
use card.Net.Manager.Defs.{
  NetMgr, update, sess_at, svr_at, svr_in, delete_sess, dec_sess_agent, find_svr, start_stop,
  inc_sess_agent, clear_login_pending, take_out, delete_svr, reconnect_with_new_mq,
}
use card.Net.Manager.Moves.{
  SameIds, SameIds-trans, Same, Same-refl, Takes, Moves, Again, has, done, stays, takes,
}

lookup-empty : (j : ℤ) → lookup {V = ℕ} ℤ_discrete j [] ≡ none
unfolding lookup
lookup-empty j = refl

module _ {M : Type 0} where
  -- Nothing changes but agents, servers and queues.
  pub record Quiet (m m' : NetMgr M) : Type 0 where
    pub same_ids : SameIds m m'
    pub table : m'.sess_map ≡ m.sess_map
    pub stops : m'.stops ≡ m.stops
    pub num : m'.accept_sess_num ≡ m.accept_sess_num
    pub pending : m'.login_pending ≡ m.login_pending

  -- The connection is taken out of the table; its `stop` is started later.
  pub record Drops (m m' : NetMgr M) (id p : ℕ) : Type 0 where
    pub same_ids : SameIds m m'
    pub found : sess_at m id ≡ some p
    pub table : m'.sess_map ≡ delete ℕ_discrete id m.sess_map
    pub stops : m'.stops ≡ m.stops
    pub num :
        m'.accept_sess_num
        ≡ (if is_accept (m.heap p).conn_typ then m.accept_sess_num - 1 else m.accept_sess_num)
    pub pending :
        (i : ℕ)
        → lookup ℕ_discrete i m'.login_pending
          ≡ ite (ℕ_discrete id i) none (lookup ℕ_discrete i m.login_pending)

  pub Quiet-Same : {m m' : NetMgr M} → Quiet m m' → Same m m'
  Quiet-Same q = record {
    same_ids = q.same_ids;
    table = q.table;
    stops = q.stops;
    num = q.num;
    pending = λ i h. rw (← q.pending) h;
  }

  pub SameIds-refl : (m : NetMgr M) → SameIds m m
  SameIds-refl m = (Same-refl m).same_ids

  pub Quiet-refl : (m : NetMgr M) → Quiet m m
  Quiet-refl m = record {
    same_ids = SameIds-refl m;
    table = refl;
    stops = refl;
    num = refl;
    pending = refl;
  }

  pub Quiet-trans : {a b c : NetMgr M} → Quiet a b → Quiet b c → Quiet a c
  Quiet-trans h k = record {
    same_ids = SameIds-trans h.same_ids k.same_ids;
    table = k.table ∙ h.table;
    stops = k.stops ∙ h.stops;
    num = k.num ∙ h.num;
    pending = k.pending ∙ h.pending;
  }

  pub Drops-stop :
      {a b c : NetMgr M} {id p : ℕ} → Drops a b id p → Quiet b c → Takes a (start_stop c p) id p
  Drops-stop {id = id} {p = p} d q = record {
    same_ids = record {
      ids = (SameIds-trans d.same_ids q.same_ids).ids;
      types = (SameIds-trans d.same_ids q.same_ids).types;
      next = (SameIds-trans d.same_ids q.same_ids).next;
      routes = (SameIds-trans d.same_ids q.same_ids).routes;
    };
    found = d.found;
    table = q.table ∙ d.table;
    stops = ap (λ l. p ∷ l) (q.stops ∙ d.stops);
    num = q.num ∙ d.num;
    pending = λ i. ap (lookup ℕ_discrete i) q.pending ∙ d.pending i;
  }

  pub Quiet-Drops : {a b c : NetMgr M} {id p : ℕ} → Quiet a b → Drops b c id p → Drops a c id p
  Quiet-Drops {id = id} {p = p} q d = record {
    same_ids = SameIds-trans q.same_ids d.same_ids;
    found = ap (lookup ℕ_discrete id) (sym q.table) ∙ d.found;
    table = d.table ∙ ap (delete ℕ_discrete id) q.table;
    stops = d.stops ∙ q.stops;
    num = ground (arith, d.num, q.num, q.same_ids.types p);
    pending = λ i. ground (arith, d.pending i, q.pending);
  }

  pub delete_sess-Drops :
      (m : NetMgr M) (id p : ℕ) → sess_at m id ≡ some p → Drops m (delete_sess m id) id p
  unfolding delete_sess
  delete_sess-Drops m id p e =
      rw (e, delete_sess)
        (record {
          same_ids = record {
            ids = λ q. refl;
            types = λ q. refl;
            next = refl;
            routes = λ t i q e. inl e;
          };
          found = e;
          table = refl;
          stops = refl;
          num = refl;
          pending = λ i. lookup-delete ℕ_discrete id i m.login_pending;
        })

  pub delete_sess_absent : (m : NetMgr M) (id : ℕ) → sess_at m id ≡ none → delete_sess m id ≡ m
  unfolding delete_sess
  delete_sess_absent m id e = rw (e, delete_sess)

  pub Quiet-Again :
      {a b : NetMgr M} {p : ℕ} → has p a.stops ≡ true → Quiet a b → Again a (start_stop b p) p
  Quiet-Again {p = p} h q = record {
    same_ids = record {
      ids = q.same_ids.ids;
      types = q.same_ids.types;
      next = q.same_ids.next;
      routes = q.same_ids.routes;
    };
    table = q.table;
    stops = ap (λ l. p ∷ l) q.stops;
    started = h;
    num = q.num;
    pending = q.pending;
  }

  -- A change of the servers alone.
  pub agents-Quiet :
      (m : NetMgr M) (servers : Map Str (Map ℤ ℕ))
      → ((t : Str) (i : ℤ) (q : ℕ)
          → svr_in (lookup str_dec t servers) i ≡ some q
          → (svr_at m t i ≡ some q) ⊎ (q < m.next))
      → Quiet m (record m { sess_agent = servers })
  agents-Quiet m servers h = record {
    same_ids = record { ids = λ q. refl; types = λ q. refl; next = refl; routes = h };
    table = refl;
    stops = refl;
    num = refl;
    pending = refl;
  }

  pub removed-Quiet :
      (m : NetMgr M) (t : Str) (i : ℤ) (svrs : Map ℤ ℕ)
      → lookup str_dec t m.sess_agent ≡ some svrs
      → Quiet m (record m { sess_agent = insert str_dec t (delete ℤ_discrete i svrs) m.sess_agent })
  removed-Quiet m t i svrs e = agents-Quiet m _ λ u j q k. ground (
    arith,
    lookup-insert str_dec t u (delete ℤ_discrete i svrs) m.sess_agent,
    lookup-delete ℤ_discrete i j svrs,
  )

  pub inc_sess_agent-Quiet :
      (m : NetMgr M) (t : Str) (i : ℤ) (p : ℕ) → p < m.next → Quiet m (inc_sess_agent m t i p)
  unfolding inc_sess_agent
  inc_sess_agent-Quiet m t i p h = elim (Option-cases (lookup str_dec t m.sess_agent)) [
    | inl e ↦ rw e (
        agents-Quiet m _ λ u j q k. ground (
          arith,
          lookup-insert str_dec t u (insert ℤ_discrete i p []) m.sess_agent,
          lookup-insert ℤ_discrete i j p [],
          lookup-empty j,
        ))
    | inr (svrs, e) ↦ rw e (
        agents-Quiet m _ λ u j q k. ground (
          arith,
          lookup-insert str_dec t u (insert ℤ_discrete i p svrs) m.sess_agent,
          lookup-insert ℤ_discrete i j p svrs,
        ))
  ]

  pub dec_sess_agent-Quiet : (m : NetMgr M) (t : Str) (id : ℕ) → Quiet m (dec_sess_agent m t id)
  unfolding dec_sess_agent
  dec_sess_agent-Quiet m t id = elim (Option-cases (lookup str_dec t m.sess_agent)) [
    | inl e ↦ rw (e, dec_sess_agent) (Quiet-refl m)
    | inr (svrs, e) ↦ elim (Bool-cases (leb_ℤ (pos 0) (find_svr m.heap svrs id))) [
      | inl b ↦ rw (e, dec_sess_agent) (rw b (removed-Quiet m t _ svrs e))
      | inr b ↦ rw (e, dec_sess_agent) (rw b (Quiet-refl m))
    ]
  ]

  pub delete_svr-Quiet : (m : NetMgr M) (t : Str) (i : ℤ) → Quiet m (delete_svr m t i)
  delete_svr-Quiet m t i = elim (Option-cases (lookup str_dec t m.sess_agent)) [
    | inl e ↦ rw (e, delete_svr) (Quiet-refl m)
    | inr (svrs, e) ↦ rw (e, delete_svr) (removed-Quiet m t i svrs e)
  ]

  -- A connection is written over by one with its identifier and its type.
  pub update-Quiet :
      (m : NetMgr M) (p : ℕ) (mq : Msgque M)
      → mq.sess_id ≡ (m.heap p).sess_id
      → mq.conn_typ ≡ (m.heap p).conn_typ
      → Quiet m (record m { heap = update m.heap p mq })
  update-Quiet m p mq e f = record {
    same_ids = record {
      ids = λ q. ground arith;
      types = λ q. ground arith;
      next = refl;
      routes = λ t i q e. inl e;
    };
    table = refl;
    stops = refl;
    num = refl;
    pending = refl;
  }

  pub take_out-Takes :
      (m : NetMgr M) (id p : ℕ) → sess_at m id ≡ some p → Takes m (take_out m id p) id p
  unfolding take_out
  take_out-Takes m id p e = Drops-stop (delete_sess-Drops m id p e) (
      ite_ind (Quiet (delete_sess m id))
        (str_dec (get_svr_agt ((delete_sess m id).heap p).agt).0 []) (Quiet-refl (delete_sess m id))
        (dec_sess_agent-Quiet (delete_sess m id) _ id))

  pub clear-Same : (m : NetMgr M) (id : ℕ) → Same m (clear_login_pending m id)
  unfolding clear_login_pending
  clear-Same m id = record {
    same_ids = record {
      ids = λ q. refl;
      types = λ q. refl;
      next = refl;
      routes = λ t i q e. inl e;
    };
    table = refl;
    stops = refl;
    num = refl;
    pending = λ i h. ground (arith, lookup-delete ℕ_discrete id i m.login_pending);
  }

  pub reconnects-Quiet :
      (m : NetMgr M) (again : Bool) (params : Option ConnectParams)
      → Quiet m (if again then reconnect_with_new_mq m params else m)
  reconnects-Quiet m false params = Quiet-refl m
  reconnects-Quiet m true none = Quiet-refl m
  reconnects-Quiet m true (some params) = record {
    same_ids = record {
      ids = λ q. refl;
      types = λ q. refl;
      next = refl;
      routes = λ t i q e. inl e;
    };
    table = refl;
    stops = refl;
    num = refl;
    pending = refl;
  }

  pub one_move : {gen : ℕ → ℕ} {m m' : NetMgr M} (id p : ℕ) → Takes m m' id p → Moves gen m m'
  one_move id p t = takes id p t done

  pub quiet_move : {gen : ℕ → ℕ} {m m' : NetMgr M} → Quiet m m' → Moves gen m m'
  quiet_move q = stays (Quiet-Same q) done
