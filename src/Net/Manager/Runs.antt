-- ===== src/Net/Manager/Runs.antt =====
-- Every run of the loop is a sequence of moves until it ends; what that says of all its sessions.
use card.Prelude.{
  ℕ, ◌∙◌, ◌<◌, ◌≡◌, refl, ◌≢◌, ◌⊎◌, ◌↔◌, inl, inr, Bool, true, false, List, [], ◌∷◌, Option, none,
  some, arith, ltb, length, ℕ_discrete, Bool-cases, if_ind, get_elem?,
}
use card.Prelude.Map.{Map, lookup}
use card.Net.Model.{Msgque}
use card.Net.Manager.Defs.{
  NetMgr, sess_at, start_stop, new_net_mgr, handle_login_timeout, stop_front,
}
use card.Net.Manager.Tasks.{
  Env, Task, run_task, drain_tasks, stop_all_sess, Server, Event, post, loop_task, tick, stop,
  loop_stop, task_chan_size, stop_runs, login, send_task, front_inline, front, send_to_chan,
  add_task, step, run, new_server, run_first, on_stopping,
}
use card.Net.Manager.Moves.{has}
use card.Net.Manager.Kept.{IsKept, Moves-IsKept, count_accepted}
use card.Net.Manager.Effects.{Quiet, quiet_move, update-Quiet}
use card.Net.Manager.Removals.{check_logins-Moves}
use card.Net.Manager.TaskMoves.{run_task-Moves}
use card.Net.Manager.Made.{stop_front-IsLater}
use card.Net.Manager.Ending.{
  made_at_end, stop_all_sess-next, on_stop_runs-Quiet, run-Rests, loop_stop-Ends,
}

module _ {M : Type 0} (env : Env M)
    (unique : (i j : ℕ) → env.gen_int64_id i ≡ env.gen_int64_id j → i ≡ j) where
  run_task-IsKept :
      (m : NetMgr M) (t : Task M)
      → IsKept env.gen_int64_id m
      → IsKept env.gen_int64_id (run_task env m t)
  run_task-IsKept m t v = Moves-IsKept unique (run_task-Moves env unique m t v) v

  drain_tasks-IsKept :
      (m : NetMgr M) (ts : List (Task M))
      → IsKept env.gen_int64_id m
      → IsKept env.gen_int64_id (drain_tasks env m ts)
  unfolding drain_tasks
  drain_tasks-IsKept m [] v = v
  drain_tasks-IsKept m (t ∷ ts) v = drain_tasks-IsKept (run_task env m t) ts (run_task-IsKept m t v)

  -- Until the loop ends the tables are kept; from then on every connection is being stopped.
  record IsServed (s : Server M) : Type 0 where
    running : s.ended ≡ false → IsKept env.gen_int64_id s.mgr
    over : s.ended ≡ true → (p : ℕ) → p < s.mgr.next → has p s.mgr.stops ≡ true

  stop_all_sess-has :
      (m : NetMgr M) (l : Map ℕ ℕ) (p : ℕ)
      → (has p m.stops ≡ true) ⊎ ((id : ℕ) × (lookup ℕ_discrete id l ≡ some p))
      → has p (stop_all_sess m l).stops ≡ true
  unfolding stop_all_sess lookup
  stop_all_sess-has m [] p (inl h) = h
  stop_all_sess-has m [] p (inr (id, e)) = cc
  stop_all_sess-has m ((k, q) ∷ rest) p (inl h) =
      stop_all_sess-has (start_stop m q) rest p (inl (ground arith))
  stop_all_sess-has m ((k, q) ∷ rest) p (inr (id, e)) = elim (ℕ_discrete k id) [
    | yes same ↦ stop_all_sess-has (start_stop m q) rest p (inl (ground arith))
    | no other ↦ stop_all_sess-has (start_stop m q) rest p (inr (id, ground arith))
  ]

  -- What the loop leaves when it ends.
  ended-stops :
      (m : NetMgr M) (p : ℕ)
      → IsKept env.gen_int64_id m
      → p < (stop_all_sess m m.sess_map).next
      → has p (stop_all_sess m m.sess_map).stops ≡ true
  ended-stops m p v h =
      let made : p < m.next = omega (arith, stop_all_sess-next m m.sess_map) in
      stop_all_sess-has m m.sess_map p (elim (Bool-cases (has p m.stops)) [
        | inl b ↦ inl b
        | inr b ↦ inr ((m.heap p).sess_id, v.kept p made b)
      ])

  Quiet-IsServed :
      (s : Server M) (m : NetMgr M) → IsServed s → Quiet s.mgr m → IsServed (record s { mgr = m })
  Quiet-IsServed s m v q = record {
    running = λ e. Moves-IsKept unique (quiet_move q) (v.running e);
    over = λ e p h. ground (arith, v.over e p, q.same_ids.next, q.stops);
  }

  run_first-IsServed :
      (s : Server M) (ts : List (Task M))
      → s.ended ≡ false
      → IsServed s
      → IsServed (run_first env s ts)
  run_first-IsServed s [] e v = v
  run_first-IsServed s (t ∷ ts) e v = record {
    running = λ h. run_task-IsKept s.mgr t (v.running e);
    over = λ h. absurd (ground arith);
  }

  on_stopping-IsServed :
      (s : Server M) (b : Bool) → s.ended ≡ false → IsServed s → IsServed (on_stopping env s b)
  on_stopping-IsServed s false e v = v
  on_stopping-IsServed s true e v = record {
    running = λ h. absurd (ground arith);
    over = λ h p k.
        ended-stops (drain_tasks env s.mgr s.task_chan) p
          (drain_tasks-IsKept s.mgr s.task_chan (v.running e)) k;
  }

  send-IsServed :
      (s : Server M) (i : ℕ) (found : Option (Task M))
      → IsServed s
      → IsServed (send_to_chan s i found).0
  unfolding send_to_chan
  send-IsServed s i none v = v
  send-IsServed s i (some t) v =
      if_ind (λ (r : Server M × Bool). IsServed r.0) (ltb (length s.task_chan) task_chan_size)
        (λ b. record { running = v.running; over = v.over })
        (λ b. record { running = v.running; over = v.over })

  front-IsServed : (s : Server M) → IsServed s → IsServed (record s { mgr = stop_front s.mgr })
  unfolding stop_front run_task
  front-IsServed s v = record {
    running = λ e. run_task-IsKept s.mgr front (v.running e);
    over = λ e p h.
        let k = stop_front-IsLater s.mgr in k.stops p (v.over e p (omega (arith, k.next, h)));
  }

  step-IsServed : (s : Server M) (e : Event M) → IsServed s → IsServed (step env s e)
  unfolding step add_task handle_login_timeout
  step-IsServed s (post t) v =
      if_ind IsServed s.stopping (λ b. v) (λ b. record { running = v.running; over = v.over })
  step-IsServed s (send_task i) v = send-IsServed s i (get_elem? s.checked i) v
  step-IsServed s loop_task v =
      if_ind IsServed s.ended (λ b. v) (λ b. run_first-IsServed s s.task_chan b v)
  step-IsServed s (tick now) v =
      if_ind IsServed s.ended (λ b. v)
        λ b. record {
          running = λ h.
              Moves-IsKept unique
                (check_logins-Moves env.gen_int64_id env.time_mill now s.mgr s.mgr.login_pending)
                (v.running b);
          over = λ h. absurd (ground arith);
        }
  step-IsServed s stop v = record { running = v.running; over = v.over }
  step-IsServed s loop_stop v =
      if_ind IsServed s.ended (λ b. v) (λ b. on_stopping-IsServed s s.stopping b v)
  step-IsServed s (stop_runs i) v =
      Quiet-IsServed s _ v (on_stop_runs-Quiet s.mgr (get_elem? s.mgr.stops i))
  step-IsServed s front_inline v = if_ind IsServed s.stopping (λ b. front-IsServed s v) (λ b. v)
  step-IsServed s (login p gid) v = Quiet-IsServed s _ v (update-Quiet s.mgr p _ refl refl)

  run-IsServed : (s : Server M) (es : List (Event M)) → IsServed s → IsServed (run env s es)
  unfolding run
  run-IsServed s [] v = v
  run-IsServed s (e ∷ es) v = run-IsServed (step env s e) es (step-IsServed s e v)

  new-IsServed : (heap : ℕ → Msgque M) → IsServed (new_server (new_net_mgr heap))
  unfolding new_server new_net_mgr lookup
  new-IsServed heap = record {
    running = λ h. record {
      numbered = λ p k. absurd (omega arith);
      named = λ id p e. absurd (ground arith);
      kept = λ p k. absurd (omega arith);
      apart = λ id p e. absurd (ground arith);
      old = λ p e. absurd (ground arith);
      routed = λ t i p e. absurd (ground arith);
      waiting = λ id e. absurd (e refl);
      single = tt;
      counted = refl;
    };
    over = λ h. absurd (ground arith);
  }

  -- At any time until the loop of the manager ends, a connection that was made is in the table under
  -- its identifier if and only if its `stop` was not handed on, whatever tasks were posted and run and
  -- whatever ran beside the loop: no connection is lost, and none that is in the table is being stopped.
  -- It is assumed that no two connections get one identifier.
  pub run_partition :
      (heap : ℕ → Msgque M) (es : List (Event M)) (p : ℕ)
      → let s = run env (new_server (new_net_mgr heap)) es in
        s.ended ≡ false
        → p < s.mgr.next
        → (sess_at s.mgr (env.gen_int64_id p) ≡ some p) ↔ (has p s.mgr.stops ≡ false)
  run_partition heap es p e h =
      let v = (run-IsServed (new_server (new_net_mgr heap)) es (new-IsServed heap)).running e in
      (λ k. v.apart _ p k, λ k. rw (v.numbered p h) at (v.kept p h k))

  -- Until the loop ends, the counter of accepted connections is the number of the connections in the
  -- table that came in through the listener, and who waits for a login is in the table. It is assumed
  -- that no two connections get one identifier.
  pub run-counted :
      (heap : ℕ → Msgque M) (es : List (Event M))
      → let s = run env (new_server (new_net_mgr heap)) es in
        s.ended ≡ false
        → (s.mgr.accept_sess_num ≡ count_accepted s.mgr.heap s.mgr.sess_map)
          × ((id : ℕ) → lookup ℕ_discrete id s.mgr.login_pending ≢ none → sess_at s.mgr id ≢ none)
  run-counted heap es e =
      let v = (run-IsServed (new_server (new_net_mgr heap)) es (new-IsServed heap)).running e in
      (v.counted, v.waiting)

  -- When the manager is told to stop and its loop sees that, the tasks that are in the channel are run
  -- first: the connections that were made are those that were made before and one for each of the
  -- channel's tasks that accepts or connects, and no other is made by whatever happens later, tasks that
  -- come to the channel too late included. The `stop` of every connection that was made is handed on. It
  -- is assumed that no two connections get one identifier.
  pub run-stops_all :
      (heap : ℕ → Msgque M) (es es' : List (Event M))
      → let s = run env (new_server (new_net_mgr heap)) es in
        let s' = run env (step env (step env s stop) loop_stop) es' in
        (s'.mgr.next ≡ made_at_end s) × ((p : ℕ) → p < made_at_end s → has p s'.mgr.stops ≡ true)
  unfolding run
  run-stops_all heap es es' =
      let s : Server M = run env (new_server (new_net_mgr heap)) es in
      let v =
        run-IsServed s (stop ∷ loop_stop ∷ es')
          (run-IsServed (new_server (new_net_mgr heap)) es (new-IsServed heap)) in
      let k = loop_stop-Ends env s in
      let l = run-Rests env (step env (step env s stop) loop_stop) es' k.over in
      (l.next ∙ k.next, λ p h. v.over l.over p (omega (arith, h, l.next, k.next)))
