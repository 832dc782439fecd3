-- ===== src/Net/Manager/Ending.antt =====
-- netmgr.go: what a run leaves when the loop of the manager has ended.
use card.Prelude.{
  ℕ, ◌+◌, ◌∙◌, if◌then◌else◌, ◌≡◌, refl, Bool, true, List, [], ◌∷◌, Option, none, some, arith, ltb,
  length, if_ind, get_elem?,
}
use card.Prelude.Map.{Map}
use card.Net.Manager.Defs.{NetMgr, start_stop}
use card.Net.Manager.Tasks.{
  Env, Task, drain_tasks, stop_all_sess, Server, Event, post, loop_task, tick, stop, loop_stop,
  task_chan_size, stop_runs, login, send_task, front_inline, send_to_chan, add_task, step, run,
  on_stop_runs,
}
use card.Net.Manager.Effects.{Quiet, update-Quiet, Quiet-refl}
use card.Net.Manager.Made.{makes_all, drain_tasks-next, stop_front-IsLater}

-- The connections that are made by the time the loop has ended: those of the tasks in the channel
-- are among them, unless it had ended before.
abbrev pub made_at_end : {M : Type 0} → Server M → ℕ
made_at_end s = if s.ended then s.mgr.next else s.mgr.next + makes_all s.task_chan

module _ {M : Type 0} where
  pub stop_all_sess-next : (m : NetMgr M) (l : Map ℕ ℕ) → (stop_all_sess m l).next ≡ m.next
  unfolding stop_all_sess
  stop_all_sess-next m [] = refl
  stop_all_sess-next m ((k, q) ∷ rest) = stop_all_sess-next (start_stop m q) rest

  pub on_stop_runs-Quiet : (m : NetMgr M) (found : Option ℕ) → Quiet m (on_stop_runs m found)
  on_stop_runs-Quiet m none = Quiet-refl m
  on_stop_runs-Quiet m (some p) = update-Quiet m p _ refl refl

module _ {M : Type 0} (env : Env M) where
  -- Once the loop has ended it stays so, and no step makes a connection.
  pub record Rests (s s' : Server M) : Type 0 where
    pub over : s'.ended ≡ true
    pub next : s'.mgr.next ≡ s.mgr.next

  send-Rests :
      (s : Server M) (i : ℕ) (found : Option (Task M))
      → s.ended ≡ true
      → Rests s (send_to_chan s i found).0
  unfolding send_to_chan
  send-Rests s i none h = record { over = h; next = refl }
  send-Rests s i (some t) h =
      if_ind (λ (r : Server M × Bool). Rests s r.0) (ltb (length s.task_chan) task_chan_size)
        (λ b. record { over = h; next = refl }) (λ b. record { over = h; next = refl })

  step-Rests : (s : Server M) (e : Event M) → s.ended ≡ true → Rests s (step env s e)
  unfolding step add_task
  step-Rests s (post t) h =
      if_ind (Rests s) s.stopping (λ b. record { over = h; next = refl })
        (λ b. record { over = h; next = refl })
  step-Rests s (send_task i) h = send-Rests s i (get_elem? s.checked i) h
  step-Rests s loop_task h =
      if_ind (Rests s) s.ended (λ b. record { over = h; next = refl }) (λ b. absurd (ground arith))
  step-Rests s (tick now) h =
      if_ind (Rests s) s.ended (λ b. record { over = h; next = refl }) (λ b. absurd (ground arith))
  step-Rests s stop h = record { over = h; next = refl }
  step-Rests s loop_stop h =
      if_ind (Rests s) s.ended (λ b. record { over = h; next = refl }) (λ b. absurd (ground arith))
  step-Rests s (stop_runs i) h = record {
    over = h;
    next = (on_stop_runs-Quiet s.mgr (get_elem? s.mgr.stops i)).same_ids.next;
  }
  step-Rests s front_inline h =
      if_ind (Rests s) s.stopping (λ b. record { over = h; next = (stop_front-IsLater s.mgr).next })
        (λ b. record { over = h; next = refl })
  step-Rests s (login p gid) h = record { over = h; next = refl }

  pub run-Rests : (s : Server M) (es : List (Event M)) → s.ended ≡ true → Rests s (run env s es)
  unfolding run
  run-Rests s [] h = record { over = h; next = refl }
  run-Rests s (e ∷ es) h =
      let k = step-Rests s e h in
      let l = run-Rests (step env s e) es k.over in record { over = l.over; next = l.next ∙ k.next }

  pub record Ends (s s' : Server M) : Type 0 where
    pub over : s'.ended ≡ true
    pub next : s'.mgr.next ≡ made_at_end s

  pub loop_stop-Ends : (s : Server M) → Ends s (step env (step env s stop) loop_stop)
  unfolding step
  loop_stop-Ends s =
      if_ind (Ends s) s.ended (λ b. record { over = b; next = ground arith })
        (λ b.
          let m : NetMgr M = drain_tasks env s.mgr s.task_chan in
          let e : (stop_all_sess m m.sess_map).next ≡ s.mgr.next + makes_all s.task_chan =
            stop_all_sess-next m m.sess_map ∙ drain_tasks-next env s.mgr s.task_chan in
          record { over = refl; next = ground arith })
