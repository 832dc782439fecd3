-- ===== src/Net/Tests.antt =====
-- Runs of the connections, and the theorems at concrete inputs.
use card.Prelude.{
  length, ◌<◌, ℕ, ◌+◌, ◌*◌, ◌≡◌, ◌≢◌, ◌↔◌, refl, true, false, List, [], ◌∷◌, some, none, arith,
  ℕ_discrete, ◌++◌, get_elem?,
}
use card.Prelude.Int.{pos, negsuc, ◌≤ℤ◌}
use card.Prelude.Map.{lookup, insert, delete}
use card.Prelude.Text.{Str, codes, str_dec}
use card.Net.Options.{
  NetCfg, NetOptions, new_msg_que_options, set_net_cfg, check_options, check_connect_params,
  check_listen_params, check_given, or_else, set_net_cfg-IsUsable, set_listen_params,
  new_listen_params, min_read_size,
}
use card.Net.Agent.{add_clt_remote, add_clt_user, clone_snap, get_svr_agt}
use card.Net.Model.{Msgque, new_tcp_connect, new_tcp_accept}
use card.Net.Framing.Defs.{
  Reader, Outcome, kept, failed, stuck, new_read_state, read_from_conn, ensure_frame_capacity,
  length_part, head_part, body_part, round, shift_rest, consume_loop, consume_read_buffer,
  read_loop,
}
use card.Net.Framing.Room.{Ends, read_loop-Ends}
use card.Net.Delay.{reset, delays, ArePauses, reset-delays}
use card.Net.Writing.{Message, Writer, Connection, write, sent, queued_by, write-sends_all}
use card.Net.Accept.{handle_accept_conn, panics, set_options, set_options_panics}
use card.Net.Manager.Stale.{register_sess_leaks}
use card.Net.Manager.Defs.{
  NetMgr, svr_at, register_sess, new_net_mgr, sess_at, handle_login_timeout, add_sess,
  track_login_pending, delete_sess, delete_found, clear_login_pending, remove_session, take_out,
}
use card.Net.Manager.Tasks.{
  login, Env, accepted, connected, remove, Event, post, loop_task, stop, loop_stop, run, step,
  send_task, send_to_chan, add_task, run_task, accept_task, connect_task, allocate, new_server,
  Server, drain_tasks, stop_all_sess,
}
use card.Net.Manager.Moves.{has}
use card.Net.Manager.Kept.{count_accepted}
use card.Net.Manager.Ending.{made_at_end}
use card.Net.Manager.Runs.{run_partition, run-counted, run-stops_all}
use card.Net.Manager.Logins.{MayWait, Fate, pending_at, handle_login_timeout_lem}

abbrev env : Env ℕ
env = record {
  gen_int64_id = λ n. n + 7;
  time_mill = λ id. id * 1000;
  can_reconnect = λ params. false;
  on_new_msg_que = λ mq. true;
}

unique : (i j : ℕ) → env.gen_int64_id i ≡ env.gen_int64_id j → i ≡ j
unique i j e = omega arith

abbrev unmade : ℕ → Msgque ℕ
unmade n = new_tcp_connect 0 0 none

-- Two clients come in, a server is connected, and the first client is removed.
abbrev events : List (Event ℕ)
events =
    post (accepted 4 none none (codes "a"))
    ∷ send_task 0
    ∷ loop_task
    ∷ post (accepted 4 none none (codes "b"))
    ∷ post (connected 4 none)
    ∷ send_task 0
    ∷ send_task 0
    ∷ loop_task
    ∷ loop_task
    ∷ post (remove 7)
    ∷ send_task 0
    ∷ loop_task
    ∷ []

abbrev served : Server ℕ
served = run env (new_server (new_net_mgr unmade)) events

served_ends :
    (served.mgr.stops ≡ 0 ∷ [])
    × (served.mgr.next ≡ 3)
    × ((run env (step env (step env served stop) loop_stop) (loop_task ∷ [])).mgr.next ≡ 3)
unfolding run step add_task send_to_chan run_task accept_task connect_task allocate add_sess
    track_login_pending new_server new_net_mgr remove_session take_out delete_sess delete_found
    clear_login_pending lookup insert delete ℕ_discrete new_tcp_accept new_tcp_connect str_dec
    get_svr_agt add_clt_remote drain_tasks stop_all_sess
served_ends = (refl, refl, refl)

run_partition_example : (sess_at served.mgr 8 ≡ some 1) ↔ (has 1 served.mgr.stops ≡ false)
unfolding run step add_task send_to_chan new_server
run_partition_example = run_partition env unique unmade events 1 refl (omega (arith, served_ends.1))

run-counted_example :
    (served.mgr.accept_sess_num ≡ count_accepted served.mgr.heap served.mgr.sess_map)
    × ((id : ℕ)
        → lookup ℕ_discrete id served.mgr.login_pending ≢ none
        → sess_at served.mgr id ≢ none)
unfolding run step add_task send_to_chan new_server
run-counted_example = run-counted env unique unmade events refl

-- A client is in the channel when the loop sees the stop, and another comes to it too late.
abbrev waiting : Server ℕ
waiting =
    run env (new_server (new_net_mgr unmade)) (
      events
      ++ post (accepted 4 none none (codes "c")) ∷ send_task 0 ∷ post (connected 4 none) ∷ [])

abbrev stopped : Server ℕ
stopped = run env (step env (step env waiting stop) loop_stop) (send_task 0 ∷ loop_task ∷ [])

waiting_made : (made_at_end waiting ≡ 4) × (length stopped.task_chan ≡ 1)
unfolding run step add_task send_to_chan run_task accept_task connect_task allocate add_sess
    track_login_pending new_server new_net_mgr remove_session take_out delete_sess delete_found
    clear_login_pending lookup insert delete ℕ_discrete new_tcp_accept new_tcp_connect str_dec
    get_svr_agt add_clt_remote drain_tasks stop_all_sess
waiting_made = (refl, refl)

run-stops_all_example :
    (stopped.mgr.next ≡ made_at_end waiting)
    × ((p : ℕ) → p < made_at_end waiting → has p stopped.mgr.stops ≡ true)
run-stops_all_example =
    run-stops_all env unique unmade
      (events
        ++ post (accepted 4 none none (codes "c")) ∷ send_task 0 ∷ post (connected 4 none) ∷ [])
      (send_task 0 ∷ loop_task ∷ [])

handle_login_timeout_lem_example :
    ((id : ℕ)
      → pending_at (handle_login_timeout env.time_mill 99000 served.mgr) id ≢ none
      → MayWait env.time_mill 99000 (handle_login_timeout env.time_mill 99000 served.mgr) id)
    × ((id p : ℕ)
        → sess_at served.mgr id ≡ some p
        → Fate env.time_mill 99000 served.mgr
            (handle_login_timeout env.time_mill 99000 served.mgr)
            served.mgr.login_pending
            id
            p)
handle_login_timeout_lem_example = handle_login_timeout_lem env.time_mill 99000 served.mgr

abbrev listening : Str → NetOptions
listening addr = set_listen_params new_msg_que_options (some (new_listen_params addr))

abbrev cfg : NetCfg
cfg = record {
  clt_read_timeout = pos 30;
  clt_read_buffer_size = pos 12;
  clt_write_buffer_size = pos 0;
  clt_write_chan_size = negsuc 3;
  clt_enable_dh = true;
  compress = true;
  compress_mode = pos 1;
  compress_limit = pos 0;
  delay_write = pos 2;
}

set_net_cfg-IsUsable_example :
    (min_read_size ≤ℤ (set_net_cfg new_msg_que_options (some cfg)).read_size)
    × (pos 1 ≤ℤ (set_net_cfg new_msg_que_options (some cfg)).write_size)
    × (pos 1 ≤ℤ (set_net_cfg new_msg_que_options (some cfg)).write_chan_size)
    × (pos 1 ≤ℤ (set_net_cfg new_msg_que_options (some cfg)).compress_limit)
    × (check_options (set_net_cfg new_msg_que_options (some cfg))
        ≡ or_else
            (check_given check_connect_params new_msg_que_options.connect_params)
            (check_given check_listen_params new_msg_que_options.listen_params))
set_net_cfg-IsUsable_example = set_net_cfg-IsUsable new_msg_que_options cfg

out_of : {H : Type 0} → Outcome H → List (H × List ℕ)
out_of (kept s out) = out
out_of (failed out) = out
out_of stuck = []

-- A head is its one byte, the length of the body.
abbrev reader : Reader ℕ
reader = record {
  new_message_head = λ n bytes. get_elem? bytes 0;
  body_len = λ h. pos h;
  process_msg = λ h body. true;
  read_size = 4096;
  is_internal_conn = false;
}

-- A frame that comes in three pieces, and one without a body.
read_pieces :
    (out_of (
      read_loop reader
        (new_read_state 4096)
        ((0 ∷ []) ∷ (1 ∷ 2 ∷ 65 ∷ []) ∷ (66 ∷ 0 ∷ 1 ∷ 0 ∷ []) ∷ [])))
    ≡ (2, 65 ∷ 66 ∷ []) ∷ (0, []) ∷ []
unfolding read_loop read_from_conn new_read_state consume_read_buffer consume_loop round length_part
    head_part body_part ensure_frame_capacity shift_rest out_of
read_pieces = refl

read_loop-Ends_example :
    Ends reader
      (read_loop reader (new_read_state 4096) ((0 ∷ []) ∷ (1 ∷ 2 ∷ 65 ∷ []) ∷ (66 ∷ []) ∷ []))
read_loop-Ends_example = read_loop-Ends reader ((0 ∷ []) ∷ (1 ∷ 2 ∷ 65 ∷ []) ∷ (66 ∷ []) ∷ [])

reset-delays_example :
    ArePauses 5
      ((40, true) ∷ (1, false) ∷ (40, true) ∷ [])
      (delays (reset (pos 5) (pos 2)) ((40, true) ∷ (1, false) ∷ (40, true) ∷ [])).1
reset-delays_example =
    reset-delays 5 (pos 2) ((40, true) ∷ (1, false) ∷ (40, true) ∷ []) (omega arith)

abbrev message : ℕ → Message ℕ
message n = record {
  head = n;
  broad = false;
  compressed = false;
  body_len = 1;
  bytes = some (n ∷ []);
}

abbrev writer : Writer ℕ
writer = record {
  has_opt = true;
  is_internal_conn = false;
  compress = true;
  compress_mode = pos 0;
  compress_limit = pos 100;
  snappy_compress = λ bytes. bytes;
  gzip_compress = λ bytes. bytes;
  encode = λ m. some (m.head ∷ []);
}

abbrev idle : Connection writer
idle = record {
  cwrite = [];
  wire = [];
  delay_ctrl = reset (pos 5) (pos 10);
  last_write_batch = 0;
  pauses = [];
}

abbrev turns : List (List (Message ℕ) × List (Message ℕ))
turns = (message 1 ∷ message 2 ∷ [], message 3 ∷ []) ∷ ([], message 4 ∷ []) ∷ []

write-sends_all_example :
    (r' : Connection writer) × (write writer idle turns ≡ some r')
    × (r'.wire
        ≡ []
          ++ sent writer
              (λ m. m.head ∷ [])
              (λ m. refl)
              ([] ++ queued_by writer (λ m. m.head ∷ []) (λ m. refl) turns))
    × (r'.cwrite ≡ [])
write-sends_all_example = write-sends_all writer (λ m. m.head ∷ []) (λ m. refl) idle turns

set_options_panics_example :
    handle_accept_conn (set_options (listening (codes "host")) none) 0 none true ≡ panics
set_options_panics_example = set_options_panics (listening (codes "host")) none 0 none true

-- The client on the second connection has logged in.
abbrev logged_in : NetMgr ℕ
logged_in = (run env (new_server (new_net_mgr unmade)) (events ++ login 1 (pos 42) ∷ [])).mgr

register_sess_leaks_example :
    let m' = remove_session (register_sess logged_in (codes "logic") (pos 1) 8) 8 in
    (svr_at m' (codes "logic") (pos 1) ≡ some 1) × (sess_at m' 8 ≡ none) × (has 1 m'.stops ≡ true)
unfolding run step add_task send_to_chan run_task accept_task connect_task allocate add_sess
    track_login_pending new_server new_net_mgr remove_session take_out delete_sess delete_found
    clear_login_pending lookup insert delete ℕ_discrete new_tcp_accept new_tcp_connect str_dec
    get_svr_agt add_clt_remote add_clt_user clone_snap
register_sess_leaks_example =
    register_sess_leaks logged_in (codes "logic") (pos 1) 8 1 (clone_snap (logged_in.heap 1).agt)
      refl refl refl refl
