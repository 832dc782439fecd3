-- ===== src/Auth/Tests.antt =====
-- Concrete runs of the auth service, and its theorems at concrete inputs.
use card.Prelude.{ap, ◌≡◌, refl, ◌≢◌, ◌⊎◌, List, [], ◌∷◌, Option, none, some, ne_of_dec, ℕ_discrete}
use card.Prelude.Int.{pos, ◌+ℤ◌}
use card.Prelude.Map.{lookup, insert, delete}
use card.Prelude.Text.{Str, codes, str_dec, is_space, trim_left, trim_space, hex_encode}
use card.Gate.Model.{Time}
use card.Auth.Model.{
  AccountBinding, Session, LoginInput, LoginResult, Result, ok, err, internal, invalid_argument,
  new_id, add_time,
}
use card.Auth.Accounts.{
  find_or_create_binding, upsert_account, binding_filter, binding_update, account_update,
  decode_binding, decode_account, text_field, instant_field,
}
use card.Auth.Repository.{
  session_key, account_session_key, login_ticket_key, connect_token_key, save_session, save_over,
  current_session, save_commands, get_session, save_ticket, save_token, consume_ticket,
  consume_token,
}
use card.Auth.Service.{
  Randoms, login, login_normal, login_bound, save_login, login_session, login_ticket, login_token,
  login_result, normalize_login_input, validate_login_input, consume_login_ticket,
  consume_connect_token, validate_session, redeem_ticket, redeem_token,
}
use card.Auth.Conflict.{login-internal}
use card.Auth.Sessions.{IsLive}
use card.Auth.Saving.{IsSaved, save_session-IsSaved, overlapping_saves, overlapping_saves-both}
use card.Auth.Redeem.{Gives, login_bound-redeems}
use card.Auth.Tickets.{IsRefused}
use card.Auth.Calls.{Call, login_call, ticket_call, token_call, validate_call, run_call, run_calls}
use card.Auth.Histories.{run_calls-one_session}
use card.Auth.Once.{consume_login_ticket-once}
use card.Gate.Http.{post_method}
use card.Auth.Handler.{handle_consume_ticket, session_data, write_api_success}
use card.Auth.Statuses.{handle_consume_ticket-session}
use card.Auth.Example.{
  strict-IsSound, Memory, value_at, memory_redis, lenient, strict, strict-Refuses, lenient-IsSound,
  lenient-IsSeparate,
}

abbrev now : Time
now = record { sec = pos 100; nsec = 0 }

abbrev guest : LoginInput
guest = record { channel = codes "guest"; subject = []; device_id = codes " d1 " }

abbrev dice : Randoms
dice = record {
  account = some (1 ∷ []);
  session = some (2 ∷ []);
  ticket = some (3 ∷ []);
  token = some (4 ∷ []);
}

program : Unit {0}
unfolding lookup insert delete str_dec ℕ_discrete is_space trim_left trim_space hex_encode new_id
    add_time ◌+ℤ◌ find_or_create_binding upsert_account binding_filter binding_update account_update
    decode_binding decode_account text_field instant_field session_key account_session_key
    login_ticket_key connect_token_key save_session save_over current_session save_commands
    get_session save_ticket save_token consume_ticket consume_token login login_normal login_bound
    save_login login_session login_ticket login_token login_result normalize_login_input
    validate_login_input consume_login_ticket consume_connect_token validate_session redeem_ticket
    redeem_token
program = tt

abbrev after_login : Memory
unfolding program
after_login = (login lenient guest now dice []).0

abbrev login_answer : LoginResult
login_answer = record {
  account_id = codes "acc_01";
  player_id = [];
  session_id = codes "sess_02";
  login_ticket = codes "lt_03";
  connect_token = codes "ct_04";
  session_expires_at = record { sec = pos 86500; nsec = 0 };
  ticket_expires_at = record { sec = pos 160; nsec = 0 };
  connect_expires_at = record { sec = pos 400; nsec = 0 };
  session_ttl_seconds = 86400;
  ticket_ttl_seconds = 60;
  connect_ttl_seconds = 300;
}

guest-login : login lenient guest now dice [] ≡ (after_login, ok login_answer)
unfolding program
guest-login = refl

-- The binding of a guest that MongoDB holds already, and the login from there on.
abbrev guest_binding : AccountBinding
guest_binding = record {
  account_id = codes "acc_01";
  channel = codes "guest";
  subject = codes "d1";
  device_id = codes "d1";
  created_at = now;
  updated_at = now;
  last_login_at = now;
}

abbrev bound_login : Memory
unfolding program
bound_login = (login_bound strict now dice guest_binding []).0

guest-bound : login_bound strict now dice guest_binding [] ≡ (bound_login, ok login_answer)
unfolding program
guest-bound = refl

login_bound-redeems_example :
    (s : Session) × (s.session_id ≡ login_answer.session_id)
    × (s.account_id ≡ login_answer.account_id)
    × Gives strict value_at s (consume_login_ticket strict login_answer.login_ticket bound_login).1
    × Gives strict value_at s
        (consume_connect_token strict login_answer.connect_token bound_login).1
    × Gives strict value_at s (validate_session strict login_answer.session_id bound_login).1
login_bound-redeems_example =
    login_bound-redeems strict value_at now dice guest_binding [] bound_login login_answer
      strict-IsSound guest-bound

login-internal_example :
    ((validate_login_input (normalize_login_input strict.to_lower guest) ≡ err invalid_argument)
      × (login strict guest now dice [] ≡ ([], err invalid_argument)))
    ⊎ ((validate_login_input (normalize_login_input strict.to_lower guest) ≡ ok tt)
        × ((login strict guest now dice []).1 ≡ err internal))
login-internal_example = login-internal strict guest now dice [] strict-Refuses

abbrev session_a : Session
session_a = record {
  session_id = codes "sess_a";
  account_id = codes "acc_01";
  player_id = [];
  channel = codes "guest";
  subject = codes "d1";
  device_id = codes "d1";
  created_at = now;
  expires_at = now;
  last_login_at = now;
}

abbrev session_b : Session
session_b = record session_a { session_id = codes "sess_b" }

abbrev after_save : Memory
unfolding program
after_save = (save_session memory_redis lenient.sessions session_a 60 after_login).0

saved_a : save_session memory_redis lenient.sessions session_a 60 after_login ≡ (after_save, ok tt)
unfolding program
saved_a = refl

save_session-IsSaved_example :
    IsSaved memory_redis value_at lenient.sessions after_login session_a after_save
save_session-IsSaved_example =
    save_session-IsSaved memory_redis value_at lenient.sessions after_login after_save session_a 60
      lenient-IsSound.redis_laws lenient-IsSound.session_trips saved_a

abbrev after_overlap : Memory
unfolding program overlapping_saves
after_overlap =
    (overlapping_saves memory_redis value_at lenient.sessions session_a session_b 60 []).0

overlapped :
    overlapping_saves memory_redis value_at lenient.sessions session_a session_b 60 []
    ≡ (after_overlap, ok tt)
unfolding program overlapping_saves
overlapped = refl

a_ne_b : session_a.session_id ≢ session_b.session_id
unfolding str_dec ℕ_discrete
a_ne_b = ne_of_dec (str_dec session_a.session_id session_b.session_id) tt

a_filled : session_a.session_id ≢ []
a_filled e = cc

a_new : value_at [] (account_session_key session_a.account_id) ≢ some session_a.session_id
unfolding lookup
a_new e = cc

overlapping_saves-both_example :
    IsLive lenient.sessions (value_at after_overlap) session_a.session_id session_a
    × IsLive lenient.sessions (value_at after_overlap) session_b.session_id session_b
overlapping_saves-both_example =
    overlapping_saves-both memory_redis value_at lenient.sessions [] after_overlap session_a
      session_b 60 lenient-IsSound.redis_laws lenient-IsSound.session_trips refl a_ne_b a_filled
      a_new overlapped

abbrev other_dice : Randoms
other_dice = record {
  account = some (5 ∷ []);
  session = some (6 ∷ []);
  ticket = some (7 ∷ []);
  token = some (8 ∷ []);
}

abbrev calls : List Call
calls =
    ticket_call (codes "lt_03")
    ∷ login_call guest now other_dice
    ∷ validate_call (codes "sess_06")
    ∷ token_call (codes "ct_04")
    ∷ []

abbrev given : Session
given = record {
  session_id = codes "sess_02";
  account_id = codes "acc_01";
  player_id = [];
  channel = codes "guest";
  subject = codes "d1";
  device_id = codes "d1";
  created_at = now;
  expires_at = record { sec = pos 86500; nsec = 0 };
  last_login_at = now;
}

first_use : (consume_login_ticket lenient (codes "lt_03") after_login).1 ≡ ok given
unfolding program
first_use = refl

abbrev answer_text : Result Str → Str
answer_text (ok s) = s
answer_text (err e) = []

draws_other : new_id (codes "lt") other_dice.ticket ≢ ok (trim_space (codes "lt_03"))
unfolding program
draws_other e = ne_of_dec (str_dec (codes "lt_07") (codes "lt_03")) tt (ap answer_text e)

consume_login_ticket-once_example :
    IsRefused lenient value_at
      (consume_login_ticket lenient
        (codes "lt_03")
        (run_calls lenient (consume_login_ticket lenient (codes "lt_03") after_login).0 calls)).1
consume_login_ticket-once_example =
    consume_login_ticket-once lenient value_at (codes "lt_03") after_login given calls
      lenient-IsSound.redis_laws lenient-IsSeparate (tt, (draws_other, (tt, (tt, tt)))) first_use

abbrev later : Memory
unfolding program run_call run_calls
later = run_calls lenient [] (login_call guest now dice ∷ calls)

abbrev text_or_empty : Option Str → Str
text_or_empty none = []
text_or_empty (some s) = s

abbrev last_session : Session
last_session = record given { session_id = codes "sess_06"; account_id = codes "acc_05" }

IsLive-later : IsLive lenient.sessions (value_at later) (codes "sess_06") last_session
unfolding program run_call run_calls
IsLive-later = (text_or_empty (value_at later (session_key (codes "sess_06"))), refl, refl)

empty_start : (id : Str) → value_at [] (session_key id) ≡ none
unfolding lookup
empty_start id = refl

run_calls-one_session_example : codes "sess_06" ≡ codes "sess_06"
unfolding run_calls later
run_calls-one_session_example =
    run_calls-one_session lenient value_at [] (login_call guest now dice ∷ calls) (codes "sess_06")
      (codes "sess_06") last_session last_session lenient-IsSound lenient-IsSeparate empty_start
      IsLive-later IsLive-later refl

ticket_status :
    (handle_consume_ticket lenient post_method (some (codes "lt_03")) after_login).1.status ≡ 200
unfolding program handle_consume_ticket write_api_success
ticket_status = refl

handle_consume_ticket-session_example :
    (input : Str) × (s : Session) × (post_method ≡ post_method)
    × (some (codes "lt_03") ≡ some input)
    × ((consume_login_ticket lenient input after_login).1 ≡ ok s)
    × ((handle_consume_ticket lenient post_method (some (codes "lt_03")) after_login).1.payload
        ≡ session_data s)
handle_consume_ticket-session_example =
    handle_consume_ticket-session lenient post_method (some (codes "lt_03")) after_login
      ticket_status
