-- ===== src/Auth/Service.antt =====
-- service.go. What the service is built on is one record; a call of `newID` in a login takes its bytes
-- from `Randoms`, and `time.Now` is an argument.
use card.Prelude.{ℕ, ite, List, [], Option, ◌*◌, ◌/◌}
use card.Prelude.Text.{Str, codes, str_dec, trim_space}
use card.Gate.Model.{Time}
use card.Auth.Model.{
  Account, AccountBinding, Session, LoginTicket, ConnectToken, LoginInput, LoginResult,
  invalid_argument, Result, ok, err, Run, ◌>>=◌, lift, new_id, add_time,
}
use card.Auth.Stores.{Redis, Mongo}
use card.Auth.Accounts.{find_or_create_binding, upsert_account}
use card.Auth.Repository.{
  Codec, save_session, get_session, save_ticket, consume_ticket, save_token, consume_token,
}

-- The clients of the stores, the codecs, and `strings.ToLower`, whose table is not written out.
pub record Backend (W : Type 0) : Type 0 where
  pub redis : Redis W
  pub mongo : Mongo W
  pub sessions : Codec Session
  pub tickets : Codec LoginTicket
  pub tokens : Codec ConnectToken
  pub to_lower : Str → Str

pub record Randoms : Type 0 where
  pub account : Option (List ℕ)
  pub session : Option (List ℕ)
  pub ticket : Option (List ℕ)
  pub token : Option (List ℕ)

-- Durations are in nanoseconds.
abbrev pub second : ℕ
second = 1000000000

abbrev pub session_ttl : ℕ
session_ttl = 24 * 3600 * second

abbrev pub ticket_ttl : ℕ
ticket_ttl = 60 * second

abbrev pub connect_token_ttl : ℕ
connect_token_ttl = 5 * 60 * second

abbrev pub guest_subject : LoginInput → LoginInput
guest_subject input =
    ite (str_dec input.subject [])
      (ite (str_dec input.channel (codes "guest")) (record input { subject = input.device_id })
        input)
      input

unfoldable pub normalize_login_input : (Str → Str) → LoginInput → LoginInput
normalize_login_input to_lower input = guest_subject (record {
  channel = trim_space (to_lower input.channel);
  subject = trim_space input.subject;
  device_id = trim_space input.device_id;
})

unfoldable pub validate_login_input : LoginInput → Result (Unit {0})
validate_login_input input = ite (str_dec input.channel []) (err invalid_argument) (
    ite (str_dec input.device_id []) (err invalid_argument)
      (ite (str_dec input.subject []) (err invalid_argument) (ok tt)))

-- The records that `Login` builds.
unfoldable pub login_session : AccountBinding → Account → Str → Time → Session
login_session binding account session_id now = record {
  session_id = session_id;
  account_id = account.id;
  player_id = account.player_id;
  channel = binding.channel;
  subject = binding.subject;
  device_id = binding.device_id;
  created_at = now;
  expires_at = add_time now session_ttl;
  last_login_at = now;
}

unfoldable pub login_ticket : Account → Str → Str → Time → LoginTicket
login_ticket account session_id ticket_id now = record {
  ticket_id = ticket_id;
  session_id = session_id;
  account_id = account.id;
  created_at = now;
  expires_at = add_time now ticket_ttl;
}

unfoldable pub login_token : AccountBinding → Account → Str → Str → Time → ConnectToken
login_token binding account session_id token_id now = record {
  token_id = token_id;
  session_id = session_id;
  account_id = account.id;
  device_id = binding.device_id;
  created_at = now;
  expires_at = add_time now connect_token_ttl;
}

unfoldable pub login_result : Account → Session → LoginTicket → ConnectToken → LoginResult
login_result account session ticket token = record {
  account_id = account.id;
  player_id = account.player_id;
  session_id = session.session_id;
  login_ticket = ticket.ticket_id;
  connect_token = token.token_id;
  session_expires_at = session.expires_at;
  ticket_expires_at = ticket.expires_at;
  connect_expires_at = token.expires_at;
  session_ttl_seconds = session_ttl / second;
  ticket_ttl_seconds = ticket_ttl / second;
  connect_ttl_seconds = connect_token_ttl / second;
}

module _ {W : Type 0} (backend : Backend W) where
  -- The part of `Login` that writes to Redis.
  unfoldable pub save_login : Account → Session → LoginTicket → ConnectToken → Run W LoginResult
  save_login account session ticket token = do
    _ ← save_session backend.redis backend.sessions session session_ttl
    _ ← save_ticket backend.redis backend.tickets ticket ticket_ttl
    _ ← save_token backend.redis backend.tokens token connect_token_ttl
    lift (ok (login_result account session ticket token))

  -- `Login` from `UpsertAccount` on.
  unfoldable pub login_bound : Time → Randoms → AccountBinding → Run W LoginResult
  login_bound now randoms binding = do
    account ← upsert_account backend.mongo binding now
    session_id ← lift (new_id (codes "sess") randoms.session)
    ticket_id ← lift (new_id (codes "lt") randoms.ticket)
    token_id ← lift (new_id (codes "ct") randoms.token)
    save_login account (login_session binding account session_id now)
        (login_ticket account session_id ticket_id now)
        (login_token binding account session_id token_id now)

  -- `Login` of an input that is normalized.
  unfoldable pub login_normal : LoginInput → Time → Randoms → Run W LoginResult
  login_normal input now randoms = do
    _ ← lift (validate_login_input input)
    binding ←
        find_or_create_binding backend.mongo input.channel input.subject input.device_id now
          randoms.account
    login_bound now randoms binding

  unfoldable pub login : LoginInput → Time → Randoms → Run W LoginResult
  login input now randoms = login_normal (normalize_login_input backend.to_lower input) now randoms

  unfoldable pub redeem_ticket : Str → Run W Session
  redeem_ticket ticket_id = do
    ticket ← consume_ticket backend.redis backend.tickets ticket_id
    get_session backend.redis backend.sessions ticket.session_id

  unfoldable pub redeem_token : Str → Run W Session
  redeem_token token_id = do
    token ← consume_token backend.redis backend.tokens token_id
    get_session backend.redis backend.sessions token.session_id

  unfoldable pub consume_login_ticket : Str → Run W Session
  consume_login_ticket input =
      let ticket_id : Str = trim_space input in
      ite (str_dec ticket_id []) (lift (err invalid_argument)) (redeem_ticket ticket_id)

  unfoldable pub consume_connect_token : Str → Run W Session
  consume_connect_token input =
      let token_id : Str = trim_space input in
      ite (str_dec token_id []) (lift (err invalid_argument)) (redeem_token token_id)

  unfoldable pub validate_session : Str → Run W Session
  validate_session input =
      let session_id : Str = trim_space input in
      ite (str_dec session_id []) (lift (err invalid_argument))
        (get_session backend.redis backend.sessions session_id)
