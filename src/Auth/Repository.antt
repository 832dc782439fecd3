-- ===== src/Auth/Repository.antt =====
-- repository.go: the sessions, tickets and tokens in Redis. `encoding/json` is the parameter `codec`
-- of each kind of value; `none` is an error.
use card.Prelude.{some, ◌≡◌, ℕ, ite, List, [], ◌∷◌, ◌++◌, Option, Bool, true, false}
use card.Prelude.Text.{Str, codes, str_dec}
use card.Auth.Model.{
  Session, LoginTicket, ConnectToken, Result, ok, err, internal, session_not_found,
  ticket_not_found, connect_token_not_found, Run, ◌>>=◌, lift, Error,
}
use card.Auth.Stores.{Answer, missing, failed, found, Command, set_command, del_command, Redis}
use card.Auth.Model.{or_internal}

pub record Codec (A : Type 0) : Type 0 where
  pub marshal : A → Option Str
  pub unmarshal : Str → Option A

-- What `encoding/json` promises of a value that it encodes.
abbrev pub RoundTrips : {A : Type 0} → Codec A → Type 0
RoundTrips {A} codec =
    (a : A) (payload : Str) → codec.marshal a ≡ some payload → codec.unmarshal payload ≡ some a

unfoldable pub session_key : Str → Str
session_key session_id = codes "auth:session:" ++ session_id

unfoldable pub account_session_key : Str → Str
account_session_key account_id = codes "auth:account_session:" ++ account_id

unfoldable pub login_ticket_key : Str → Str
login_ticket_key ticket_id = codes "auth:login_ticket:" ++ ticket_id

unfoldable pub connect_token_key : Str → Str
connect_token_key token_id = codes "auth:connect_token:" ++ token_id

-- `Get(...).Result()` in front of a pipeline: a missing key gives the empty text.
abbrev pub current : Answer → Result Str
current missing = ok []
current failed = err internal
current (found v) = ok v

-- `Get(...).Bytes()` or `GetDel(...).Bytes()` and then `json.Unmarshal`.
abbrev pub read : {A : Type 0} → Codec A → Error → Answer → Result A
read codec not_found missing = err not_found
read codec not_found failed = err internal
read codec not_found (found payload) = or_internal (codec.unmarshal payload)

abbrev pub done : {W : Type 0} → W × Bool → W × Result (Unit {0})
done (w, true) = (w, ok tt)
done (w, false) = (w, err internal)

unfoldable pub save_commands : Session → Str → Str → ℕ → List Command
save_commands session old_session_id payload ttl =
    set_command (session_key session.session_id) payload ttl
    ∷ set_command (account_session_key session.account_id) session.session_id ttl
    ∷ ite (str_dec old_session_id []) [] (
        ite (str_dec old_session_id session.session_id) []
          (del_command (session_key old_session_id) ∷ []))

unfoldable pub delete_commands : Str → Session → Str → List Command
delete_commands session_id session current_session_id =
    del_command (session_key session_id)
    ∷ ite (str_dec current_session_id session_id)
        (del_command (account_session_key session.account_id) ∷ []) []

module _ {W : Type 0} (redis : Redis W) where
  unfoldable pub current_session : Str → Run W Str
  current_session account_id w = (w, current (redis.get w (account_session_key account_id)))

  module _ (codec : Codec Session) where
    -- `SaveSession` after its first read, which other clients can follow before the transaction.
    unfoldable pub save_over : Session → ℕ → Str → Run W (Unit {0})
    save_over session ttl old_session_id = do
      payload ← lift (or_internal (codec.marshal session))
      λ w. done (redis.exec w (save_commands session old_session_id payload ttl))

    unfoldable pub save_session : Session → ℕ → Run W (Unit {0})
    save_session session ttl = do
      old_session_id ← current_session session.account_id
      save_over session ttl old_session_id

    unfoldable pub get_session : Str → Run W Session
    get_session session_id w =
        (w, read codec session_not_found (redis.get w (session_key session_id)))

    unfoldable pub delete_found : Str → Session → Run W (Unit {0})
    delete_found session_id session = do
      current_session_id ← current_session session.account_id
      λ w. done (redis.exec w (delete_commands session_id session current_session_id))

    abbrev pub delete_answered : Str → W × Result Session → W × Result (Unit {0})
    delete_answered session_id (w, ok session) = delete_found session_id session w
    delete_answered session_id (w, err session_not_found) = (w, ok tt)
    delete_answered session_id (w, err e) = (w, err e)

    unfoldable pub delete_session : Str → Run W (Unit {0})
    delete_session session_id w = delete_answered session_id (get_session session_id w)

  unfoldable pub save_ticket : Codec LoginTicket → LoginTicket → ℕ → Run W (Unit {0})
  save_ticket codec ticket ttl = do
    payload ← lift (or_internal (codec.marshal ticket))
    λ w. done (redis.set w (login_ticket_key ticket.ticket_id) payload ttl)

  unfoldable pub consume_ticket : Codec LoginTicket → Str → Run W LoginTicket
  consume_ticket codec ticket_id w =
      let (w', answer) = redis.get_del w (login_ticket_key ticket_id) in
      (w', read codec ticket_not_found answer)

  unfoldable pub save_token : Codec ConnectToken → ConnectToken → ℕ → Run W (Unit {0})
  save_token codec token ttl = do
    payload ← lift (or_internal (codec.marshal token))
    λ w. done (redis.set w (connect_token_key token.token_id) payload ttl)

  unfoldable pub consume_token : Codec ConnectToken → Str → Run W ConnectToken
  consume_token codec token_id w =
      let (w', answer) = redis.get_del w (connect_token_key token_id) in
      (w', read codec connect_token_not_found answer)
