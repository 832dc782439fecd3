-- ===== src/Auth/Handler.antt =====
-- handler.go of the auth service. A request is its method and its body, `none` if the decoder refuses
-- it; of a response the status, the code and the data are kept, the text of the message is not.
use card.Prelude.{ℕ, Option, none, some}
use card.Prelude.Text.{Str, codes}
use card.Gate.Model.{Time}
use card.Gate.Http.{Method, get_method, post_method, other_method}
use card.Auth.Model.{
  Session, LoginInput, LoginResult, Error, invalid_argument, session_not_found, ticket_not_found,
  connect_token_not_found, internal, Result, ok, err, Run,
}
use card.Auth.Service.{
  Backend, Randoms, login, consume_login_ticket, consume_connect_token, validate_session,
}

pub data Data : Type 0 where
  no_data : Data
  login_data : LoginResult → Data
  session_data : Session → Data

pub record ApiResponse : Type 0 where
  pub status : ℕ
  pub code : Str
  pub payload : Data

unfoldable pub write_api_success : Data → ApiResponse
write_api_success d = record { status = 200; code = codes "ok"; payload = d }

unfoldable pub write_api_error : ℕ → Str → ApiResponse
write_api_error status code = record { status = status; code = code; payload = no_data }

unfoldable pub write_service_error : Error → ApiResponse
write_service_error invalid_argument = write_api_error 400 (codes "invalid_argument")
write_service_error ticket_not_found = write_api_error 401 (codes "ticket_not_found")
write_service_error connect_token_not_found = write_api_error 401 (codes "connect_token_not_found")
write_service_error session_not_found = write_api_error 401 (codes "session_not_found")
write_service_error internal = write_api_error 500 (codes "internal_error")

-- The four handlers have one shape: the method, the body, the call, the reply.
abbrev pub replied : {W A : Type 0} → (A → Data) → W × Result A → W × ApiResponse
replied wrap (w, ok a) = (w, write_api_success (wrap a))
replied wrap (w, err e) = (w, write_service_error e)

-- The body is what the decoder reads, `none` where it fails.
abbrev pub decode_json_body : {I : Type 0} → Option I → Result I
decode_json_body none = err invalid_argument
decode_json_body (some input) = ok input

abbrev answer_decoded :
    {W A I : Type 0} → (A → Data) → (I → Run W A) → Result I → W → W × ApiResponse
answer_decoded wrap call (err e) w = (w, write_service_error e)
answer_decoded wrap call (ok input) w = replied wrap (call input w)

abbrev pub answer_body :
    {W A I : Type 0} → (A → Data) → (I → Run W A) → Option I → W → W × ApiResponse
answer_body wrap call body w = answer_decoded wrap call (decode_json_body body) w

abbrev pub answer_post :
    {W A I : Type 0} → (A → Data) → (I → Run W A) → Method → Option I → W → W × ApiResponse
answer_post wrap call post_method body w = answer_body wrap call body w
answer_post wrap call get_method body w = (w, write_api_error 405 (codes "method_not_allowed"))
answer_post wrap call other_method body w = (w, write_api_error 405 (codes "method_not_allowed"))

module _ {W : Type 0} (backend : Backend W) where
  unfoldable pub handle_login : Method → Option LoginInput → Time → Randoms → W → W × ApiResponse
  handle_login method body now randoms =
      answer_post login_data (λ input. login backend input now randoms) method body

  unfoldable pub handle_consume_ticket : Method → Option Str → W → W × ApiResponse
  handle_consume_ticket = answer_post session_data (consume_login_ticket backend)

  unfoldable pub handle_consume_token : Method → Option Str → W → W × ApiResponse
  handle_consume_token = answer_post session_data (consume_connect_token backend)

  unfoldable pub handle_validate_session : Method → Option Str → W → W × ApiResponse
  handle_validate_session = answer_post session_data (validate_session backend)
