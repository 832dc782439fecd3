-- ===== src/Gate/Http.antt =====
-- handler.go: the HTTP handlers. A request is its method, its path and its body; a body that cannot be
-- decoded is `invalid`, and one that is missing or of length 0 leaves the input at its zero value. Of a
-- response the status, the code and the data are kept; the text of the message is left out.
pub mod Laws
use card.Prelude.{ℕ, ◌≡◌, List, [], Option, none, some}
use card.Prelude.Text.{Str, codes, trim_prefix}
use card.Gate.Model.{
  Time, Gamer, GateStats, Error, invalid_argument, conn_not_found, upstream, Result, ok, err, ◌>>=◌,
}
use card.Gate.Manager.Defs.{Manager, list, stats}
use card.Gate.Service.{
  OpenConnectionInput, AttachTicketInput, AttachTokenInput, AttachSessionInput, DisconnectInput,
  AuthClient, open_connection, login_by_token, login_by_ticket, login_by_session, logout, get_gamer,
}

pub data Method : Type 0 where
  get_method post_method other_method : Method

pub data Body (A : Type 0) : Type 0 where
  missing invalid : Body A
  json : A → Body A

pub data Data : Type 0 where
  no_data ok_true : Data
  gamer_data : Gamer → Data
  gamers_data : List Gamer → Data
  stats_data : GateStats → Data

-- `apiResponse` with the status.
pub record ApiResponse : Type 0 where
  pub status : ℕ
  pub code : Str
  pub payload : Data

unfoldable pub write_api_success : Data → ApiResponse
write_api_success d = record { status = 200; code = codes "ok"; payload = d }

unfoldable pub write_api_error : ℕ → Str → ApiResponse
write_api_error status code = record { status = status; code = code; payload = no_data }

unfoldable pub write_service_error : Error → ApiResponse
write_service_error invalid_argument = write_api_error 400 (codes "invalid_argument")
write_service_error conn_not_found = write_api_error 404 (codes "connection_not_found")
write_service_error upstream = write_api_error 502 (codes "upstream_or_internal_error")

abbrev method_not_allowed : ApiResponse
method_not_allowed = write_api_error 405 (codes "method_not_allowed")

-- The zero value of the input is the second argument.
unfoldable pub decode_json_body : {A : Type 0} → Body A → A → Result A
decode_json_body missing zero_value = ok zero_value
decode_json_body invalid zero_value = err invalid_argument
decode_json_body (json input) zero_value = ok input

abbrev gamer_reply : Result Gamer → ApiResponse
gamer_reply (ok gamer) = write_api_success (gamer_data gamer)
gamer_reply (err e) = write_service_error e

unfoldable pub handle_stats : Method → Manager → ApiResponse
handle_stats get_method m = write_api_success (stats_data (stats m))
handle_stats _ m = method_not_allowed

unfoldable pub handle_gamers : Method → Manager → ApiResponse
handle_gamers get_method m = write_api_success (gamers_data (list m))
handle_gamers _ m = method_not_allowed

unfoldable pub handle_open_connection :
    Method → Body OpenConnectionInput → Manager → Option (List ℕ) → Time → Manager × ApiResponse
handle_open_connection post_method body m random now =
    elim (decode_json_body body (record { remote_addr = [] })) [
      | err e ↦ (m, write_service_error e)
      | ok input ↦ let (m', r) = open_connection m input random now in (m', gamer_reply r)
    ]
handle_open_connection _ body m random now = (m, method_not_allowed)

unfoldable pub handle_logout : Method → Body DisconnectInput → Manager → Manager × ApiResponse
handle_logout post_method body m = elim (decode_json_body body (record { conn_id = [] })) [
  | err e ↦ (m, write_service_error e)
  | ok input ↦
      let (m', r) = logout m input in
      (m', elim r [ none ↦ write_api_success ok_true | some e ↦ write_service_error e ])
]
handle_logout _ body m = (m, method_not_allowed)

unfoldable pub handle_get_connection : Method → Str → Manager → ApiResponse
handle_get_connection get_method path m =
    gamer_reply (get_gamer m (trim_prefix path (codes "/gate/connections/")))
handle_get_connection _ path m = method_not_allowed

module _ {W : Type 0} (auth : AuthClient W) where
  abbrev answered : W × Manager × Result Gamer → W × Manager × ApiResponse
  answered (w, m, r) = (w, m, gamer_reply r)

  unfoldable pub handle_login_by_token :
      Method → Body AttachTokenInput → W → Manager → Time → W × Manager × ApiResponse
  handle_login_by_token post_method body w m now =
      elim (decode_json_body body (record { conn_id = []; token = [] })) [
        | err e ↦ (w, m, write_service_error e)
        | ok input ↦ answered (login_by_token auth w m input now)
      ]
  handle_login_by_token _ body w m now = (w, m, method_not_allowed)

  unfoldable pub handle_login_by_ticket :
      Method → Body AttachTicketInput → W → Manager → Time → W × Manager × ApiResponse
  handle_login_by_ticket post_method body w m now =
      elim (decode_json_body body (record { conn_id = []; ticket = [] })) [
        | err e ↦ (w, m, write_service_error e)
        | ok input ↦ answered (login_by_ticket auth w m input now)
      ]
  handle_login_by_ticket _ body w m now = (w, m, method_not_allowed)

  unfoldable pub handle_login_by_session :
      Method → Body AttachSessionInput → W → Manager → Time → W × Manager × ApiResponse
  handle_login_by_session post_method body w m now =
      elim (decode_json_body body (record { conn_id = []; session_id = [] })) [
        | err e ↦ (w, m, write_service_error e)
        | ok input ↦ answered (login_by_session auth w m input now)
      ]
  handle_login_by_session _ body w m now = (w, m, method_not_allowed)
