-- ===== src/Gate/Service.antt =====
-- service.go: the service over the auth client and the table of connections; and the inputs of model.go.
pub mod Logins
use card.Prelude.{ℕ, ite, List, [], Option, none, some}
use card.Prelude.Text.{Str, str_dec, trim_space}
use card.Gate.Model.{Time, AuthSession, Gamer, Error, invalid_argument, Result, ok, err}
use card.Gate.Manager.Defs.{Manager, open_conn, bind_session, disconnect, get}

pub record OpenConnectionInput : Type 0 where
  pub remote_addr : Str

pub record AttachTicketInput : Type 0 where
  pub conn_id : Str
  pub ticket : Str

pub record AttachTokenInput : Type 0 where
  pub conn_id : Str
  pub token : Str

pub record AttachSessionInput : Type 0 where
  pub conn_id : Str
  pub session_id : Str

pub record DisconnectInput : Type 0 where
  pub conn_id : Str

-- The interface `AuthClient`, over whatever state `W` the other side keeps.
pub record AuthClient (W : Type 0) : Type 0 where
  pub consume_connect_token : W → Str → W × Result AuthSession
  pub consume_login_ticket : W → Str → W × Result AuthSession
  pub validate_session : W → Str → W × Result AuthSession

unfoldable pub open_connection :
    Manager → OpenConnectionInput → Option (List ℕ) → Time → Manager × Result Gamer
open_connection m input random now = open_conn m (trim_space input.remote_addr) none random now

unfoldable pub open_socket :
    Manager → Str → Option ℕ → Option (List ℕ) → Time → Manager × Result Gamer
open_socket m remote_addr closer random now = open_conn m (trim_space remote_addr) closer random now

-- The last step of each login: the error of the auth client is passed on, or the session is bound.
unfoldable pub bind_answer {ℓ} :
    {W : Type ℓ} → W × Result AuthSession → Manager → Str → Time → W × Manager × Result Gamer
bind_answer (w, err e) m conn_id now = (w, m, err e)
bind_answer (w, ok session) m conn_id now =
    let (m', g) = bind_session m conn_id session now in (w, m', g)

module _ {W : Type 0} (auth : AuthClient W) where
  unfoldable pub login_by_token : W → Manager → AttachTokenInput → Time → W × Manager × Result Gamer
  login_by_token w m input now =
      let conn_id : Str = trim_space input.conn_id in
      let token : Str = trim_space input.token in
      ite (str_dec conn_id []) (w, m, err invalid_argument)
        (ite (str_dec token []) (w, m, err invalid_argument)
          (bind_answer (auth.consume_connect_token w token) m conn_id now))

  unfoldable pub login_by_ticket :
      W → Manager → AttachTicketInput → Time → W × Manager × Result Gamer
  login_by_ticket w m input now =
      let conn_id : Str = trim_space input.conn_id in
      let ticket : Str = trim_space input.ticket in
      ite (str_dec conn_id []) (w, m, err invalid_argument)
        (ite (str_dec ticket []) (w, m, err invalid_argument)
          (bind_answer (auth.consume_login_ticket w ticket) m conn_id now))

  unfoldable pub login_by_session :
      W → Manager → AttachSessionInput → Time → W × Manager × Result Gamer
  login_by_session w m input now =
      let conn_id : Str = trim_space input.conn_id in
      let session_id : Str = trim_space input.session_id in
      ite (str_dec conn_id []) (w, m, err invalid_argument)
        (ite (str_dec session_id []) (w, m, err invalid_argument)
          (bind_answer (auth.validate_session w session_id) m conn_id now))

unfoldable pub logout : Manager → DisconnectInput → Manager × Option Error
logout m input =
    let conn_id : Str = trim_space input.conn_id in
    ite (str_dec conn_id []) (m, some invalid_argument) (disconnect m conn_id)

-- `GateService.Disconnect`.
unfoldable pub disconnect_conn : Manager → DisconnectInput → Manager × Option Error
disconnect_conn m input = logout m input

unfoldable pub get_gamer : Manager → Str → Result Gamer
get_gamer m conn_id =
    let c : Str = trim_space conn_id in ite (str_dec c []) (err invalid_argument) (get m c)
