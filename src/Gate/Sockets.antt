-- ===== src/Gate/Sockets.antt =====
-- tcp_server.go and ws_server.go: the life of one socket. The other side is a list of lines or frames,
-- each decoded or `none` where it is no valid JSON, with the time at which it is served; a response is
-- what is written back. The server's calls on the table of connections are atomic, and calls of other
-- sockets may stand between them: `others` are those before a line.
pub mod Lifetime
use card.Prelude.{ℕ, ite, List, [], ◌∷◌, Option, none, some}
use card.Prelude.Text.{Str, codes, str_dec}
use card.Gate.Model.{Time, Gamer, Error, Result, ok, err}
use card.Gate.Manager.Defs.{Manager, Call, run_calls}
use card.Gate.Service.{
  AuthClient, AttachTokenInput, login_by_token, login_by_ticket, login_by_session, open_socket,
  disconnect_conn,
}

pub record TcpRequest : Type 0 where
  pub op : Str
  pub token : Str
  pub ticket : Str
  pub session_id : Str

pub data Response : Type 0 where
  connected pong : Str → Response
  invalid_json unsupported_op : Response
  connect_failed auth_failed login_failed : Error → Response
  auth_ok login_ok : Gamer → Response

abbrev auth_reply : Result Gamer → Response
auth_reply (ok bound) = auth_ok bound
auth_reply (err e) = auth_failed e

abbrev login_reply : Result Gamer → Response
login_reply (ok bound) = login_ok bound
login_reply (err e) = login_failed e

-- A line: its request, the calls of other sockets before it is served, and when it is served.
abbrev pub Line : Type 0
Line = Option TcpRequest × List Call × Time

module _ {W : Type 0} (auth : AuthClient W) where
  abbrev by_token : W → Manager → Str → TcpRequest → Time → W × Manager × Result Gamer
  by_token w m conn_id req now =
      login_by_token auth w m (record { conn_id = conn_id; token = req.token }) now

  abbrev by_ticket : W → Manager → Str → TcpRequest → Time → W × Manager × Result Gamer
  by_ticket w m conn_id req now =
      login_by_ticket auth w m (record { conn_id = conn_id; ticket = req.ticket }) now

  abbrev by_session : W → Manager → Str → TcpRequest → Time → W × Manager × Result Gamer
  by_session w m conn_id req now =
      login_by_session auth w m (record { conn_id = conn_id; session_id = req.session_id }) now

  abbrev answer : (Result Gamer → Response) → W × Manager × Result Gamer → W × Manager × Response
  answer reply (w, m, r) = (w, m, reply r)

  -- The `switch` on the operation, which both servers have.
  unfoldable pub serve : W → Manager → Str → TcpRequest → Time → W × Manager × Response
  serve w m conn_id req now =
      ite (str_dec req.op (codes "ping")) (w, m, pong conn_id)
        (ite (str_dec req.op (codes "auth.token"))
          (answer auth_reply (by_token w m conn_id req now))
          (ite (str_dec req.op (codes "login.token"))
            (answer login_reply (by_token w m conn_id req now))
            (ite (str_dec req.op (codes "auth.ticket"))
              (answer auth_reply (by_ticket w m conn_id req now))
              (ite (str_dec req.op (codes "login.ticket"))
                (answer login_reply (by_ticket w m conn_id req now))
                (ite (str_dec req.op (codes "auth.session"))
                  (answer auth_reply (by_session w m conn_id req now))
                  (ite (str_dec req.op (codes "login.session"))
                    (answer login_reply (by_session w m conn_id req now))
                    (w, m, unsupported_op)))))))

  -- The read loop of `handleConn`: a line that is no JSON is answered, and the loop goes on.
  unfoldable pub tcp_loop : W → Manager → Str → List Line → W × Manager × List Response
  tcp_loop w m conn_id [] = (w, m, [])
  tcp_loop w m conn_id ((none, others, _) ∷ ls) =
      let (w', m', out) = tcp_loop w (run_calls m others) conn_id ls in (w', m', invalid_json ∷ out)
  tcp_loop w m conn_id ((some req, others, at) ∷ ls) =
      let (w₁, m₁, r) = serve w (run_calls m others) conn_id req at in
      let (w', m', out) = tcp_loop w₁ m₁ conn_id ls in (w', m', r ∷ out)

  -- The read loop of `handleWS`: a frame that cannot be decoded ends it.
  unfoldable pub ws_loop : W → Manager → Str → List Line → W × Manager × List Response
  ws_loop w m conn_id [] = (w, m, [])
  ws_loop w m conn_id ((none, others, _) ∷ ls) = (w, run_calls m others, [])
  ws_loop w m conn_id ((some req, others, at) ∷ ls) =
      let (w₁, m₁, r) = serve w (run_calls m others) conn_id req at in
      let (w', m', out) = ws_loop w₁ m₁ conn_id ls in (w', m', r ∷ out)

  -- The deferred call of `Disconnect` is the last step; `conn` is the socket's handle.
  unfoldable pub handle_conn :
      W → Manager → Str → ℕ → Option (List ℕ) → Time → List Line → W × Manager × List Response
  handle_conn w m remote_addr conn random now lines =
      let (m₀, opened) = open_socket m remote_addr (some conn) random now in
      elim opened [
        | err _ ↦ (w, record m₀ { closed = conn ∷ m₀.closed }, [])
        | ok gamer ↦
            let (w', m', out) = tcp_loop w m₀ gamer.conn_id lines in
            (
              w',
              (disconnect_conn m' (record { conn_id = gamer.conn_id })).0,
              connected gamer.conn_id ∷ out,
            )
      ]

  -- The deferred `ws.Close()` comes after the deferred `Disconnect`, or alone if the socket has not
  -- been opened.
  unfoldable pub handle_ws :
      W → Manager → Str → ℕ → Option (List ℕ) → Time → List Line → W × Manager × List Response
  handle_ws w m remote_addr conn random now frames =
      let (m₀, opened) = open_socket m remote_addr (some conn) random now in
      elim opened [
        | err e ↦ (w, record m₀ { closed = conn ∷ m₀.closed }, connect_failed e ∷ [])
        | ok gamer ↦
            let (w', m', out) = ws_loop w m₀ gamer.conn_id frames in
            let m₁ : Manager = (disconnect_conn m' (record { conn_id = gamer.conn_id })).0 in
            (w', record m₁ { closed = conn ∷ m₁.closed }, connected gamer.conn_id ∷ out)
      ]
