-- ===== src/Gate/Sockets/Lifetime.antt =====
-- A socket's connection does not outlive the socket.
use mathlib.Core.List.{head?}
use card.Prelude.{ite_ind, ℕ, ◌≡◌, refl, ◌≢◌, List, [], ◌∷◌, Option, none, some, arith}
use card.Prelude.Text.{Str, codes, str_dec, trim_space, IsSolid, trim_space-solid}
use card.Gate.Model.{Time, AuthSession, Gamer, Result, ok, err}
use card.Gate.Manager.Defs.{Manager, conn_at, run_calls}
use card.Gate.Manager.Ids.{conn_id-IsSolid}
use card.Gate.Manager.Owned.{
  IsOwned, disconnect-gone, open_conn-IsOwned, bind_session-IsOwned, run_calls-IsOwned,
}
use card.Gate.Service.{
  AuthClient, bind_answer, login_by_token, login_by_ticket, login_by_session, open_socket, logout,
  disconnect_conn, AttachTokenInput, AttachTicketInput, AttachSessionInput,
}
use card.Gate.Sockets.{TcpRequest, Response, Line, serve, tcp_loop, ws_loop, handle_conn, handle_ws}

logout-gone :
    (m : Manager) (c : Str)
    → IsOwned m
    → IsSolid c
    → c ≢ []
    → conn_at (disconnect_conn m (record { conn_id = c })).0 c ≡ none
unfolding disconnect_conn logout
logout-gone m c v solid named =
    rw (trim_space-solid c solid) (ground (arith, disconnect-gone m v c))

module _ {W : Type 0} (auth : AuthClient W) where
  bind_answer-IsOwned :
      (r : W × Result AuthSession) (m : Manager) (c : Str) (now : Time)
      → IsOwned m
      → IsOwned (bind_answer r m c now).1
  unfolding bind_answer
  bind_answer-IsOwned (w, err e) m c now v = v
  bind_answer-IsOwned (w, ok s) m c now v = bind_session-IsOwned m v c s now

  -- Each login leaves the manager alone or binds the session.
  abbrev After : W × Manager × Result Gamer → Type 0
  After r = IsOwned r.1

  by_token-IsOwned :
      (w : W) (m : Manager) (i : AttachTokenInput) (now : Time)
      → IsOwned m
      → IsOwned (login_by_token auth w m i now).1
  unfolding login_by_token
  by_token-IsOwned w m i now v =
      ite_ind After (str_dec (trim_space i.conn_id) []) v
        (ite_ind After (str_dec (trim_space i.token) []) v (bind_answer-IsOwned _ m _ now v))

  by_ticket-IsOwned :
      (w : W) (m : Manager) (i : AttachTicketInput) (now : Time)
      → IsOwned m
      → IsOwned (login_by_ticket auth w m i now).1
  unfolding login_by_ticket
  by_ticket-IsOwned w m i now v =
      ite_ind After (str_dec (trim_space i.conn_id) []) v
        (ite_ind After (str_dec (trim_space i.ticket) []) v (bind_answer-IsOwned _ m _ now v))

  by_session-IsOwned :
      (w : W) (m : Manager) (i : AttachSessionInput) (now : Time)
      → IsOwned m
      → IsOwned (login_by_session auth w m i now).1
  unfolding login_by_session
  by_session-IsOwned w m i now v =
      ite_ind After (str_dec (trim_space i.conn_id) []) v
        (ite_ind After (str_dec (trim_space i.session_id) []) v (bind_answer-IsOwned _ m _ now v))

  serve-IsOwned :
      (w : W) (m : Manager) (c : Str) (req : TcpRequest) (now : Time)
      → IsOwned m
      → IsOwned (serve auth w m c req now).1
  unfolding serve
  serve-IsOwned w m c req now v =
      let P : W × Manager × Response → Type 0 = λ r. IsOwned r.1 in
      let is = λ (s : Str). str_dec req.op s in
      let token = by_token-IsOwned w m (record { conn_id = c; token = req.token }) now v in
      let ticket = by_ticket-IsOwned w m (record { conn_id = c; ticket = req.ticket }) now v in
      let session =
        by_session-IsOwned w m (record { conn_id = c; session_id = req.session_id }) now v in
      ite_ind P (is (codes "ping")) v (
        ite_ind P (is (codes "auth.token")) token (
          ite_ind P (is (codes "login.token")) token (
            ite_ind P (is (codes "auth.ticket")) ticket (
              ite_ind P (is (codes "login.ticket")) ticket (
                ite_ind P (is (codes "auth.session")) session
                  (ite_ind P (is (codes "login.session")) session v))))))

  tcp_loop-IsOwned :
      (w : W) (m : Manager) (c : Str) (ls : List Line)
      → IsOwned m
      → IsOwned (tcp_loop auth w m c ls).1
  unfolding tcp_loop
  tcp_loop-IsOwned w m c [] v = v
  tcp_loop-IsOwned w m c ((none, others, _) ∷ ls) v =
      tcp_loop-IsOwned w (run_calls m others) c ls (run_calls-IsOwned m v others)
  tcp_loop-IsOwned w m c ((some req, others, at) ∷ ls) v =
      let (w', m', _) = serve auth w (run_calls m others) c req at in
      tcp_loop-IsOwned w' m' c ls
        (serve-IsOwned w (run_calls m others) c req at (run_calls-IsOwned m v others))

  ws_loop-IsOwned :
      (w : W) (m : Manager) (c : Str) (ls : List Line)
      → IsOwned m
      → IsOwned (ws_loop auth w m c ls).1
  unfolding ws_loop
  ws_loop-IsOwned w m c [] v = v
  ws_loop-IsOwned w m c ((none, others, _) ∷ ls) v = run_calls-IsOwned m v others
  ws_loop-IsOwned w m c ((some req, others, at) ∷ ls) v =
      let (w', m', _) = serve auth w (run_calls m others) c req at in
      ws_loop-IsOwned w' m' c ls
        (serve-IsOwned w (run_calls m others) c req at (run_calls-IsOwned m v others))

  module _ (w : W) (m : Manager) (r : Str) (conn : ℕ) (random : Option (List ℕ)) (now : Time)
      (ls : List Line) (g : Gamer) (v : IsOwned m)
      (opens : (open_socket m r (some conn) random now).1 ≡ ok g) where
    -- Whatever the lines of a TCP socket are, and whatever calls of other sockets stand between them,
    -- the connection that the socket opened is not in the table once `handleConn` has returned.
    pub handle_conn-gone : conn_at (handle_conn auth w m r conn random now ls).1 g.conn_id ≡ none
    unfolding handle_conn open_socket
    handle_conn-gone =
        let (solid, named) = conn_id-IsSolid m (trim_space r) (some conn) random now g opens in
        let v₀ = open_conn-IsOwned m v (trim_space r) (some conn) random now in
        rw (opens, handle_conn)
          (logout-gone _ g.conn_id (tcp_loop-IsOwned w _ g.conn_id ls v₀) solid named)

    -- The same of a web socket and `handleWS`, which also closes the socket as the last step.
    pub handle_ws-gone :
        let m' = (handle_ws auth w m r conn random now ls).1 in
        (conn_at m' g.conn_id ≡ none) × (head? m'.closed ≡ some conn)
    unfolding handle_ws open_socket
    handle_ws-gone =
        let (solid, named) = conn_id-IsSolid m (trim_space r) (some conn) random now g opens in
        let v₀ = open_conn-IsOwned m v (trim_space r) (some conn) random now in
        rw (opens, handle_ws)
          (logout-gone _ g.conn_id (ws_loop-IsOwned w _ g.conn_id ls v₀) solid named, refl)
