-- ===== src/Auth/Redeem.antt =====
-- What the ids that a login returns are good for, from the binding of the account on.
use card.Prelude.{◌≡◌, sym, ap, subst, ◌∙◌, ◌≢◌, ◌⊎◌, [], some, arith}
use card.Prelude.Text.{Str, str_dec, trim_space, trim_space-solid, IsSolid}
use card.Gate.Model.{Time}
use card.Auth.Model.{
  AccountBinding, Session, LoginTicket, ConnectToken, LoginResult, internal, Result, ok, err,
}
use card.Auth.Repository.{get_session, session_key, login_ticket_key, connect_token_key}
use card.Auth.Service.{
  Backend, Randoms, login_bound, consume_login_ticket, consume_connect_token, validate_session,
  redeem_ticket, redeem_token,
}
use card.Auth.Sessions.{View}
use card.Auth.Logins.{IsSound, IsStored, IsFor, login_bound-IsStored}
use card.Auth.Tickets.{
  redeem-finds, redeem_token-finds, consume-redeem, consume_token-redeem, get_session-finds,
}

module _ {W : Type 0} (backend : Backend W) (value_at : W → View) where
  -- The session, or an error of Redis.
  abbrev pub Gives : Session → Result Session → Type 0
  Gives s r = (r ≡ ok s) ⊎ (r ≡ err internal)

  trimmed : (id : Str) → IsSolid id × (id ≢ []) → trim_space id ≢ []
  trimmed id (solid, filled) e = filled (sym (trim_space-solid id solid) ∙ e)

  validate-get :
      (id : Str) (w : W)
      → trim_space id ≢ []
      → validate_session backend id w ≡ get_session backend.redis backend.sessions (trim_space id) w
  unfolding validate_session
  validate-get id w filled = elim (str_dec (trim_space id) []) [
    | yes empty ↦ absurd (filled empty)
    | no _ ↦ ground arith
  ]

  validate-drawn :
      (id : Str) (w : W)
      → IsSolid id × (id ≢ [])
      → validate_session backend id w ≡ get_session backend.redis backend.sessions id w
  validate-drawn id w h =
      validate-get id w (trimmed id h)
      ∙ ap (λ i. get_session backend.redis backend.sessions i w) (trim_space-solid id h.0)

  ticket-drawn :
      (id : Str) (w : W)
      → IsSolid id × (id ≢ [])
      → consume_login_ticket backend id w ≡ redeem_ticket backend id w
  ticket-drawn id w h =
      consume-redeem backend value_at id w (trimmed id h)
      ∙ ap (λ i. redeem_ticket backend i w) (trim_space-solid id h.0)

  token-drawn :
      (id : Str) (w : W)
      → IsSolid id × (id ≢ [])
      → consume_connect_token backend id w ≡ redeem_token backend id w
  token-drawn id w h =
      consume_token-redeem backend value_at id w (trimmed id h)
      ∙ ap (λ i. redeem_token backend i w) (trim_space-solid id h.0)

  module _ (v : W) (s : Session) (t : LoginTicket) (c : ConnectToken) (r : LoginResult) where
    ticket-Gives :
        IsSound backend value_at
        → IsStored backend value_at v s t c
        → IsFor backend value_at s t c r
        → Gives s (consume_login_ticket backend r.login_ticket v).1
    ticket-Gives sound st f =
        let (p, at_ticket, dec) = st.ticket in
        let (q, at_session, dec') = st.session in
        rw (ticket-drawn r.login_ticket v f.ticket_drawn) (
          redeem-finds backend value_at r.login_ticket v t s p q sound.redis_laws
            (subst (λ i. value_at v (login_ticket_key i) ≡ some p) f.ticket_id at_ticket) dec
            (subst (λ i. value_at v (session_key i) ≡ some q) (sym f.ticket_session) at_session)
            dec')

    token-Gives :
        IsSound backend value_at
        → IsStored backend value_at v s t c
        → IsFor backend value_at s t c r
        → Gives s (consume_connect_token backend r.connect_token v).1
    token-Gives sound st f =
        let (p, at_token, dec) = st.token in
        let (q, at_session, dec') = st.session in
        rw (token-drawn r.connect_token v f.token_drawn) (
          redeem_token-finds backend value_at r.connect_token v c s p q sound.redis_laws
            (subst (λ i. value_at v (connect_token_key i) ≡ some p) f.token_id at_token) dec
            (subst (λ i. value_at v (session_key i) ≡ some q) (sym f.token_session) at_session)
            dec')

    session-Gives :
        IsSound backend value_at
        → IsStored backend value_at v s t c
        → IsFor backend value_at s t c r
        → Gives s (validate_session backend r.session_id v).1
    session-Gives sound st f =
        let (q, at_session, dec) = st.session in
        rw (validate-drawn r.session_id v f.session_drawn) (
          get_session-finds backend value_at v r.session_id s q sound.redis_laws
            (subst (λ i. value_at v (session_key i) ≡ some q) f.session_id at_session) dec)

  -- Login behind its binding: with a Redis and codecs that keep their promises, after `Login` went on
  -- from the binding of the account and returned no error, its ticket, its token and its session id each
  -- give one session, of the account and with the id that the result names, unless Redis fails.
  pub login_bound-redeems :
      (now : Time) (randoms : Randoms) (binding : AccountBinding) (w v : W) (r : LoginResult)
      → IsSound backend value_at
      → login_bound backend now randoms binding w ≡ (v, ok r)
      → (s : Session) × (s.session_id ≡ r.session_id)
        × (s.account_id ≡ r.account_id)
        × Gives s (consume_login_ticket backend r.login_ticket v).1
        × Gives s (consume_connect_token backend r.connect_token v).1
        × Gives s (validate_session backend r.session_id v).1
  login_bound-redeems now randoms binding w v r sound e =
      let (s, t, c, st, f) =
        login_bound-IsStored backend value_at now randoms binding w v r sound e in
      (
        s,
        f.session_id,
        f.account_id,
        ticket-Gives v s t c r sound st f,
        token-Gives v s t c r sound st f,
        session-Gives v s t c r sound st f,
      )
