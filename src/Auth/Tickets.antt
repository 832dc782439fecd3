-- ===== src/Auth/Tickets.antt =====
-- Login tickets: one use each, and the session that they give.
use card.Prelude.{◌≡◌, refl, sym, ap, ◌∙◌, ◌≢◌, ◌⊎◌, inl, inr, [], none, some, arith}
use card.Prelude.Text.{Str, str_dec, trim_space}
use card.Auth.Model.{
  Session, LoginTicket, ConnectToken, Error, ticket_not_found, connect_token_not_found, internal,
  invalid_argument, Result, ok, err, continue,
}
use card.Auth.Stores.{failed, IsRedis}
use card.Auth.Repository.{
  session_key, login_ticket_key, connect_token_key, get_session, consume_ticket, consume_token,
  read,
}
use card.Auth.Service.{
  Backend, redeem_ticket, redeem_token, consume_login_ticket, consume_connect_token,
}
use card.Auth.Keys.{ticket_key_ne_session_key, token_key_ne_session_key}
use card.Auth.Sessions.{View, none_ne_some}
use card.Auth.Saving.{Answer-cases}

err_ne_ok : {x : Error} {s : Session} → ◌≡◌ {A = Result Session} (err x) (ok s) → ⊥
err_ne_ok e = cc

module _ {W : Type 0} (backend : Backend W) (value_at : W → View) where
  -- A ticket that is not in Redis is refused, or Redis fails.
  abbrev pub IsRefused : Result Session → Type 0
  IsRefused r = (r ≡ err ticket_not_found) ⊎ (r ≡ err internal)

  pub IsRefused-redeem :
      (ticket_id : Str) (w : W)
      → IsRedis backend.redis value_at
      → value_at w (login_ticket_key ticket_id) ≡ none
      → IsRefused (redeem_ticket backend ticket_id w).1
  unfolding redeem_ticket consume_ticket
  IsRefused-redeem ticket_id w laws gone =
      elim (Answer-cases (backend.redis.get_del w (login_ticket_key ticket_id)).1) [
        | inl a ↦ inl (rw a refl)
        | inr (inl a) ↦ inr (rw a refl)
        | inr (inr (v, a)) ↦
            absurd (none_ne_some (sym gone ∙ laws.get_del_found w (login_ticket_key ticket_id) v a))
      ]

  pub consume-redeem :
      (input : Str) (w : W)
      → trim_space input ≢ []
      → consume_login_ticket backend input w ≡ redeem_ticket backend (trim_space input) w
  unfolding consume_login_ticket
  consume-redeem input w filled = elim (str_dec (trim_space input) []) [
    | yes empty ↦ absurd (filled empty)
    | no _ ↦ ground arith
  ]

  pub consume_token-redeem :
      (input : Str) (w : W)
      → trim_space input ≢ []
      → consume_connect_token backend input w ≡ redeem_token backend (trim_space input) w
  unfolding consume_connect_token
  consume_token-redeem input w filled = elim (str_dec (trim_space input) []) [
    | yes empty ↦ absurd (filled empty)
    | no _ ↦ ground arith
  ]

  pub get_session-world :
      (id : Str) (w : W) → (get_session backend.redis backend.sessions id w).0 ≡ w
  unfolding get_session
  get_session-world id w = refl

  continue-world :
      {A : Type 0} (r : W × Result A) (id : A → Str)
      → (continue r (λ a. get_session backend.redis backend.sessions (id a))).0 ≡ r.0
  unfolding get_session
  continue-world (w, ok a) id = refl
  continue-world (w, err e) id = refl

  pub redeem-world :
      (ticket_id : Str) (w : W)
      → (redeem_ticket backend ticket_id w).0
        ≡ (backend.redis.get_del w (login_ticket_key ticket_id)).0
  unfolding redeem_ticket consume_ticket
  redeem-world ticket_id w =
      continue-world
        (
          (backend.redis.get_del w (login_ticket_key ticket_id)).0,
          read backend.tickets ticket_not_found
              (backend.redis.get_del w (login_ticket_key ticket_id)).1,
        )
        (λ (t : LoginTicket). t.session_id)

  pub redeem_token-world :
      (token_id : Str) (w : W)
      → (redeem_token backend token_id w).0
        ≡ (backend.redis.get_del w (connect_token_key token_id)).0
  unfolding redeem_token consume_token
  redeem_token-world token_id w =
      continue-world
        (
          (backend.redis.get_del w (connect_token_key token_id)).0,
          read backend.tokens connect_token_not_found
              (backend.redis.get_del w (connect_token_key token_id)).1,
        )
        (λ (t : ConnectToken). t.session_id)

  redeem-answered :
      (ticket_id : Str) (w : W) (s : Session)
      → (redeem_ticket backend ticket_id w).1 ≡ ok s
      → (backend.redis.get_del w (login_ticket_key ticket_id)).1 ≢ failed
  unfolding redeem_ticket consume_ticket
  redeem-answered ticket_id w s e f =
      let e' : ◌≡◌ {A = Result Session} (err internal) (ok s) = rw f at e in cc

  pub redeem-gone :
      (ticket_id : Str) (w : W) (s : Session)
      → IsRedis backend.redis value_at
      → (redeem_ticket backend ticket_id w).1 ≡ ok s
      → value_at (redeem_ticket backend ticket_id w).0 (login_ticket_key ticket_id) ≡ none
  redeem-gone ticket_id w s laws e =
      rw (redeem-world ticket_id w)
        (laws.get_del_gone w (login_ticket_key ticket_id) (redeem-answered ticket_id w s e))

  pub get_session-finds :
      (w : W) (id : Str) (s : Session) (q : Str)
      → IsRedis backend.redis value_at
      → value_at w (session_key id) ≡ some q
      → backend.sessions.unmarshal q ≡ some s
      → ((get_session backend.redis backend.sessions id w).1 ≡ ok s)
        ⊎ ((get_session backend.redis backend.sessions id w).1 ≡ err internal)
  unfolding get_session
  get_session-finds w id s q laws at_session dec =
      elim (Answer-cases (backend.redis.get w (session_key id))) [
        | inl a ↦ absurd (none_ne_some (sym (laws.get_missing w (session_key id) a) ∙ at_session))
        | inr (inl a) ↦ inr (rw a refl)
        | inr (inr (v, a)) ↦
            let e : some v ≡ some q = sym (laws.get_found w (session_key id) v a) ∙ at_session in
            let f : v ≡ q = cc in inl (rw (a, f, dec) refl)
      ]

  -- A ticket in Redis with its session beside it gives the session, unless Redis fails.
  pub redeem-finds :
      (ticket_id : Str) (w : W) (t : LoginTicket) (s : Session) (p q : Str)
      → IsRedis backend.redis value_at
      → value_at w (login_ticket_key ticket_id) ≡ some p
      → backend.tickets.unmarshal p ≡ some t
      → value_at w (session_key t.session_id) ≡ some q
      → backend.sessions.unmarshal q ≡ some s
      → ((redeem_ticket backend ticket_id w).1 ≡ ok s)
        ⊎ ((redeem_ticket backend ticket_id w).1 ≡ err internal)
  unfolding redeem_ticket consume_ticket
  redeem-finds ticket_id w t s p q laws at_ticket dec at_session dec' =
      elim (Answer-cases (backend.redis.get_del w (login_ticket_key ticket_id)).1) [
        | inl a ↦
            absurd (
              none_ne_some
                (sym (laws.get_del_missing w (login_ticket_key ticket_id) a) ∙ at_ticket))
        | inr (inl a) ↦ inr (rw a refl)
        | inr (inr (v, a)) ↦
            let e : some v ≡ some p =
              sym (laws.get_del_found w (login_ticket_key ticket_id) v a) ∙ at_ticket in
            let f : v ≡ p = cc in
            let kept : value_at (backend.redis.get_del w (login_ticket_key ticket_id)).0
                  (session_key t.session_id)
                ≡ some q =
              laws.get_del_other w (login_ticket_key ticket_id) (session_key t.session_id)
                (ticket_key_ne_session_key ticket_id t.session_id)
              ∙ at_session in
            rw (a, f, dec)
              (get_session-finds (backend.redis.get_del w (login_ticket_key ticket_id)).0
                t.session_id s q laws kept dec')
      ]

  -- A token in Redis with its session beside it gives the session, unless Redis fails.
  pub redeem_token-finds :
      (token_id : Str) (w : W) (t : ConnectToken) (s : Session) (p q : Str)
      → IsRedis backend.redis value_at
      → value_at w (connect_token_key token_id) ≡ some p
      → backend.tokens.unmarshal p ≡ some t
      → value_at w (session_key t.session_id) ≡ some q
      → backend.sessions.unmarshal q ≡ some s
      → ((redeem_token backend token_id w).1 ≡ ok s)
        ⊎ ((redeem_token backend token_id w).1 ≡ err internal)
  unfolding redeem_token consume_token
  redeem_token-finds token_id w t s p q laws at_token dec at_session dec' =
      elim (Answer-cases (backend.redis.get_del w (connect_token_key token_id)).1) [
        | inl a ↦
            absurd (
              none_ne_some (sym (laws.get_del_missing w (connect_token_key token_id) a) ∙ at_token))
        | inr (inl a) ↦ inr (rw a refl)
        | inr (inr (v, a)) ↦
            let e : some v ≡ some p =
              sym (laws.get_del_found w (connect_token_key token_id) v a) ∙ at_token in
            let f : v ≡ p = cc in
            let kept : value_at (backend.redis.get_del w (connect_token_key token_id)).0
                  (session_key t.session_id)
                ≡ some q =
              laws.get_del_other w (connect_token_key token_id) (session_key t.session_id)
                (token_key_ne_session_key token_id t.session_id)
              ∙ at_session in
            rw (a, f, dec)
              (get_session-finds (backend.redis.get_del w (connect_token_key token_id)).0
                t.session_id s q laws kept dec')
      ]

  pub blank_ticket :
      (input : Str) (w : W)
      → trim_space input ≡ []
      → consume_login_ticket backend input w ≡ (w, err invalid_argument)
  unfolding consume_login_ticket
  blank_ticket input w blank = elim (str_dec (trim_space input) []) [
    | yes _ ↦ ground arith
    | no filled ↦ absurd (filled blank)
  ]

  pub blank_token :
      (input : Str) (w : W)
      → trim_space input ≡ []
      → consume_connect_token backend input w ≡ (w, err invalid_argument)
  unfolding consume_connect_token
  blank_token input w blank = elim (str_dec (trim_space input) []) [
    | yes _ ↦ ground arith
    | no filled ↦ absurd (filled blank)
  ]

  -- A call that gives a session had a ticket in it.
  pub given-filled :
      (input : Str) (w : W) (s : Session)
      → (consume_login_ticket backend input w).1 ≡ ok s
      → trim_space input ≢ []
  given-filled input w s e blank =
      let r : ◌≡◌ {A = Result Session} (err invalid_argument) (ok s) =
        sym (ap (λ x. x.1) (blank_ticket input w blank)) ∙ e in
      absurd (err_ne_ok r)

  pub given-gone :
      (input : Str) (w : W) (s : Session)
      → IsRedis backend.redis value_at
      → (consume_login_ticket backend input w).1 ≡ ok s
      → value_at (consume_login_ticket backend input w).0 (login_ticket_key (trim_space input))
        ≡ none
  given-gone input w s laws e =
      let same : consume_login_ticket backend input w ≡ redeem_ticket backend (trim_space input) w =
        consume-redeem input w (given-filled input w s e) in
      rw same (redeem-gone (trim_space input) w s laws (rw same at e))

  pub IsRefused-ticket :
      (input : Str) (w : W)
      → IsRedis backend.redis value_at
      → trim_space input ≢ []
      → value_at w (login_ticket_key (trim_space input)) ≡ none
      → IsRefused (consume_login_ticket backend input w).1
  IsRefused-ticket input w laws filled gone =
      rw (consume-redeem input w filled) (IsRefused-redeem (trim_space input) w laws gone)
