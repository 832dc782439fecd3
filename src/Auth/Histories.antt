-- ===== src/Auth/Histories.antt =====
-- What holds after any sequence of calls: one session for each account, and no ticket used twice.
use card.Prelude.{
  ◌≡◌, refl, sym, subst, ◌∙◌, ◌≢◌, inl, inr, List, [], ◌∷◌, none, arith, Option-cases,
}
use card.Prelude.Text.{Str, codes, str_dec, trim_space}
use card.Auth.Model.{Session, LoginTicket, ConnectToken}
use card.Auth.Stores.{IsRedis, Document, Update}
use card.Auth.Repository.{
  save_ticket, save_token, login_ticket_key, connect_token_key, session_key, account_session_key,
  get_session,
}
use card.Auth.Service.{
  Backend, Randoms, consume_login_ticket, consume_connect_token, validate_session, session_ttl,
  ticket_ttl, connect_token_ttl,
}
use card.Auth.Keys.{
  ticket_key_ne_session_key, token_key_ne_session_key, ticket_key_ne_account_key,
  token_key_ne_account_key,
}
use card.Auth.Sessions.{View, IsLive, IsSingle, one_session, none_ne_some}
use card.Auth.Saving.{done-world, save_session-IsSingle}
use card.Auth.Tickets.{
  redeem-world, redeem_token-world, blank_ticket, blank_token, consume-redeem, consume_token-redeem,
}
use card.Auth.Logins.{IsSound, drawn-filled}
use card.Auth.Calls.{
  Call, login_call, ticket_call, token_call, validate_call, run_call, run_calls, Keeps, login-keeps,
}

module _ {W : Type 0} (backend : Backend W) (value_at : W → View) where
  -- The two stores are separate: a call of MongoDB leaves Redis.
  pub record IsSeparate : Type 0 where
    pub bindings :
        (w : W) (filter : Document) (u : Update)
        → value_at (backend.mongo.bindings_update w filter u).0 ≡ value_at w
    pub accounts :
        (w : W) (filter : Document) (u : Update)
        → value_at (backend.mongo.accounts_update w filter u).0 ≡ value_at w

  pub save_ticket-other :
      (w : W) (t : LoginTicket) (j : Str)
      → IsRedis backend.redis value_at
      → login_ticket_key t.ticket_id ≢ j
      → value_at (save_ticket backend.redis backend.tickets t ticket_ttl w).0 j ≡ value_at w j
  unfolding save_ticket
  save_ticket-other w t j laws other = elim (Option-cases (backend.tickets.marshal t)) [
    | inl m ↦ rw m refl
    | inr (p, m) ↦
        rw (m, done-world (backend.redis.set w (login_ticket_key t.ticket_id) p ticket_ttl))
          (laws.set_other w (login_ticket_key t.ticket_id) p ticket_ttl j other)
  ]

  pub save_token-other :
      (w : W) (c : ConnectToken) (j : Str)
      → IsRedis backend.redis value_at
      → connect_token_key c.token_id ≢ j
      → value_at (save_token backend.redis backend.tokens c connect_token_ttl w).0 j ≡ value_at w j
  unfolding save_token
  save_token-other w c j laws other = elim (Option-cases (backend.tokens.marshal c)) [
    | inl m ↦ rw m refl
    | inr (p, m) ↦
        rw (m, done-world (backend.redis.set w (connect_token_key c.token_id) p connect_token_ttl))
          (laws.set_other w (connect_token_key c.token_id) p connect_token_ttl j other)
  ]

  pub consume-other :
      (w : W) (input j : Str)
      → IsRedis backend.redis value_at
      → login_ticket_key (trim_space input) ≢ j
      → value_at (consume_login_ticket backend input w).0 j ≡ value_at w j
  consume-other w input j laws other = elim (str_dec (trim_space input) []) [
    | yes blank ↦ rw (blank_ticket backend value_at input w blank) refl
    | no filled ↦
        rw
          (
            consume-redeem backend value_at input w filled,
            redeem-world backend value_at (trim_space input) w,
          )
          (laws.get_del_other w (login_ticket_key (trim_space input)) j other)
  ]

  pub consume_token-other :
      (w : W) (input j : Str)
      → IsRedis backend.redis value_at
      → connect_token_key (trim_space input) ≢ j
      → value_at (consume_connect_token backend input w).0 j ≡ value_at w j
  consume_token-other w input j laws other = elim (str_dec (trim_space input) []) [
    | yes blank ↦ rw (blank_token backend value_at input w blank) refl
    | no filled ↦
        rw
          (
            consume_token-redeem backend value_at input w filled,
            redeem_token-world backend value_at (trim_space input) w,
          )
          (laws.get_del_other w (connect_token_key (trim_space input)) j other)
  ]

  pub validate-world : (w : W) (input : Str) → (validate_session backend input w).0 ≡ w
  unfolding validate_session get_session
  validate-world w input = elim (str_dec (trim_space input) []) [
    | yes _ ↦ ground arith
    | no _ ↦ ground arith
  ]

  -- Calls that leave the keys of sessions and accounts leave the sessions single.
  same_sessions :
      (w v : W)
      → ((id : Str) → value_at v (session_key id) ≡ value_at w (session_key id))
      → ((a : Str) → value_at v (account_session_key a) ≡ value_at w (account_session_key a))
      → IsSingle backend.sessions (value_at w)
      → IsSingle backend.sessions (value_at v)
  same_sessions w v sessions accounts single id s (p, at_id, dec) =
      let (at_account, filled) = single id s (p, sym (sessions id) ∙ at_id, dec) in
      (accounts s.account_id ∙ at_account, filled)

  Single : W → Type 0
  Single w = IsSingle backend.sessions (value_at w)

  login-Single :
      (randoms : Randoms) → IsSound backend value_at → IsSeparate → Keeps backend Single randoms
  unfolding Single
  login-Single randoms sound apart = record {
    bindings =
        λ w filter u h. subst (IsSingle backend.sessions) (sym (apart.bindings w filter u)) h;
    accounts =
        λ w filter u h. subst (IsSingle backend.sessions) (sym (apart.accounts w filter u)) h;
    session = λ w s drawn h.
        save_session-IsSingle backend.redis value_at backend.sessions w s session_ttl
          sound.redis_laws sound.session_trips
          (drawn-filled (codes "sess") randoms.session s.session_id drawn) h;
    ticket = λ w t _ h.
        same_sessions w (save_ticket backend.redis backend.tickets t ticket_ttl w).0
          (λ id.
            save_ticket-other w t (session_key id) sound.redis_laws
              (ticket_key_ne_session_key t.ticket_id id))
          (λ a.
            save_ticket-other w t (account_session_key a) sound.redis_laws
              (ticket_key_ne_account_key t.ticket_id a))
          h;
    token = λ w c h.
        same_sessions w (save_token backend.redis backend.tokens c connect_token_ttl w).0
          (λ id.
            save_token-other w c (session_key id) sound.redis_laws
              (token_key_ne_session_key c.token_id id))
          (λ a.
            save_token-other w c (account_session_key a) sound.redis_laws
              (token_key_ne_account_key c.token_id a))
          h;
  }

  run_call-IsSingle :
      (w : W) (c : Call)
      → IsSound backend value_at
      → IsSeparate
      → IsSingle backend.sessions (value_at w)
      → IsSingle backend.sessions (value_at (run_call backend w c))
  unfolding run_call Single
  run_call-IsSingle w (login_call input now randoms) sound apart h =
      login-keeps backend Single randoms input now w (login-Single randoms sound apart) h
  run_call-IsSingle w (ticket_call input) sound apart h =
      same_sessions w (consume_login_ticket backend input w).0
        (λ id.
          consume-other w input (session_key id) sound.redis_laws
            (ticket_key_ne_session_key (trim_space input) id))
        (λ a.
          consume-other w input (account_session_key a) sound.redis_laws
            (ticket_key_ne_account_key (trim_space input) a))
        h
  run_call-IsSingle w (token_call input) sound apart h =
      same_sessions w (consume_connect_token backend input w).0
        (λ id.
          consume_token-other w input (session_key id) sound.redis_laws
            (token_key_ne_session_key (trim_space input) id))
        (λ a.
          consume_token-other w input (account_session_key a) sound.redis_laws
            (token_key_ne_account_key (trim_space input) a))
        h
  run_call-IsSingle w (validate_call input) sound apart h = rw (validate-world w input) h

  run_calls-IsSingle :
      (w : W) (cs : List Call)
      → IsSound backend value_at
      → IsSeparate
      → IsSingle backend.sessions (value_at w)
      → IsSingle backend.sessions (value_at (run_calls backend w cs))
  unfolding run_calls
  run_calls-IsSingle w [] sound apart h = h
  run_calls-IsSingle w (c ∷ cs) sound apart h =
      run_calls-IsSingle (run_call backend w c) cs sound apart (run_call-IsSingle w c sound apart h)

  -- With stores and codecs that keep their promises, from a Redis without sessions, whatever calls are
  -- made one at a time and wherever the stores fail, two sessions of one account that can be read are
  -- one session.
  pub run_calls-one_session :
      (w : W) (cs : List Call) (i j : Str) (s t : Session)
      → IsSound backend value_at
      → IsSeparate
      → ((id : Str) → value_at w (session_key id) ≡ none)
      → IsLive backend.sessions (value_at (run_calls backend w cs)) i s
      → IsLive backend.sessions (value_at (run_calls backend w cs)) j t
      → s.account_id ≡ t.account_id
      → i ≡ j
  run_calls-one_session w cs i j s t sound apart empty li lj same =
      one_session backend.sessions (value_at (run_calls backend w cs)) i j s t
        (run_calls-IsSingle w cs sound apart
          (λ id u live. absurd (none_ne_some (sym (empty id) ∙ live.1))))
        li lj same
