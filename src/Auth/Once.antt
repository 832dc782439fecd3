-- ===== src/Auth/Once.antt =====
-- A login ticket is good for one session, whatever calls come after.
use card.Prelude.{ℕ, ◌≡◌, refl, ap, ◌∙◌, ◌≢◌, inl, inr, List, [], ◌∷◌, none, arith, Option-cases}
use card.Prelude.Text.{Str, codes, str_dec, trim_space}
use card.Auth.Model.{Session, ok, new_id}
use card.Auth.Stores.{IsRedis, apply_all, Command}
use card.Auth.Repository.{
  save_session, save_over, current_session, save_commands, login_ticket_key, account_session_key,
}
use card.Auth.Service.{Backend, Randoms, consume_login_ticket, session_ttl}
use card.Auth.Keys.{
  ticket_key_ne_session_key, token_key_ne_ticket_key, ticket_key_ne_account_key,
  login_ticket_key-inj,
}
use card.Auth.Sessions.{View}
use card.Auth.Saving.{Answer-cases, done-world}
use card.Auth.Tickets.{
  redeem-world, blank_ticket, consume-redeem, IsRefused-ticket, IsRefused, given-gone, given-filled,
}
use card.Auth.Calls.{
  Call, login_call, ticket_call, token_call, validate_call, run_call, run_calls, Keeps, login-keeps,
}
use card.Auth.Histories.{
  IsSeparate, save_ticket-other, consume-other, consume_token-other, save_token-other,
  validate-world,
}
use card.Prelude.Pairs.{All}

module _ {W : Type 0} (backend : Backend W) (value_at : W → View) where
  -- The call is no login that draws `id` as the id of its ticket.
  abbrev pub Avoids : Str → Call → Type 0
  Avoids id (login_call input now randoms) = new_id (codes "lt") randoms.ticket ≢ ok id
  Avoids id (ticket_call input) = Unit
  Avoids id (token_call input) = Unit
  Avoids id (validate_call input) = Unit

  Gone : Str → W → Type 0
  Gone id w = value_at w (login_ticket_key id) ≡ none

  saved_ticket_key :
      (view : View) (s : Session) (old payload : Str) (ttl : ℕ) (id : Str)
      → apply_all (save_commands s old payload ttl) view (login_ticket_key id)
        ≡ view (login_ticket_key id)
  unfolding save_commands
  saved_ticket_key view s old payload ttl id = ground (
    arith,
    ticket_key_ne_session_key id s.session_id,
    ticket_key_ne_account_key id s.account_id,
    ticket_key_ne_session_key id old,
  )

  save_over-ticket :
      (w : W) (s : Session) (old id : Str)
      → IsRedis backend.redis value_at
      → value_at
          (save_over backend.redis backend.sessions s session_ttl old w).0
          (login_ticket_key id)
        ≡ value_at w (login_ticket_key id)
  unfolding save_over
  save_over-ticket w s old id laws = elim (Option-cases (backend.sessions.marshal s)) [
    | inl m ↦ rw m refl
    | inr (p, m) ↦
        let cs : List Command = save_commands s old p session_ttl in
        rw (m, done-world (backend.redis.exec w cs))
          (elim (laws.exec_atomic w cs) [
            | inl same ↦ rw same refl
            | inr all ↦ rw all (saved_ticket_key (value_at w) s old p session_ttl id)
          ])
  ]

  save_session-ticket :
      (w : W) (s : Session) (id : Str)
      → IsRedis backend.redis value_at
      → value_at
          (save_session backend.redis backend.sessions s session_ttl w).0
          (login_ticket_key id)
        ≡ value_at w (login_ticket_key id)
  unfolding save_session current_session
  save_session-ticket w s id laws =
      elim (Answer-cases (backend.redis.get w (account_session_key s.account_id))) [
        | inl a ↦ rw a (save_over-ticket w s [] id laws)
        | inr (inl a) ↦ rw a refl
        | inr (inr (old, a)) ↦ rw a (save_over-ticket w s old id laws)
      ]

  login-Gone :
      (randoms : Randoms) (id : Str)
      → IsRedis backend.redis value_at
      → IsSeparate backend value_at
      → new_id (codes "lt") randoms.ticket ≢ ok id
      → Keeps backend (Gone id) randoms
  unfolding Gone
  login-Gone randoms id laws apart avoids = record {
    bindings =
        λ w filter u h. ap (λ view. view (login_ticket_key id)) (apart.bindings w filter u) ∙ h;
    accounts =
        λ w filter u h. ap (λ view. view (login_ticket_key id)) (apart.accounts w filter u) ∙ h;
    session = λ w s _ h. save_session-ticket w s id laws ∙ h;
    ticket = λ w t drawn h.
        save_ticket-other backend value_at w t (login_ticket_key id) laws
          (λ e. avoids (drawn ∙ ap ok (login_ticket_key-inj t.ticket_id id e)))
        ∙ h;
    token = λ w c h.
        save_token-other backend value_at w c (login_ticket_key id) laws
          (token_key_ne_ticket_key c.token_id id)
        ∙ h;
  }

  consume-Gone :
      (w : W) (input id : Str)
      → IsRedis backend.redis value_at
      → value_at w (login_ticket_key id) ≡ none
      → value_at (consume_login_ticket backend input w).0 (login_ticket_key id) ≡ none
  consume-Gone w input id laws h = elim (str_dec (trim_space input) id) [
    | yes same ↦ elim (str_dec (trim_space input) []) [
      | yes blank ↦ rw (blank_ticket backend value_at input w blank) h
      | no filled ↦
          rw
            (
              consume-redeem backend value_at input w filled,
              redeem-world backend value_at (trim_space input) w,
              same,
            )
            (elim (laws.get_del_either w (login_ticket_key id)) [
              | inl kept ↦ kept ∙ h
              | inr gone ↦ gone
            ])
    ]
    | no other ↦
        consume-other backend value_at w input (login_ticket_key id) laws
          (λ e. other (login_ticket_key-inj (trim_space input) id e))
        ∙ h
  ]

  run_call-Gone :
      (w : W) (c : Call) (id : Str)
      → IsRedis backend.redis value_at
      → IsSeparate backend value_at
      → Avoids id c
      → value_at w (login_ticket_key id) ≡ none
      → value_at (run_call backend w c) (login_ticket_key id) ≡ none
  unfolding run_call Gone
  run_call-Gone w (login_call input now randoms) id laws apart avoids h =
      login-keeps backend (Gone id) randoms input now w (login-Gone randoms id laws apart avoids) h
  run_call-Gone w (ticket_call input) id laws apart avoids h = consume-Gone w input id laws h
  run_call-Gone w (token_call input) id laws apart avoids h =
      consume_token-other backend value_at w input (login_ticket_key id) laws
        (token_key_ne_ticket_key (trim_space input) id)
      ∙ h
  run_call-Gone w (validate_call input) id laws apart avoids h =
      rw (validate-world backend value_at w input) h

  run_calls-Gone :
      (w : W) (cs : List Call) (id : Str)
      → IsRedis backend.redis value_at
      → IsSeparate backend value_at
      → All (Avoids id) cs
      → value_at w (login_ticket_key id) ≡ none
      → value_at (run_calls backend w cs) (login_ticket_key id) ≡ none
  unfolding run_calls
  run_calls-Gone w [] id laws apart avoids h = h
  run_calls-Gone w (c ∷ cs) id laws apart avoids h =
      run_calls-Gone (run_call backend w c) cs id laws apart avoids.1
        (run_call-Gone w c id laws apart avoids.0 h)

  -- With stores that keep their promises, a login ticket that gave a session is used up: after any
  -- further calls, of which no login draws its id again, it is refused, unless Redis fails.
  pub consume_login_ticket-once :
      (input : Str) (w : W) (s : Session) (cs : List Call)
      → IsRedis backend.redis value_at
      → IsSeparate backend value_at
      → All (Avoids (trim_space input)) cs
      → (consume_login_ticket backend input w).1 ≡ ok s
      → IsRefused backend value_at
          (consume_login_ticket backend input
            (run_calls backend (consume_login_ticket backend input w).0 cs)).1
  consume_login_ticket-once input w s cs laws apart avoids e =
      IsRefused-ticket backend value_at input
        (run_calls backend (consume_login_ticket backend input w).0 cs) laws
        (given-filled backend value_at input w s e)
        (run_calls-Gone (consume_login_ticket backend input w).0 cs (trim_space input) laws apart
          avoids (given-gone backend value_at input w s laws e))
