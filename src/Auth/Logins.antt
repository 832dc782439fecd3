-- ===== src/Auth/Logins.antt =====
-- What a login that returns no error stores, and what its ticket and its token give.
use card.Prelude.{ℕ, ◌≡◌, refl, ap, subst, ◌∙◌, ◌≢◌, List, [], ◌∷◌, ◌++◌, Option, none, some}
use card.Prelude.Text.{
  Str, codes, IsSolid, IsSolid-append, hex_encode, hex_encode-IsSolid, is_space,
}
use card.Gate.Model.{Time}
use card.Auth.Model.{
  Session, LoginTicket, ConnectToken, Account, AccountBinding, LoginResult, Result, ok, lift,
  new_id, continue-ok,
}
use card.Auth.Stores.{IsRedis}
use card.Auth.Accounts.{upsert_account}
use card.Auth.Repository.{
  RoundTrips, session_key, account_session_key, login_ticket_key, connect_token_key, save_session,
  save_ticket, save_token,
}
use card.Auth.Service.{
  Backend, Randoms, login_bound, save_login, login_session, login_ticket, login_token, login_result,
  session_ttl, ticket_ttl, connect_token_ttl,
}
use card.Auth.Keys.{
  ticket_key_ne_session_key, token_key_ne_session_key, token_key_ne_ticket_key,
  ticket_key_ne_account_key, token_key_ne_account_key,
}
use card.Auth.Sessions.{View, IsLive}
use card.Auth.Saving.{save_session-IsSaved, IsSaved}
use card.Auth.Writes.{IsWritten-other, IsWritten-self, save_ticket-IsWritten, save_token-IsWritten}

answer_inj : {A : Type 0} {a b : A} → ◌≡◌ {A = Result A} (ok a) (ok b) → a ≡ b
answer_inj e = cc

filled_append : (prefix : Str) (buf : List ℕ) → prefix ++ codes "_" ++ hex_encode buf ≡ [] → ⊥
filled_append [] buf e = cc
filled_append (c ∷ p) buf e = cc

pub drawn-IsSolid :
    (prefix : Str) (random : Option (List ℕ)) (id : Str)
    → IsSolid (prefix ++ codes "_")
    → new_id prefix random ≡ ok id
    → IsSolid id × (id ≢ [])
unfolding new_id
drawn-IsSolid prefix none id h e = cc
drawn-IsSolid prefix (some buf) id h e =
    let same : prefix ++ codes "_" ++ hex_encode buf ≡ id = answer_inj e in
    (
      subst IsSolid same
          (IsSolid-append (prefix ++ codes "_") (hex_encode buf) h (hex_encode-IsSolid buf)),
      λ empty. filled_append prefix buf (same ∙ empty),
    )

pub drawn-filled :
    (prefix : Str) (random : Option (List ℕ)) (id : Str) → new_id prefix random ≡ ok id → id ≢ []
unfolding new_id
drawn-filled prefix none id e = cc
drawn-filled prefix (some buf) id e = λ empty. filled_append prefix buf (answer_inj e ∙ empty)

lifted : {W A : Type 0} {r : Result A} {w w' : W} {a : A} → lift r w ≡ (w', ok a) → r ≡ ok a
lifted e = ap (λ x. x.1) e

sess-IsSolid : IsSolid (codes "sess" ++ codes "_")
unfolding is_space
sess-IsSolid = (refl, (refl, (refl, (refl, (refl, tt)))))

lt-IsSolid : IsSolid (codes "lt" ++ codes "_")
unfolding is_space
lt-IsSolid = (refl, (refl, (refl, tt)))

ct-IsSolid : IsSolid (codes "ct" ++ codes "_")
unfolding is_space
ct-IsSolid = (refl, (refl, (refl, tt)))

module _ {W : Type 0} (backend : Backend W) (value_at : W → View) where
  -- What the stores hold after a login of the session `s`, the ticket `t` and the token `c`.
  pub record IsStored (v : W) (s : Session) (t : LoginTicket) (c : ConnectToken) : Type 0 where
    pub session : IsLive backend.sessions (value_at v) s.session_id s
    pub entry : value_at v (account_session_key s.account_id) ≡ some s.session_id
    pub ticket :
        (p : Str) × (value_at v (login_ticket_key t.ticket_id) ≡ some p)
        × (backend.tickets.unmarshal p ≡ some t)
    pub token :
        (p : Str) × (value_at v (connect_token_key c.token_id) ≡ some p)
        × (backend.tokens.unmarshal p ≡ some c)

  -- The promises of Redis and of the codecs.
  pub record IsSound : Type 0 where
    pub redis_laws : IsRedis backend.redis value_at
    pub session_trips : RoundTrips backend.sessions
    pub ticket_trips : RoundTrips backend.tickets
    pub token_trips : RoundTrips backend.tokens

  stored :
      (w w1 w2 v : W) (s : Session) (t : LoginTicket) (c : ConnectToken)
      → IsSound
      → save_session backend.redis backend.sessions s session_ttl w ≡ (w1, ok tt)
      → save_ticket backend.redis backend.tickets t ticket_ttl w1 ≡ (w2, ok tt)
      → save_token backend.redis backend.tokens c connect_token_ttl w2 ≡ (v, ok tt)
      → IsStored v s t c
  stored w w1 w2 v s t c sound e1 e2 e3 =
      let saved : IsSaved backend.redis value_at backend.sessions w s w1 =
        save_session-IsSaved backend.redis value_at backend.sessions w w1 s session_ttl
          sound.redis_laws sound.session_trips e1 in
      let (p, m, b) =
        save_ticket-IsWritten backend.redis value_at backend.tickets t ticket_ttl w1 w2
          sound.redis_laws e2 in
      let (q, n, d) =
        save_token-IsWritten backend.redis value_at backend.tokens c connect_token_ttl w2 v
          sound.redis_laws e3 in
      let (r, at_session, dec) = saved.live in
      record {
        session = (
          r,
          IsWritten-other backend.redis value_at w2 v (connect_token_key c.token_id) q
                (session_key s.session_id) d (token_key_ne_session_key c.token_id s.session_id)
              ∙ IsWritten-other backend.redis value_at w1 w2 (login_ticket_key t.ticket_id) p
                  (session_key s.session_id) b (ticket_key_ne_session_key t.ticket_id s.session_id)
              ∙ at_session,
          dec,
        );
        entry =
            IsWritten-other backend.redis value_at w2 v (connect_token_key c.token_id) q
              (account_session_key s.account_id) d
              (token_key_ne_account_key c.token_id s.account_id)
            ∙ IsWritten-other backend.redis value_at w1 w2 (login_ticket_key t.ticket_id) p
                (account_session_key s.account_id) b
                (ticket_key_ne_account_key t.ticket_id s.account_id)
            ∙ saved.entry;
        ticket = (
          p,
          IsWritten-other backend.redis value_at w2 v (connect_token_key c.token_id) q
                (login_ticket_key t.ticket_id) d (token_key_ne_ticket_key c.token_id t.ticket_id)
              ∙ IsWritten-self backend.redis value_at w1 w2 (login_ticket_key t.ticket_id) p b,
          sound.ticket_trips t p m,
        );
        token = (
          q,
          IsWritten-self backend.redis value_at w2 v (connect_token_key c.token_id) q d,
          sound.token_trips c q n,
        );
      }

  save_login-IsStored :
      (w v : W) (a : Account) (s : Session) (t : LoginTicket) (c : ConnectToken) (r : LoginResult)
      → IsSound
      → save_login backend a s t c w ≡ (v, ok r)
      → IsStored v s t c × (login_result a s t c ≡ r)
  unfolding save_login
  save_login-IsStored w v a s t c r sound e =
      let (w1, _, e1, f1) =
        continue-ok (save_session backend.redis backend.sessions s session_ttl w) _ v r e in
      let (w2, _, e2, f2) =
        continue-ok (save_ticket backend.redis backend.tickets t ticket_ttl w1) _ v r f1 in
      let (w3, _, e3, f3) =
        continue-ok (save_token backend.redis backend.tokens c connect_token_ttl w2) _ v r f2 in
      let same : w3 ≡ v = ap (λ (x : W × Result LoginResult). x.0) f3 in
      (
        subst (λ x. IsStored x s t c) same (stored w w1 w2 w3 s t c sound e1 e2 e3),
        answer_inj (ap (λ (x : W × Result LoginResult). x.1) f3),
      )

  -- The ids of the result are those of the records, all of one account and session, and have no
  -- white space.
  pub record IsFor (s : Session) (t : LoginTicket) (c : ConnectToken) (r : LoginResult)
      : Type 0 where
    pub session_id : s.session_id ≡ r.session_id
    pub account_id : s.account_id ≡ r.account_id
    pub ticket_id : t.ticket_id ≡ r.login_ticket
    pub ticket_session : t.session_id ≡ s.session_id
    pub token_id : c.token_id ≡ r.connect_token
    pub token_session : c.session_id ≡ s.session_id
    pub session_drawn : IsSolid r.session_id × (r.session_id ≢ [])
    pub ticket_drawn : IsSolid r.login_ticket × (r.login_ticket ≢ [])
    pub token_drawn : IsSolid r.connect_token × (r.connect_token ≢ [])

  ended :
      (now : Time) (binding : AccountBinding) (account : Account)
      (session_id ticket_id token_id : Str) (w v : W) (r : LoginResult)
      → IsSound
      → IsSolid session_id × (session_id ≢ [])
      → IsSolid ticket_id × (ticket_id ≢ [])
      → IsSolid token_id × (token_id ≢ [])
      → save_login backend account
          (login_session binding account session_id now)
          (login_ticket account session_id ticket_id now)
          (login_token binding account session_id token_id now)
          w
        ≡ (v, ok r)
      → (s : Session) × (t : LoginTicket) × (c : ConnectToken) × IsStored v s t c × IsFor s t c r
  unfolding login_session login_ticket login_token login_result
  ended now binding account session_id ticket_id token_id w v r sound sd td cd e =
      let s : Session = login_session binding account session_id now in
      let t : LoginTicket = login_ticket account session_id ticket_id now in
      let c : ConnectToken = login_token binding account session_id token_id now in
      let (st, same) = save_login-IsStored w v account s t c r sound e in
      (
        s,
        t,
        c,
        st,
        subst (IsFor s t c) same (record {
          session_id = refl;
          account_id = refl;
          ticket_id = refl;
          ticket_session = refl;
          token_id = refl;
          token_session = refl;
          session_drawn = sd;
          ticket_drawn = td;
          token_drawn = cd;
        }),
      )

  pub login_bound-IsStored :
      (now : Time) (randoms : Randoms) (binding : AccountBinding) (w v : W) (r : LoginResult)
      → IsSound
      → login_bound backend now randoms binding w ≡ (v, ok r)
      → (s : Session) × (t : LoginTicket) × (c : ConnectToken) × IsStored v s t c × IsFor s t c r
  unfolding login_bound
  login_bound-IsStored now randoms binding w v r sound e =
      let (w1, account, e1, f1) =
        continue-ok (upsert_account backend.mongo binding now w) _ v r e in
      let (w2, session_id, e2, f2) =
        continue-ok (lift (new_id (codes "sess") randoms.session) w1) _ v r f1 in
      let (w3, ticket_id, e3, f3) =
        continue-ok (lift (new_id (codes "lt") randoms.ticket) w2) _ v r f2 in
      let (w4, token_id, e4, f4) =
        continue-ok (lift (new_id (codes "ct") randoms.token) w3) _ v r f3 in
      ended now binding account session_id ticket_id token_id w4 v r sound
        (drawn-IsSolid (codes "sess") randoms.session session_id sess-IsSolid (lifted e2))
        (drawn-IsSolid (codes "lt") randoms.ticket ticket_id lt-IsSolid (lifted e3))
        (drawn-IsSolid (codes "ct") randoms.token token_id ct-IsSolid (lifted e4)) f4
