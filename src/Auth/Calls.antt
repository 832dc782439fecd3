-- ===== src/Auth/Calls.antt =====
-- Any sequence of calls of the service, one at a time.
use card.Prelude.{◌≡◌, refl, ap, List, [], ◌∷◌, Option, none, some}
use card.Prelude.Text.{Str, codes}
use card.Gate.Model.{Time}
use card.Auth.Model.{
  Session, LoginTicket, ConnectToken, LoginInput, Account, AccountBinding, Result, ok, err, lift,
  new_id, continue, Run,
}
use card.Auth.Stores.{Document, Update, text}
use card.Auth.Repository.{save_session, save_ticket, save_token}
use card.Auth.Accounts.{
  find_or_create_binding, upsert_account, decoded, binding_filter, binding_update, decode_binding,
  decode_account, account_update,
}
use card.Auth.Service.{
  Backend, Randoms, validate_login_input, normalize_login_input, login, login_normal, login_bound,
  save_login, consume_login_ticket, consume_connect_token, validate_session, session_ttl,
  ticket_ttl, connect_token_ttl, login_session, login_ticket, login_token,
}

pub data Call : Type 0 where
  login_call : LoginInput → Time → Randoms → Call
  ticket_call : Str → Call
  token_call : Str → Call
  validate_call : Str → Call

continue-keeps :
    {W A B : Type 0} (P : W → Type 0) (r : W × Result A) (f : A → Run W B)
    → P r.0
    → ((a : A) (w : W) → r ≡ (w, ok a) → P w → P (f a w).0)
    → P (continue r f).0
continue-keeps P (w, ok a) f h step = step a w refl h
continue-keeps P (w, err e) f h step = h

module _ {W : Type 0} (backend : Backend W) where
  unfoldable pub run_call : W → Call → W
  run_call w (login_call input now randoms) = (login backend input now randoms w).0
  run_call w (ticket_call input) = (consume_login_ticket backend input w).0
  run_call w (token_call input) = (consume_connect_token backend input w).0
  run_call w (validate_call input) = (validate_session backend input w).0

  unfoldable pub run_calls : W → List Call → W
  run_calls w [] = w
  run_calls w (c ∷ cs) = run_calls (run_call w c) cs

  -- What each write of a login keeps, the login keeps.
  pub record Keeps (P : W → Type 0) (randoms : Randoms) : Type 0 where
    pub bindings :
        (w : W) (filter : Document) (u : Update)
        → P w
        → P (backend.mongo.bindings_update w filter u).0
    pub accounts :
        (w : W) (filter : Document) (u : Update)
        → P w
        → P (backend.mongo.accounts_update w filter u).0
    pub session :
        (w : W) (s : Session)
        → new_id (codes "sess") randoms.session ≡ ok s.session_id
        → P w
        → P (save_session backend.redis backend.sessions s session_ttl w).0
    pub ticket :
        (w : W) (t : LoginTicket)
        → new_id (codes "lt") randoms.ticket ≡ ok t.ticket_id
        → P w
        → P (save_ticket backend.redis backend.tickets t ticket_ttl w).0
    pub token :
        (w : W) (c : ConnectToken)
        → P w
        → P (save_token backend.redis backend.tokens c connect_token_ttl w).0

  module _ (P : W → Type 0) (randoms : Randoms) where
    decoded-keeps :
        {A : Type 0} (decode : Document → Option A) (r : W × Option Document)
        → P r.0
        → P (decoded decode r).0
    decoded-keeps decode (w, none) h = h
    decoded-keeps decode (w, some d) h = h

    binding-keeps :
        (channel subject device_id : Str) (now : Time) (w : W)
        → Keeps P randoms
        → P w
        → P (find_or_create_binding backend.mongo channel subject device_id now randoms.account w).0
    unfolding find_or_create_binding
    binding-keeps channel subject device_id now w keeps h =
        continue-keeps P (lift (new_id (codes "acc") randoms.account) w) _ h (λ account_id w1 _ h1.
          decoded-keeps decode_binding
            (backend.mongo.bindings_update w1 (binding_filter channel subject)
              (binding_update account_id channel subject device_id now))
            (keeps.bindings w1 (binding_filter channel subject)
              (binding_update account_id channel subject device_id now) h1))

    account-keeps :
        (b : AccountBinding) (now : Time) (w : W)
        → Keeps P randoms
        → P w
        → P (upsert_account backend.mongo b now w).0
    unfolding upsert_account
    account-keeps b now w keeps h =
        let filter : Document = (codes "_id", text b.account_id) ∷ [] in
        decoded-keeps decode_account (backend.mongo.accounts_update w filter (account_update b now))
          (keeps.accounts w filter (account_update b now) h)

    save_login-keeps :
        (a : Account) (s : Session) (t : LoginTicket) (c : ConnectToken) (w : W)
        → Keeps P randoms
        → new_id (codes "sess") randoms.session ≡ ok s.session_id
        → new_id (codes "lt") randoms.ticket ≡ ok t.ticket_id
        → P w
        → P (save_login backend a s t c w).0
    unfolding save_login
    save_login-keeps a s t c w keeps es et h =
        continue-keeps P (save_session backend.redis backend.sessions s session_ttl w) _
          (keeps.session w s es h)
          (λ _ w1 _ h1.
            continue-keeps P (save_ticket backend.redis backend.tickets t ticket_ttl w1) _
              (keeps.ticket w1 t et h1)
              (λ _ w2 _ h2.
                continue-keeps P (save_token backend.redis backend.tokens c connect_token_ttl w2) _
                  (keeps.token w2 c h2) (λ _ w3 _ h3. h3)))

    login_bound-keeps :
        (now : Time) (b : AccountBinding) (w : W)
        → Keeps P randoms
        → P w
        → P (login_bound backend now randoms b w).0
    unfolding login_bound login_session login_ticket
    login_bound-keeps now b w keeps h =
        continue-keeps P (upsert_account backend.mongo b now w) _ (account-keeps b now w keeps h)
          (λ a w1 _ h1.
            continue-keeps P (lift (new_id (codes "sess") randoms.session) w1) _ h1
              (λ session_id w2 es h2.
                continue-keeps P (lift (new_id (codes "lt") randoms.ticket) w2) _ h2
                  (λ ticket_id w3 et h3.
                    continue-keeps P (lift (new_id (codes "ct") randoms.token) w3) _ h3
                      (λ token_id w4 _ h4.
                        save_login-keeps a (login_session b a session_id now)
                          (login_ticket a session_id ticket_id now)
                          (login_token b a session_id token_id now) w4 keeps (ap (λ x. x.1) es)
                          (ap (λ x. x.1) et) h4))))

    pub login-keeps :
        (input : LoginInput) (now : Time) (w : W)
        → Keeps P randoms
        → P w
        → P (login backend input now randoms w).0
    unfolding login login_normal
    login-keeps input now w keeps h =
        let i : LoginInput = normalize_login_input backend.to_lower input in
        continue-keeps P (lift (validate_login_input i) w) _ h (λ _ w1 _ h1.
          continue-keeps P
            (find_or_create_binding backend.mongo i.channel i.subject i.device_id now
              randoms.account w1)
            _ (binding-keeps i.channel i.subject i.device_id now w1 keeps h1)
            (λ b w2 _ h2. login_bound-keeps now b w2 keeps h2))
