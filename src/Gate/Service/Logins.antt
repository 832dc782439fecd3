-- ===== src/Gate/Service/Logins.antt =====
-- What a login through the service rests on.
use card.Prelude.{ite_ind, ◌≡◌, refl, ◌⊎◌, inl, inr, ite, [], arith, Option-cases}
use card.Prelude.Text.{Str, str_dec, trim_space}
use card.Gate.Model.{Time, AuthSession, Gamer, invalid_argument, Result, ok, err}
use card.Gate.Manager.Calls.{get-bind_session}
use card.Gate.Manager.Defs.{Manager, conn_at, bind_session, bound_gamer, get}
use card.Gate.Service.{
  AuthClient, AttachTokenInput, AttachTicketInput, AttachSessionInput, bind_answer, login_by_token,
  login_by_ticket, login_by_session,
}

-- What an accepted login of a connection means: the auth client, asked for the credential, named the
-- session of the answered gamer, and the gamer is what the table now holds for the connection.
pub record IsVouched {W : Type 0} (asked : W × Result AuthSession) (conn_id : Str) (m' : Manager)
    (g : Gamer) : Type 0 where
  pub session : AuthSession
  pub granted : asked.1 ≡ ok session
  pub named : g.session_id ≡ session.session_id
  pub account : g.account_id ≡ session.account_id
  pub stored : get m' conn_id ≡ ok g

bind_session-fields :
    (m : Manager) (c : Str) (s : AuthSession) (now : Time) (g : Gamer)
    → (bind_session m c s now).1 ≡ ok g
    → (g.session_id ≡ s.session_id) × (g.account_id ≡ s.account_id)
unfolding bind_session bound_gamer
bind_session-fields m c s now g = elim (Option-cases (conn_at m c)) [
  | inl e ↦ rw (e, bind_session) (λ h. cc)
  | inr (p, e) ↦ rw (e, bind_session) (λ h. (cc, cc))
]

module _ {W : Type 0} where
  bind_answer-IsVouched :
      (r : W × Result AuthSession) (m : Manager) (c : Str) (now : Time) (g : Gamer)
      → (bind_answer r m c now).2 ≡ ok g
      → IsVouched r c (bind_answer r m c now).1 g
  unfolding bind_answer
  bind_answer-IsVouched (w, err e) m c now g h = cc
  bind_answer-IsVouched (w, ok s) m c now g h =
      let (named, account) = bind_session-fields m c s now g h in
      record {
        session = s;
        granted = refl;
        named = named;
        account = account;
        stored = get-bind_session m c s now g h;
      }

  -- The two guards of a login, over the auth client's answer to the credential.
  abbrev guarded : Str → Str → W → Manager → W × Manager × Result Gamer → W × Manager × Result Gamer
  guarded conn_id credential w m rest =
      ite (str_dec conn_id []) (w, m, err invalid_argument)
        (ite (str_dec credential []) (w, m, err invalid_argument) rest)

  guarded-IsVouched :
      (c s : Str) (w : W) (r : W × Result AuthSession) (m : Manager) (now : Time) (g : Gamer)
      → (guarded c s w m (bind_answer r m c now)).2 ≡ ok g
      → IsVouched r c (guarded c s w m (bind_answer r m c now)).1 g
  guarded-IsVouched c s w r m now g =
      let P : W × Manager × Result Gamer → Type 0 = λ a. a.2 ≡ ok g → IsVouched r c a.1 g in
      ite_ind P (str_dec c []) (λ h. cc)
        (ite_ind P (str_dec s []) (λ h. cc) (bind_answer-IsVouched r m c now g))

  guarded-refused :
      (c s : Str) (w : W) (m : Manager) (rest : W × Manager × Result Gamer)
      → (c ≡ []) ⊎ (s ≡ [])
      → guarded c s w m rest ≡ (w, m, err invalid_argument)
  guarded-refused c s w m rest (inl e) = ground arith
  guarded-refused c s w m rest (inr e) = ground arith

module _ {W : Type 0} (auth : AuthClient W) (w : W) (m : Manager) (now : Time) (g : Gamer) where
  -- When a login by token is accepted, the auth client granted the token's session, which the
  -- answered gamer carries, and the table holds that gamer for the connection.
  pub login_by_token-IsVouched :
      (i : AttachTokenInput)
      → (login_by_token auth w m i now).2 ≡ ok g
      → IsVouched
          (auth.consume_connect_token w (trim_space i.token))
          (trim_space i.conn_id)
          (login_by_token auth w m i now).1
          g
  unfolding login_by_token
  login_by_token-IsVouched i =
      guarded-IsVouched (trim_space i.conn_id) (trim_space i.token) w
        (auth.consume_connect_token w (trim_space i.token)) m now g

  -- The same of a login by ticket.
  pub login_by_ticket-IsVouched :
      (i : AttachTicketInput)
      → (login_by_ticket auth w m i now).2 ≡ ok g
      → IsVouched
          (auth.consume_login_ticket w (trim_space i.ticket))
          (trim_space i.conn_id)
          (login_by_ticket auth w m i now).1
          g
  unfolding login_by_ticket
  login_by_ticket-IsVouched i =
      guarded-IsVouched (trim_space i.conn_id) (trim_space i.ticket) w
        (auth.consume_login_ticket w (trim_space i.ticket)) m now g

  -- The same of a login by session.
  pub login_by_session-IsVouched :
      (i : AttachSessionInput)
      → (login_by_session auth w m i now).2 ≡ ok g
      → IsVouched
          (auth.validate_session w (trim_space i.session_id))
          (trim_space i.conn_id)
          (login_by_session auth w m i now).1
          g
  unfolding login_by_session
  login_by_session-IsVouched i =
      guarded-IsVouched (trim_space i.conn_id) (trim_space i.session_id) w
        (auth.validate_session w (trim_space i.session_id)) m now g

-- A login by token, ticket or session that lacks its connection or its credential is refused, and
-- neither the auth client nor the manager sees it.
pub blank_logins_refused :
    {W : Type 0} (auth : AuthClient W) (w : W) (m : Manager) (now : Time) (c s : Str)
    → (trim_space c ≡ []) ⊎ (trim_space s ≡ [])
    → (login_by_token auth w m (record { conn_id = c; token = s }) now
        ≡ (w, m, err invalid_argument))
      × (login_by_ticket auth w m (record { conn_id = c; ticket = s }) now
          ≡ (w, m, err invalid_argument))
      × (login_by_session auth w m (record { conn_id = c; session_id = s }) now
          ≡ (w, m, err invalid_argument))
unfolding login_by_token login_by_ticket login_by_session
blank_logins_refused auth w m now c s blank =
    let refused = λ (r : _). guarded-refused (trim_space c) (trim_space s) w m r blank in
    (refused _, refused _, refused _)
