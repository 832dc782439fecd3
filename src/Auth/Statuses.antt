-- ===== src/Auth/Statuses.antt =====
-- The statuses of the HTTP handlers of the auth service.
use card.Prelude.{◌≡◌, refl, Option, none, some, ne_of_dec, ℕ_discrete}
use card.Prelude.Text.{Str}
use card.Gate.Http.{Method, get_method, post_method, other_method}
use card.Auth.Model.{
  Session, Error, invalid_argument, session_not_found, ticket_not_found, connect_token_not_found,
  internal, Result, ok, err,
}
use card.Auth.Service.{Backend, consume_login_ticket}
use card.Auth.Handler.{
  Data, session_data, write_api_success, write_api_error, write_service_error, replied,
  handle_consume_ticket,
}

error_status : (e : Error) → (write_service_error e).status ≡ 200 → ⊥
unfolding write_service_error write_api_error ℕ_discrete
error_status invalid_argument h = ne_of_dec (ℕ_discrete 400 200) tt h
error_status session_not_found h = ne_of_dec (ℕ_discrete 401 200) tt h
error_status ticket_not_found h = ne_of_dec (ℕ_discrete 401 200) tt h
error_status connect_token_not_found h = ne_of_dec (ℕ_discrete 401 200) tt h
error_status internal h = ne_of_dec (ℕ_discrete 500 200) tt h

replied_ok :
    {W A : Type 0} (wrap : A → Data) (r : W × Result A)
    → (replied wrap r).1.status ≡ 200
    → (a : A) × (r.1 ≡ ok a) × ((replied wrap r).1.payload ≡ wrap a)
unfolding write_api_success
replied_ok wrap (w, ok a) h = (a, refl, refl)
replied_ok wrap (w, err e) h = absurd (error_status e h)

module _ {W : Type 0} (backend : Backend W) where
  -- The answer of `handleConsumeTicket` has status 200 only for a POST with a body that the decoder
  -- takes and whose ticket gives a session, and the data of the answer are then that session.
  pub handle_consume_ticket-session :
      (method : Method) (body : Option Str) (w : W)
      → (handle_consume_ticket backend method body w).1.status ≡ 200
      → (input : Str) × (s : Session) × (method ≡ post_method)
        × (body ≡ some input)
        × ((consume_login_ticket backend input w).1 ≡ ok s)
        × ((handle_consume_ticket backend method body w).1.payload ≡ session_data s)
  unfolding handle_consume_ticket write_api_error ℕ_discrete
  handle_consume_ticket-session get_method body w h = absurd (ne_of_dec (ℕ_discrete 405 200) tt h)
  handle_consume_ticket-session other_method body w h = absurd (ne_of_dec (ℕ_discrete 405 200) tt h)
  handle_consume_ticket-session post_method none w h = absurd (error_status invalid_argument h)
  handle_consume_ticket-session post_method (some input) w h =
      let (s, e, p) = replied_ok session_data (consume_login_ticket backend input w) h in
      (input, s, refl, refl, e, p)
