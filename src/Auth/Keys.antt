-- ===== src/Auth/Keys.antt =====
-- The keys of the auth service in Redis: keys of two kinds, or of two values, differ.
use card.Prelude.{ℕ, ap, get_or, ne_of_dec, ℕ_discrete, ◌≡◌, ◌≢◌, [], ◌∷◌, ◌++◌}
use card.Prelude.Text.{Str, codes}
use card.Auth.Repository.{session_key, account_session_key, login_ticket_key, connect_token_key}

append_cancel : (p s t : Str) → p ++ s ≡ p ++ t → s ≡ t
append_cancel [] s t e = e
append_cancel (c ∷ p) s t e = append_cancel p s t (cc)

pub session_key-inj : (s t : Str) → session_key s ≡ session_key t → s ≡ t
unfolding session_key
session_key-inj s t e = append_cancel (codes "auth:session:") s t e

pub login_ticket_key-inj : (s t : Str) → login_ticket_key s ≡ login_ticket_key t → s ≡ t
unfolding login_ticket_key
login_ticket_key-inj s t e = append_cancel (codes "auth:login_ticket:") s t e

pub account_session_key-inj : (s t : Str) → account_session_key s ≡ account_session_key t → s ≡ t
unfolding account_session_key
account_session_key-inj s t e = append_cancel (codes "auth:account_session:") s t e

-- The letter behind `auth:`, in which the kinds of keys differ.
abbrev kind : Str → ℕ
kind key = get_or key 5 0

pub ticket_key_ne_session_key : (s t : Str) → login_ticket_key s ≢ session_key t
unfolding login_ticket_key session_key ℕ_discrete
ticket_key_ne_session_key s t e = ne_of_dec (ℕ_discrete 108 115) tt (ap kind e)

pub token_key_ne_session_key : (s t : Str) → connect_token_key s ≢ session_key t
unfolding connect_token_key session_key ℕ_discrete
token_key_ne_session_key s t e = ne_of_dec (ℕ_discrete 99 115) tt (ap kind e)

pub account_key_ne_session_key : (s t : Str) → account_session_key s ≢ session_key t
unfolding account_session_key session_key ℕ_discrete
account_key_ne_session_key s t e = ne_of_dec (ℕ_discrete 97 115) tt (ap kind e)

pub token_key_ne_ticket_key : (s t : Str) → connect_token_key s ≢ login_ticket_key t
unfolding connect_token_key login_ticket_key ℕ_discrete
token_key_ne_ticket_key s t e = ne_of_dec (ℕ_discrete 99 108) tt (ap kind e)

pub ticket_key_ne_account_key : (s t : Str) → login_ticket_key s ≢ account_session_key t
unfolding login_ticket_key account_session_key ℕ_discrete
ticket_key_ne_account_key s t e = ne_of_dec (ℕ_discrete 108 97) tt (ap kind e)

pub token_key_ne_account_key : (s t : Str) → connect_token_key s ≢ account_session_key t
unfolding connect_token_key account_session_key ℕ_discrete
token_key_ne_account_key s t e = ne_of_dec (ℕ_discrete 99 97) tt (ap kind e)
