-- ===== src/Auth/Model.antt =====
-- model.go, errors.go and token.go of the auth service.
use card.Prelude.{ℕ, ◌+◌, ◌/◌, ◌%◌, ◌≡◌, refl, ◌⊎◌, inl, inr, List, ◌++◌, Option, none, some}
use card.Prelude.Int.{pos, ◌+ℤ◌}
use card.Prelude.Text.{Str, codes, hex_encode}
use card.Gate.Model.{Time}

pub record Account : Type 0 where
  pub id : Str
  pub status : Str
  pub last_channel : Str
  pub last_device_id : Str
  pub player_id : Str
  pub created_at : Time
  pub updated_at : Time
  pub last_login_at : Time

pub record AccountBinding : Type 0 where
  pub account_id : Str
  pub channel : Str
  pub subject : Str
  pub device_id : Str
  pub created_at : Time
  pub updated_at : Time
  pub last_login_at : Time

pub record Session : Type 0 where
  pub session_id : Str
  pub account_id : Str
  pub player_id : Str
  pub channel : Str
  pub subject : Str
  pub device_id : Str
  pub created_at : Time
  pub expires_at : Time
  pub last_login_at : Time

pub record LoginTicket : Type 0 where
  pub ticket_id : Str
  pub session_id : Str
  pub account_id : Str
  pub created_at : Time
  pub expires_at : Time

pub record ConnectToken : Type 0 where
  pub token_id : Str
  pub session_id : Str
  pub account_id : Str
  pub device_id : Str
  pub created_at : Time
  pub expires_at : Time

pub record LoginInput : Type 0 where
  pub channel : Str
  pub subject : Str
  pub device_id : Str

pub record LoginResult : Type 0 where
  pub account_id : Str
  pub player_id : Str
  pub session_id : Str
  pub login_ticket : Str
  pub connect_token : Str
  pub session_expires_at : Time
  pub ticket_expires_at : Time
  pub connect_expires_at : Time
  pub session_ttl_seconds : ℕ
  pub ticket_ttl_seconds : ℕ
  pub connect_ttl_seconds : ℕ

-- The four errors of errors.go, and `internal` for every other.
pub data Error : Type 0 where
  invalid_argument session_not_found ticket_not_found connect_token_not_found internal : Error

pub data Result {ℓ} (A : Type ℓ) : Type ℓ where
  ok : A → Result A
  err : Error → Result A

-- What a call does to the outside world `W`, and its answer.
abbrev pub Run : Type 0 → Type 0 → Type 0
Run W A = W → W × Result A

abbrev pub continue : {W A B : Type 0} → W × Result A → (A → Run W B) → W × Result B
continue (w, ok a) f = f a w
continue (w, err e) f = (w, err e)

infixl 5 ◌>>=◌
abbrev pub ◌>>=◌ : {W A B : Type 0} → Run W A → (A → Run W B) → Run W B
(p >>= f) w = continue (p w) f

-- A result that needs nothing of the outside.
abbrev pub lift : {W A : Type 0} → Result A → Run W A
lift r w = (w, r)

-- Errors that no caller tells apart.
abbrev pub or_internal : {A : Type 0} → Option A → Result A
or_internal none = err internal
or_internal (some a) = ok a

-- `newID`, on what the random source gives.
unfoldable pub new_id : Str → Option (List ℕ) → Result Str
new_id prefix none = err internal
new_id prefix (some buf) = ok (prefix ++ codes "_" ++ hex_encode buf)

-- `Time.Add`, of a duration in nanoseconds.
unfoldable pub add_time : Time → ℕ → Time
add_time t d = record {
  sec = t.sec +ℤ pos ((t.nsec + d) / 1000000000);
  nsec = (t.nsec + d) % 1000000000;
}

-- To split on an answer and keep the equation.
pub Result-cases :
    {W A : Type 0} (r : W × Result A)
    → ((w : W) × (a : A) × (r ≡ (w, ok a))) ⊎ ((w : W) × (e : Error) × (r ≡ (w, err e)))
Result-cases (w, ok a) = inl (w, a, refl)
Result-cases (w, err e) = inr (w, e, refl)

-- A chain that ends well did so at each step.
pub continue-ok :
    {W A B : Type 0} (r : W × Result A) (f : A → Run W B) (v : W) (b : B)
    → continue r f ≡ (v, ok b)
    → (w : W) × (a : A) × (r ≡ (w, ok a)) × (f a w ≡ (v, ok b))
continue-ok (w, ok a) f v b e = (w, a, refl, e)
continue-ok (w, err x) f v b e = cc
