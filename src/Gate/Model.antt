-- ===== src/Gate/Model.antt =====
-- model.go, token.go and errors.go of the gate, and the generated types that they use. Of the message
-- `pb.Gamer` the fields that the gate fills are kept; the others stay at their zero values.
use card.Prelude.{◌⊎◌, inl, inr, refl, ℕ, ◌≡◌, List, ◌++◌, Option, none, some}
use card.Prelude.Int.{ℤ}
use card.Prelude.Text.{Str, codes, hex_encode}

-- An instant as `time.Time` holds it: seconds since 1970, and the nanoseconds within the second.
pub record Time : Type 0 where
  pub sec : ℤ
  pub nsec : ℕ

pub data GamerStatus : Type 0 where
  offline online omatch incoming fighting exiting interact : GamerStatus

-- `pb.Gamer`.
pub record Profile : Type 0 where
  pub id : ℤ
  pub account : Str
  pub session : Str
  pub login_time : ℤ

pub record AuthSession : Type 0 where
  pub session_id : Str
  pub account_id : Str
  pub player_id : Str
  pub channel : Str
  pub subject : Str
  pub device_id : Str
  pub created_at : Time
  pub expires_at : Time
  pub last_login_at : Time

pub record Gamer : Type 0 where
  pub conn_id : Str
  pub account_id : Str
  pub player_id : Str
  pub session_id : Str
  pub channel : Str
  pub device_id : Str
  pub remote_addr : Str
  pub status : GamerStatus
  pub profile : Option Profile
  pub connected_at : Time
  pub last_seen_at : Time

pub record GateStats : Type 0 where
  pub connections : ℕ
  pub sessions : ℕ

-- `upstream` is any error of the auth client or of the random source.
pub data Error : Type 0 where
  invalid_argument conn_not_found upstream : Error

pub data Result {ℓ} (A : Type ℓ) : Type ℓ where
  ok : A → Result A
  err : Error → Result A

infixl 5 ◌>>=◌
abbrev pub ◌>>=◌ {ℓ κ} : {A : Type ℓ} {B : Type κ} → Result A → (A → Result B) → Result B
ok a >>= f = f a
err e >>= f = err e

-- `newID`: the prefix, an underscore and the random bytes in hexadecimal. The bytes that the random
-- source gives are the argument; `none` is its failure.
unfoldable pub new_id : Str → Option (List ℕ) → Result Str
new_id prefix none = err upstream
new_id prefix (some buf) = ok (prefix ++ codes "_" ++ hex_encode buf)

-- To split on a result and keep the equation.
pub Result-cases {ℓ} :
    {A : Type ℓ} (r : Result A) → ((a : A) × (r ≡ ok a)) ⊎ ((e : Error) × (r ≡ err e))
Result-cases (ok a) = inl (a, refl)
Result-cases (err e) = inr (e, refl)
