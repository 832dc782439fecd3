-- ===== src/Auth/Accounts.antt =====
-- repository.go: `AccountRepository`, the accounts and their bindings in MongoDB.
use card.Prelude.{ℕ, List, [], ◌∷◌, Option, none, some, if◌then◌else◌}
use card.Prelude.Int.{pos}
use card.Prelude.Map.{lookup}
use card.Prelude.Text.{Str, codes, str_dec}
use card.Gate.Model.{Time}
use card.Auth.Model.{
  Account, AccountBinding, Result, err, internal, Run, ◌>>=◌, lift, new_id, or_internal,
}
use card.Auth.Stores.{Value, text, instant, Document, Update, Mongo}

-- `Decode` of a field: its zero value if it is missing, an error if it has another type.
text_of : Option Value → Option Str
text_of none = some []
text_of (some (text s)) = some s
text_of (some (instant t)) = none

abbrev zero_time : Time
zero_time = record { sec = pos 0; nsec = 0 }

instant_of : Option Value → Option Time
instant_of none = some zero_time
instant_of (some (instant t)) = some t
instant_of (some (text s)) = none

infixl 5 ◌then◌
abbrev ◌then◌ {ℓ κ} : {A : Type ℓ} {B : Type κ} → Option A → (A → Option B) → Option B
none then f = none
some a then f = f a

unfoldable pub text_field : Document → Str → Option Str
unfolding text_of
text_field d name = text_of (lookup str_dec name d)

unfoldable pub instant_field : Document → Str → Option Time
unfolding instant_of
instant_field d name = instant_of (lookup str_dec name d)

unfoldable pub decode_binding : Document → Option AccountBinding
decode_binding d = text_field d (codes "account_id") then λ account_id.
    text_field d (codes "channel") then λ channel. text_field d (codes "subject") then λ subject.
    text_field d (codes "device_id") then λ device_id.
    instant_field d (codes "created_at") then λ created_at.
    instant_field d (codes "updated_at") then λ updated_at.
    instant_field d (codes "last_login_at") then λ last_login_at. some (record {
      account_id = account_id;
      channel = channel;
      subject = subject;
      device_id = device_id;
      created_at = created_at;
      updated_at = updated_at;
      last_login_at = last_login_at;
    })

unfoldable pub decode_account : Document → Option Account
decode_account d = text_field d (codes "_id") then λ id.
    text_field d (codes "status") then λ status.
    text_field d (codes "last_channel") then λ last_channel.
    text_field d (codes "last_device_id") then λ last_device_id.
    text_field d (codes "player_id") then λ player_id.
    instant_field d (codes "created_at") then λ created_at.
    instant_field d (codes "updated_at") then λ updated_at.
    instant_field d (codes "last_login_at") then λ last_login_at. some (record {
      id = id;
      status = status;
      last_channel = last_channel;
      last_device_id = last_device_id;
      player_id = player_id;
      created_at = created_at;
      updated_at = updated_at;
      last_login_at = last_login_at;
    })

-- The filters and updates that the two methods of `AccountRepository` send.
unfoldable pub binding_filter : Str → Str → Document
binding_filter channel subject =
    (codes "channel", text channel) ∷ (codes "subject", text subject) ∷ []

unfoldable pub binding_update : Str → Str → Str → Str → Time → Update
binding_update account_id channel subject device_id now = record {
  set =
      (codes "device_id", text device_id)
      ∷ (codes "updated_at", instant now)
      ∷ (codes "last_login_at", instant now)
      ∷ [];
  set_on_insert =
      (codes "account_id", text account_id)
      ∷ (codes "channel", text channel)
      ∷ (codes "subject", text subject)
      ∷ (codes "device_id", text device_id)
      ∷ (codes "created_at", instant now)
      ∷ (codes "updated_at", instant now)
      ∷ (codes "last_login_at", instant now)
      ∷ [];
}

unfoldable pub account_update : AccountBinding → Time → Update
account_update binding now = record {
  set =
      (codes "status", text (codes "active"))
      ∷ (codes "last_channel", text binding.channel)
      ∷ (codes "last_device_id", text binding.device_id)
      ∷ (codes "updated_at", instant now)
      ∷ (codes "last_login_at", instant now)
      ∷ [];
  set_on_insert = (codes "created_at", instant now) ∷ [];
}

-- `.Decode(&v)` of the answer; every error is wrapped.
abbrev pub decoded : {W A : Type 0} → (Document → Option A) → W × Option Document → W × Result A
decoded decode (w, none) = (w, err internal)
decoded decode (w, some d) = (w, or_internal (decode d))

module _ {W : Type 0} (mongo : Mongo W) where
  unfoldable pub find_or_create_binding :
      Str → Str → Str → Time → Option (List ℕ) → Run W AccountBinding
  find_or_create_binding channel subject device_id now random = do
    account_id ← lift (new_id (codes "acc") random)
    λ w. decoded decode_binding (
        mongo.bindings_update w (binding_filter channel subject)
          (binding_update account_id channel subject device_id now))

  unfoldable pub upsert_account : AccountBinding → Time → Run W Account
  upsert_account binding now w = decoded decode_account (
      mongo.accounts_update w ((codes "_id", text binding.account_id) ∷ [])
        (account_update binding now))
