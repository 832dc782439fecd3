-- ===== src/Auth/Conflict.antt =====
-- The update that `FindOrCreateBinding` sends.
use card.Prelude.{
  ℕ, ◌⊎◌, ◌≡◌, refl, List, [], ◌++◌, Option, none, some, arith, ℕ_discrete, inl, inr,
}
use card.Prelude.Map.{lookup}
use card.Prelude.Text.{hex_encode, Str, codes, str_dec}
use card.Gate.Model.{Time}
use card.Auth.Model.{new_id, invalid_argument, LoginInput, Result, ok, err, internal, continue}
use card.Auth.Stores.{Document, Update, text, IsConflict, RefusesConflicts}
use card.Auth.Accounts.{
  binding_filter, binding_update, find_or_create_binding, decoded, decode_binding,
}
use card.Auth.Service.{
  Backend, Randoms, login_bound, validate_login_input, normalize_login_input, login_normal, login,
}

binding_update-IsConflict :
    (account_id channel subject device_id : Str) (now : Time)
    → IsConflict (binding_update account_id channel subject device_id now)
unfolding binding_update lookup str_dec ℕ_discrete
binding_update-IsConflict account_id channel subject device_id now =
    (codes "device_id", text device_id, text device_id, refl, refl)

pub validate-cases :
    (input : LoginInput)
    → (validate_login_input input ≡ ok tt) ⊎ (validate_login_input input ≡ err invalid_argument)
unfolding validate_login_input
validate-cases input = elim (str_dec input.channel []) [
  | yes p ↦ inr (ground arith)
  | no p ↦ elim (str_dec input.device_id []) [
    | yes q ↦ inr (ground arith)
    | no q ↦ elim (str_dec input.subject []) [
      | yes r ↦ inr (ground arith)
      | no r ↦ inl (ground arith)
    ]
  ]
]

decoded-none :
    {W A : Type 0} (decode : Document → Option A) (r : W × Option Document)
    → r.1 ≡ none
    → (decoded decode r).1 ≡ err internal
decoded-none decode (w, none) e = refl
decoded-none decode (w, some d) e = cc

module _ {W : Type 0} (backend : Backend W) where
  refused_binding :
      (w : W) (channel subject device_id : Str) (now : Time) (random : Option (List ℕ))
      → RefusesConflicts backend.mongo
      → (find_or_create_binding backend.mongo channel subject device_id now random w).1
        ≡ err internal
  unfolding find_or_create_binding new_id
  refused_binding w channel subject device_id now none refuses = refl
  refused_binding w channel subject device_id now (some buf) refuses =
      let account_id : Str = codes "acc" ++ codes "_" ++ hex_encode buf in
      let u : Update = binding_update account_id channel subject device_id now in
      let e : (backend.mongo.bindings_update w (binding_filter channel subject) u).1 ≡ none =
        refuses w (binding_filter channel subject) u
          (binding_update-IsConflict account_id channel subject device_id now) in
      decoded-none decode_binding
        (backend.mongo.bindings_update w (binding_filter channel subject) u) e

  no_more :
      {A B : Type 0} (r : W × Result A) (f : A → W → W × Result B)
      → r.1 ≡ err internal
      → (continue r f).1 ≡ err internal
  no_more (w, ok a) f e = cc
  no_more (w, err x) f e = cc

  normal-internal :
      (input : LoginInput) (now : Time) (randoms : Randoms) (w : W)
      → RefusesConflicts backend.mongo
      → validate_login_input input ≡ ok tt
      → (login_normal backend input now randoms w).1 ≡ err internal
  unfolding login_normal
  normal-internal input now randoms w refuses valid = rw valid (
      no_more
        (find_or_create_binding backend.mongo input.channel input.subject input.device_id now
          randoms.account w)
        (login_bound backend now randoms)
        (refused_binding w input.channel input.subject input.device_id now randoms.account refuses))

  normal-invalid :
      (input : LoginInput) (now : Time) (randoms : Randoms) (w : W)
      → validate_login_input input ≡ err invalid_argument
      → login_normal backend input now randoms w ≡ (w, err invalid_argument)
  unfolding login_normal
  normal-invalid input now randoms w invalid = rw invalid refl

  -- Since MongoDB refuses the update of `FindOrCreateBinding`, which names device_id both under
  -- `$set` and under `$setOnInsert`, every login fails: with `invalid_argument` if the input is not
  -- valid, and with an internal error if it is.
  pub login-internal :
      (input : LoginInput) (now : Time) (randoms : Randoms) (w : W)
      → RefusesConflicts backend.mongo
      → ((validate_login_input (normalize_login_input backend.to_lower input)
            ≡ err invalid_argument)
          × (login backend input now randoms w ≡ (w, err invalid_argument)))
        ⊎ ((validate_login_input (normalize_login_input backend.to_lower input) ≡ ok tt)
            × ((login backend input now randoms w).1 ≡ err internal))
  unfolding login
  login-internal input now randoms w refuses =
      let i : LoginInput = normalize_login_input backend.to_lower input in
      elim (validate-cases i) [
        | inl valid ↦ inr (valid, normal-internal i now randoms w refuses valid)
        | inr invalid ↦ inl (invalid, normal-invalid i now randoms w invalid)
      ]
