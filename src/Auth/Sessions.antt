-- ===== src/Auth/Sessions.antt =====
-- What `SaveSession` and `DeleteSession` do to the sessions in Redis.
use card.Prelude.{ℕ, ◌≡◌, sym, ap, subst, ◌∙◌, ◌≢◌, ◌⊎◌, inl, inr, [], Option, none, some, arith}
use card.Prelude.Text.{Str, str_dec}
use card.Auth.Model.{Session}
use card.Auth.Stores.{apply_all}
use card.Auth.Repository.{Codec, RoundTrips, session_key, account_session_key, save_commands}
use card.Auth.Keys.{session_key-inj, account_session_key-inj, account_key_ne_session_key}

-- The values of the keys of Redis.
abbrev pub View : Type 0
View = Str → Option Str

pub none_ne_some : {A : Type 0} {a : A} → ◌≡◌ {A = Option A} none (some a) → ⊥
none_ne_some e = cc

module _ (codec : Codec Session) where
  -- Under the key of `id` stands a session that can be read.
  abbrev pub IsLive : View → Str → Session → Type 0
  IsLive view id s =
      (payload : Str) × (view (session_key id) ≡ some payload) × (codec.unmarshal payload ≡ some s)

  -- A session that can be read is the current one of its account, and its id is not empty.
  abbrev pub IsSingle : View → Type 0
  IsSingle view =
      (id : Str) (s : Session)
      → IsLive view id s
      → (view (account_session_key s.account_id) ≡ some id) × (id ≢ [])

  -- Two sessions of one account that can both be read are one.
  pub one_session :
      (view : View) (i j : Str) (s t : Session)
      → IsSingle view
      → IsLive view i s
      → IsLive view j t
      → s.account_id ≡ t.account_id
      → i ≡ j
  one_session view i j s t single li lj e =
      let p : view (account_session_key s.account_id) ≡ some i = (single i s li).0 in
      let q : view (account_session_key t.account_id) ≡ some j = (single j t lj).0 in cc

  -- What the commands of `SaveSession` leave under each key of a session.
  pub saved_self :
      (view : View) (s : Session) (old payload : Str) (ttl : ℕ)
      → apply_all (save_commands s old payload ttl) view (session_key s.session_id) ≡ some payload
  unfolding save_commands
  saved_self view s old payload ttl = ground (
    arith,
    account_key_ne_session_key s.account_id s.session_id,
    session_key-inj old s.session_id,
  )

  pub saved_account :
      (view : View) (s : Session) (old payload : Str) (ttl : ℕ)
      → apply_all (save_commands s old payload ttl) view (account_session_key s.account_id)
        ≡ some s.session_id
  unfolding save_commands
  saved_account view s old payload ttl = ground (arith, account_key_ne_session_key s.account_id old)

  pub saved_old :
      (view : View) (s : Session) (old payload : Str) (ttl : ℕ)
      → old ≢ []
      → old ≢ s.session_id
      → apply_all (save_commands s old payload ttl) view (session_key old) ≡ none
  unfolding save_commands
  saved_old view s old payload ttl filled other = ground arith

  pub saved_other :
      (view : View) (s : Session) (old payload : Str) (ttl : ℕ) (id : Str)
      → id ≢ s.session_id
      → id ≢ old
      → apply_all (save_commands s old payload ttl) view (session_key id) ≡ view (session_key id)
  unfolding save_commands
  saved_other view s old payload ttl id new other = ground (
    arith,
    account_key_ne_session_key s.account_id id,
    session_key-inj s.session_id id,
    session_key-inj old id,
  )

  saved_other_account :
      (view : View) (s : Session) (old payload : Str) (ttl : ℕ) (a : Str)
      → a ≢ s.account_id
      → apply_all (save_commands s old payload ttl) view (account_session_key a)
        ≡ view (account_session_key a)
  unfolding save_commands
  saved_other_account view s old payload ttl a other = ground (
    arith,
    account_key_ne_session_key a s.session_id,
    account_key_ne_session_key a old,
    account_session_key-inj s.account_id a,
  )

  -- `old` is what `Get` answers for the current session of `account_id`, the empty text for a missing key.
  abbrev pub IsCurrent : View → Str → Str → Type 0
  IsCurrent view account_id old =
      (view (account_session_key account_id) ≡ some old)
      ⊎ ((view (account_session_key account_id) ≡ none) × (old ≡ []))

  not_current :
      (view : View) (account_id old id : Str)
      → IsCurrent view account_id old
      → view (account_session_key account_id) ≡ some id
      → id ≢ []
      → (id ≢ old) ⊎ (old ≡ [])
      → ⊥
  not_current view a old id (inl e) at_account filled (inl other) = other (cc)
  not_current view a old id (inl e) at_account filled (inr empty) = filled (cc)
  not_current view a old id (inr (e, _)) at_account filled other = none_ne_some (sym e ∙ at_account)

  pub saved_empty :
      (view : View) (s : Session) (old payload : Str) (ttl : ℕ) (id : Str)
      → id ≢ s.session_id
      → old ≡ []
      → apply_all (save_commands s old payload ttl) view (session_key id) ≡ view (session_key id)
  unfolding save_commands
  saved_empty view s old payload ttl id new empty =
      ground (arith, account_key_ne_session_key s.account_id id, session_key-inj s.session_id id)

  -- The session under a key that the commands did not write was there before, and is not the old one.
  kept :
      (view : View) (s : Session) (old payload : Str) (ttl : ℕ) (id : Str) (t : Session)
      → id ≢ s.session_id
      → IsLive (apply_all (save_commands s old payload ttl) view) id t
      → IsLive view id t × ((id ≢ old) ⊎ (old ≡ []))
  kept view s old payload ttl id t new (p, at_id, dec) = elim (str_dec old []) [
    | yes empty ↦
        ((p, sym (saved_empty view s old payload ttl id new empty) ∙ at_id, dec), inr empty)
    | no filled ↦ elim (str_dec id old) [
      | yes same ↦
          let e : apply_all (save_commands s old payload ttl) view (session_key old) ≡ none =
            saved_old view s old payload ttl filled (λ e. new (same ∙ e)) in
          let e' : apply_all (save_commands s old payload ttl) view (session_key old) ≡ some p =
            subst (λ i. apply_all (save_commands s old payload ttl) view (session_key i) ≡ some p)
              same at_id in
          absurd (none_ne_some (sym e ∙ e'))
      | no other ↦
          ((p, sym (saved_other view s old payload ttl id new other) ∙ at_id, dec), inl other)
    ]
  ]

  -- Another live session belongs to another account, whose entry stays.
  kept_current :
      (view : View) (s : Session) (old payload : Str) (ttl : ℕ) (id : Str) (t : Session)
      → IsCurrent view s.account_id old
      → IsSingle view
      → IsLive view id t
      → (id ≢ old) ⊎ (old ≡ [])
      → apply_all (save_commands s old payload ttl) view (account_session_key t.account_id)
        ≡ some id
  kept_current view s old payload ttl id t cur single live other =
      let (at_account, filled) = single id t live in
      elim (str_dec t.account_id s.account_id) [
        | yes same ↦ absurd (
            not_current view s.account_id old id cur
              (subst (λ a. view (account_session_key a) ≡ some id) same at_account) filled other)
        | no apart ↦ saved_other_account view s old payload ttl t.account_id apart ∙ at_account
      ]

  -- After the commands of `SaveSession` an account still has one session, the new one.
  pub saved-IsSingle :
      (view : View) (s : Session) (old payload : Str) (ttl : ℕ)
      → RoundTrips codec
      → codec.marshal s ≡ some payload
      → s.session_id ≢ []
      → IsCurrent view s.account_id old
      → IsSingle view
      → IsSingle (apply_all (save_commands s old payload ttl) view)
  saved-IsSingle view s old payload ttl trips m filled cur single id t (p, at_id, dec) =
      elim (str_dec id s.session_id) [
        | yes same ↦
            let view' : View = apply_all (save_commands s old payload ttl) view in
            let e : some payload ≡ some p =
              sym (saved_self view s old payload ttl)
              ∙ ap (λ i. view' (session_key i)) (sym same)
              ∙ at_id in
            let f : some s ≡ some t = sym (trips s payload m) ∙ (cc) in
            let g : s ≡ t = cc in
            (
              ap (λ x. view' (account_session_key x.account_id)) (sym g)
                  ∙ saved_account view s old payload ttl
                  ∙ ap some (sym same),
              λ k. filled (sym same ∙ k),
            )
        | no new ↦
            let (live, other) = kept view s old payload ttl id t new (p, at_id, dec) in
            (kept_current view s old payload ttl id t cur single live other, (single id t live).1)
      ]
