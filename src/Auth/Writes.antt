-- ===== src/Auth/Writes.antt =====
-- What a `Set` of a ticket or of a token that returns no error leaves in Redis.
use card.Prelude.{ℕ, ◌≡◌, sym, ap, ◌∙◌, ◌≢◌, ite, inl, inr, some, arith, Option-cases}
use card.Prelude.Text.{Str, str_dec}
use card.Auth.Model.{LoginTicket, ConnectToken, internal, Result, ok, err}
use card.Auth.Stores.{Redis, IsRedis}
use card.Auth.Repository.{Codec, login_ticket_key, connect_token_key, save_ticket, save_token, done}
use card.Auth.Sessions.{View}
use card.Auth.Saving.{done-ok}

module _ {W : Type 0} (redis : Redis W) (value_at : W → View) where
  -- The value that a `Set` without an error leaves under each key.
  abbrev pub IsWritten : W → Str → Str → W → Type 0
  IsWritten w key payload w' =
      (j : Str) → value_at w' j ≡ ite (str_dec key j) (some payload) (value_at w j)

  set-IsWritten :
      (w w' : W) (key payload : Str) (ttl : ℕ)
      → IsRedis redis value_at
      → done (redis.set w key payload ttl) ≡ (w', ok tt)
      → IsWritten w key payload w'
  set-IsWritten w w' key payload ttl laws e j =
      let (same, fine) = done-ok (redis.set w key payload ttl) w' e in
      ap (λ x. value_at x j) (sym same) ∙ laws.set_done w key payload ttl j fine

  pub IsWritten-other :
      (w w' : W) (key payload j : Str)
      → IsWritten w key payload w'
      → key ≢ j
      → value_at w' j ≡ value_at w j
  IsWritten-other w w' key payload j h other = let e = h j in ground arith

  pub IsWritten-self :
      (w w' : W) (key payload : Str) → IsWritten w key payload w' → value_at w' key ≡ some payload
  IsWritten-self w w' key payload h = let e = h key in ground arith

  pub save_ticket-IsWritten :
      (codec : Codec LoginTicket) (t : LoginTicket) (ttl : ℕ) (w w' : W)
      → IsRedis redis value_at
      → save_ticket redis codec t ttl w ≡ (w', ok tt)
      → (payload : Str) × (codec.marshal t ≡ some payload)
        × IsWritten w (login_ticket_key t.ticket_id) payload w'
  unfolding save_ticket
  save_ticket-IsWritten codec t ttl w w' laws e = elim (Option-cases (codec.marshal t)) [
    | inl m ↦
        let e' : ◌≡◌ {A = W × Result (Unit {0})} (w, err internal) (w', ok tt) = rw m at e in cc
    | inr (payload, m) ↦
        (payload, m, set-IsWritten w w' (login_ticket_key t.ticket_id) payload ttl laws (rw m at e))
  ]

  pub save_token-IsWritten :
      (codec : Codec ConnectToken) (t : ConnectToken) (ttl : ℕ) (w w' : W)
      → IsRedis redis value_at
      → save_token redis codec t ttl w ≡ (w', ok tt)
      → (payload : Str) × (codec.marshal t ≡ some payload)
        × IsWritten w (connect_token_key t.token_id) payload w'
  unfolding save_token
  save_token-IsWritten codec t ttl w w' laws e = elim (Option-cases (codec.marshal t)) [
    | inl m ↦
        let e' : ◌≡◌ {A = W × Result (Unit {0})} (w, err internal) (w', ok tt) = rw m at e in cc
    | inr (payload, m) ↦
        (payload, m, set-IsWritten w w' (connect_token_key t.token_id) payload ttl laws (rw m at e))
  ]
