-- ===== src/Net/Accept.antt =====
-- msgque_tcp.go: `handleAcceptConn` up to the task that it posts, and SetOptions of netmgr.go.
use card.Prelude.{ℕ, ◌≡◌, refl, Bool, ◌&&◌, List, [], ◌∷◌, Option, none, some, if◌then◌else◌}
use card.Prelude.Int.{pos, ltb_ℤ, leb_ℤ}
use card.Net.Options.{NetOptions, merge_options, merge_each, merge_one, new_msg_que_options}

-- What becomes of an accepted socket: the goroutine panics, the socket is closed because there are too
-- many, because the handshake failed or because the task was dropped, or the task is posted with the key.
pub data Accepted : Type 0 where
  panics overloaded no_handshake dropped : Accepted
  posted : Option (List ℕ) → Accepted

-- The key exchange is asked for by the options; `none` is its failure.
unfoldable pub server_handshake : NetOptions → Option (List ℕ) → Option (Option (List ℕ))
server_handshake opt exchanged =
    if opt.enable_dh then elim exchanged [ none ↦ none | some key ↦ some (some key) ] else some none

abbrev post_task : Bool → Option (Option (List ℕ)) → Accepted
post_task room none = no_handshake
post_task room (some key) = if room then posted key else dropped

-- `exchanged` is what the key exchange gives and `room` what `addTask` answers.
unfoldable pub handle_accept_conn : NetOptions → ℕ → Option (List ℕ) → Bool → Accepted
unfolding server_handshake
handle_accept_conn opt accept_sess_num exchanged room = elim opt.listen_params [
  | none ↦ panics
  | some listen ↦
      if ltb_ℤ (pos 0) listen.max_conn && leb_ℤ listen.max_conn (pos accept_sess_num)
      then overloaded
      else post_task room (server_handshake opt exchanged)
]

-- The task of `SetOptions`: the options that the manager has from then on.
unfoldable pub set_options : NetOptions → Option NetOptions → NetOptions
unfolding merge_options merge_each merge_one new_msg_que_options
set_options cur opt = merge_options (some cur ∷ opt ∷ [])

set_options-listen :
    (cur : NetOptions) (opt : Option NetOptions) → (set_options cur opt).listen_params ≡ none
unfolding set_options
set_options-listen cur none = refl
set_options-listen cur (some o) = refl

-- MergeOptions keeps no address: after a call of SetOptions, whatever the old and the new options are,
-- every connection that is accepted ends in a panic of the goroutine that handles it.
pub set_options_panics :
    (cur : NetOptions) (opt : Option NetOptions) (accept_sess_num : ℕ) (exchanged : Option (List ℕ))
    (room : Bool)
    → handle_accept_conn (set_options cur opt) accept_sess_num exchanged room ≡ panics
unfolding handle_accept_conn
set_options_panics cur opt accept_sess_num exchanged room =
    rw (set_options-listen cur opt, handle_accept_conn)
