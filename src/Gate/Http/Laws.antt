-- ===== src/Gate/Http/Laws.antt =====
-- What the HTTP handlers answer, and what a later request reads.
use card.Prelude.{ℕ, ◌≡◌, inl, inr, List, [], ◌++◌, Option, none, arith}
use card.Prelude.Text.{Str, codes, trim_space, trim_space-solid, trim_prefix-append}
use card.Gate.Model.{Time, Gamer, invalid_argument, Result, ok, err, Result-cases}
use card.Gate.Manager.Calls.{get-open_conn}
use card.Gate.Manager.Defs.{Manager, open_conn}
use card.Gate.Manager.Ids.{conn_id-IsSolid}
use card.Gate.Service.{OpenConnectionInput, open_connection, get_gamer}
use card.Gate.Http.{
  Body, post_method, get_method, gamer_data, decode_json_body, write_api_success,
  write_service_error, write_api_error, gamer_reply, handle_open_connection, handle_get_connection,
}

abbrev connection_path : Str → Str
connection_path conn_id = codes "/gate/connections/" ++ conn_id

get_gamer-open :
    (m : Manager) (r : Str) (closer : Option ℕ) (random : Option (List ℕ)) (now : Time) (g : Gamer)
    → (open_conn m r closer random now).1 ≡ ok g
    → get_gamer (open_conn m r closer random now).0 g.conn_id ≡ ok g
unfolding get_gamer
get_gamer-open m r closer random now g h =
    let (solid, named) = conn_id-IsSolid m r closer random now g h in
    rw (trim_space-solid g.conn_id solid) (ground (arith, get-open_conn m r closer random now g h))

gamer_reply-ok :
    (r : Result Gamer) (g : Gamer) → gamer_reply r ≡ write_api_success (gamer_data g) → r ≡ ok g
unfolding write_api_success write_service_error write_api_error
gamer_reply-ok (ok g') g h = cc
gamer_reply-ok (err invalid_argument) g h = cc
gamer_reply-ok (err _) g h = cc

-- When `POST /gate/connections/open` answers with a gamer, `GET` of that gamer's path answers the same.
pub handle_get_connection-handle_open_connection :
    (b : Body OpenConnectionInput) (m : Manager) (random : Option (List ℕ)) (now : Time) (g : Gamer)
    → (handle_open_connection post_method b m random now).1 ≡ write_api_success (gamer_data g)
    → handle_get_connection get_method
        (connection_path g.conn_id)
        (handle_open_connection post_method b m random now).0
      ≡ write_api_success (gamer_data g)
unfolding handle_open_connection handle_get_connection open_connection
handle_get_connection-handle_open_connection b m random now g =
    elim (Result-cases (decode_json_body b (record { remote_addr = [] }))) [
      | inr (x, e) ↦ rw (e, handle_open_connection) (λ h. cc (gamer_reply-ok (err x) g h))
      | inl (i, e) ↦
          rw (e, handle_open_connection)
            (λ h.
              let k = gamer_reply-ok (open_connection m i random now).1 g h in
              rw (
                trim_prefix-append (codes "/gate/connections/") g.conn_id,
                get_gamer-open m (trim_space i.remote_addr) none random now g k,
              ))
    ]
