-- ===== src/Gate/Manager/Ids.antt =====
-- The identifiers of connections.
use card.Prelude.{ℕ, ◌≡◌, refl, ◌≢◌, List, [], ◌++◌, Option, none, some}
use card.Prelude.Text.{Str, codes, is_space, IsSolid, hex_encode, hex_encode-IsSolid}
use card.Gate.Model.{Time, Gamer, ok, new_id}
use card.Gate.Manager.Defs.{Manager, open_conn, opened_gamer}

-- The identifiers that `Open` makes have no white space, so that `TrimSpace` leaves them.
pub conn_id-IsSolid :
    (m : Manager) (r : Str) (closer : Option ℕ) (random : Option (List ℕ)) (now : Time) (g : Gamer)
    → (open_conn m r closer random now).1 ≡ ok g
    → IsSolid g.conn_id × (g.conn_id ≢ [])
unfolding open_conn new_id opened_gamer is_space
conn_id-IsSolid m r closer none now g h = absurd (cc)
conn_id-IsSolid m r closer (some buf) now g h =
    let e : g.conn_id ≡ codes "conn" ++ (codes "_" ++ hex_encode buf) = cc in
    rw e ((refl, (refl, (refl, (refl, (refl, hex_encode-IsSolid buf))))), λ k. cc)
