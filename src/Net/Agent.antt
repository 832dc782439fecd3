-- ===== src/Net/Agent.antt =====
-- connagt.go: who stands at the other end of a connection. A snapshot is never changed once it is
-- published; each method that writes repeats its round until its compare-and-swap succeeds, and that
-- round is the function here. No snapshot yet is `none`, which a nil agent answers like.
use card.Prelude.{
  ◌≡◌, refl, ap, ite, ◌⊎◌, inl, inr, Bool-cases, List, [], ◌∷◌, map, Option, none, some, arith,
  if◌then◌else◌,
}
use card.Prelude.Int.{ℤ, pos, negsuc, ltb_ℤ}
use card.Prelude.Text.{Str, str_dec}

pub data Kind : Type 0 where
  nobody client server : Kind

pub record RouteEnt : Type 0 where
  pub svr_type : Str
  pub svr_id : ℤ

pub record ConnSnap : Type 0 where
  pub kind : Kind
  pub gid : ℤ
  pub remote : Str
  pub routes : List RouteEnt
  pub svr_type : Str
  pub svr_id : ℤ

abbrev pub ConnAgt : Type 0
ConnAgt = Option ConnSnap

unfoldable pub clone_snap : ConnAgt → ConnSnap
clone_snap none = record {
  kind = nobody;
  gid = pos 0;
  remote = [];
  routes = [];
  svr_type = [];
  svr_id = pos 0;
}
clone_snap (some old) = old

abbrev server_snap : Str → ℤ → ConnSnap
server_snap svr_type svr_id = record {
  kind = server;
  gid = pos 0;
  remote = [];
  routes = [];
  svr_type = svr_type;
  svr_id = svr_id;
}

-- An agent with a user is not turned into a server.
unfoldable pub add_svr_agt : ConnAgt → Str → ℤ → ConnAgt
add_svr_agt none svr_type svr_id = some (server_snap svr_type svr_id)
add_svr_agt (some old) svr_type svr_id =
    if ltb_ℤ (pos 0) old.gid then some old else some (server_snap svr_type svr_id)

abbrev svr_of : Kind → ConnSnap → Str × ℤ
svr_of server p = (p.svr_type, p.svr_id)
svr_of _ p = ([], negsuc 0)

unfoldable pub get_svr_agt : ConnAgt → Str × ℤ
get_svr_agt none = ([], negsuc 0)
get_svr_agt (some p) = svr_of p.kind p

-- What the callback is called with, in order.
abbrev svr_calls : Kind → ConnSnap → List (Str × ℤ)
svr_calls server p = (p.svr_type, p.svr_id) ∷ []
svr_calls _ p = []

unfoldable pub del_svr_sess : ConnAgt → List (Str × ℤ)
del_svr_sess none = []
del_svr_sess (some p) = svr_calls p.kind p

-- `n.k = kClient` and the server's fields cleared.
abbrev as_client : ConnSnap → ConnSnap
as_client n = record n { kind = client; svr_type = []; svr_id = pos 0 }

unfoldable pub add_clt_user : ConnAgt → ℤ → ConnAgt
unfolding clone_snap
add_clt_user old gid = some (record (as_client (clone_snap old)) { gid = gid })

abbrev gid_of : Kind → ConnSnap → ℤ
gid_of client p = p.gid
gid_of _ p = negsuc 0

unfoldable pub get_clt_user : ConnAgt → ℤ
get_clt_user none = negsuc 0
get_clt_user (some p) = gid_of p.kind p

unfoldable pub add_clt_remote : ConnAgt → Str → ConnAgt
unfolding clone_snap
add_clt_remote old addr = some (record (as_client (clone_snap old)) { remote = addr })

abbrev remote_of : Kind → ConnSnap → Str
remote_of client p = p.remote
remote_of _ p = []

unfoldable pub get_clt_remote : ConnAgt → Str
get_clt_remote none = []
get_clt_remote (some p) = remote_of p.kind p

-- The first entry of the type is updated; without one, an entry is appended.
unfoldable pub update_route : List RouteEnt → Str → ℤ → List RouteEnt
update_route [] svr_type svr_id = record { svr_type = svr_type; svr_id = svr_id } ∷ []
update_route (r ∷ rs) svr_type svr_id =
    ite (str_dec r.svr_type svr_type) (record r { svr_id = svr_id } ∷ rs)
      (r ∷ update_route rs svr_type svr_id)

unfoldable pub add_clt_route : ConnAgt → Str → ℤ → ConnAgt
unfolding clone_snap
add_clt_route old svr_type svr_id =
    let n : ConnSnap = as_client (clone_snap old) in
    some (record n { routes = update_route n.routes svr_type svr_id })

unfoldable pub find_route : List RouteEnt → Str → ℤ
find_route [] svr_type = negsuc 0
find_route (r ∷ rs) svr_type = ite (str_dec r.svr_type svr_type) r.svr_id (find_route rs svr_type)

abbrev route_of : Kind → ConnSnap → Str → ℤ
route_of client p svr_type = find_route p.routes svr_type
route_of _ p svr_type = negsuc 0

unfoldable pub get_clt_route : ConnAgt → Str → ℤ
get_clt_route none svr_type = negsuc 0
get_clt_route (some p) svr_type = route_of p.kind p svr_type

abbrev clt_calls : Kind → ConnSnap → List (ℤ × Str × ℤ)
clt_calls client p = map (λ r. (p.gid, r.svr_type, r.svr_id)) p.routes
clt_calls _ p = []

unfoldable pub del_clt_sess : ConnAgt → List (ℤ × Str × ℤ)
del_clt_sess none = []
del_clt_sess (some p) = clt_calls p.kind p

find_route-update_route :
    (rs : List RouteEnt) (svr_type other : Str) (svr_id : ℤ)
    → find_route (update_route rs svr_type svr_id) other
      ≡ ite (str_dec svr_type other) svr_id (find_route rs other)
unfolding find_route update_route
find_route-update_route [] svr_type other svr_id = refl
find_route-update_route (r ∷ rs) svr_type other svr_id =
    ground (arith, find_route-update_route rs svr_type other svr_id)

-- Only a client has routes.
abbrev pub IsClean : ConnAgt → Type 0
IsClean none = Unit
IsClean (some p) = (p.kind ≡ client) ⊎ (p.routes ≡ [])

route_of_none :
    (k : Kind) (p : ConnSnap) (other : Str)
    → p.routes ≡ []
    → find_route p.routes other ≡ route_of k p other
unfolding find_route
route_of_none client p other h = refl
route_of_none server p other h = ap (λ rs. find_route rs other) h
route_of_none nobody p other h = ap (λ rs. find_route rs other) h

clone_snap-route :
    (agt : ConnAgt) (other : Str)
    → IsClean agt
    → find_route (clone_snap agt).routes other ≡ get_clt_route agt other
unfolding find_route clone_snap get_clt_route
clone_snap-route none other h = refl
clone_snap-route (some p) other (inl h) = rw h
clone_snap-route (some p) other (inr h) = route_of_none p.kind p other h

-- After AddCltRoute the route of its server type is the new one, and every other is what it was.
pub get_clt_route-add_clt_route :
    (agt : ConnAgt) (svr_type other : Str) (svr_id : ℤ)
    → IsClean agt
    → get_clt_route (add_clt_route agt svr_type svr_id) other
      ≡ ite (str_dec svr_type other) svr_id (get_clt_route agt other)
unfolding add_clt_route
get_clt_route-add_clt_route agt svr_type other svr_id h =
    rw (← clone_snap-route agt other h) (
      unfold get_clt_route in find_route-update_route (clone_snap agt).routes svr_type other svr_id)

-- Every writer keeps the routes to clients.
pub add_clt_route-IsClean : (agt : ConnAgt) (t : Str) (i : ℤ) → IsClean (add_clt_route agt t i)
unfolding add_clt_route
add_clt_route-IsClean agt t i = inl refl

pub add_svr_agt-IsClean :
    (agt : ConnAgt) (t : Str) (i : ℤ) → IsClean agt → IsClean (add_svr_agt agt t i)
unfolding add_svr_agt
add_svr_agt-IsClean none t i h = inr refl
add_svr_agt-IsClean (some p) t i h = elim (Bool-cases (ltb_ℤ (pos 0) p.gid)) [
  | inl e ↦ rw e h
  | inr e ↦ rw e (inr refl)
]
