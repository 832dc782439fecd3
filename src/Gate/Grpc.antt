-- ===== src/Gate/Grpc.antt =====
-- grpc_server.go: the control service. The interceptor and the transport are not modelled.
pub mod Laws
use card.Prelude.{ℕ, ◌≡◌, refl, List, [], ◌∷◌, map, Option, none, some}
use card.Prelude.Int.{ℤ}
use card.Prelude.Text.{Str}
use card.Gate.Model.{
  Time, GamerStatus, Profile, Gamer, Error, invalid_argument, conn_not_found, upstream, Result, ok,
  err,
}
use card.Gate.Manager.Defs.{Manager, list}
use card.Gate.Service.{disconnect_conn, get_gamer}

-- `pb.GateGamerSnapshot`.
pub record GateGamerSnapshot : Type 0 where
  pub conn_id : Str
  pub account_id : Str
  pub player_id : Str
  pub session_id : Str
  pub remote_addr : Str
  pub status : GamerStatus
  pub profile : Option Profile
  pub connected_at : ℤ
  pub last_seen_at : ℤ

-- The codes of gRPC that the service answers with.
pub data GrpcCode : Type 0 where
  grpc_invalid_argument grpc_not_found grpc_internal : GrpcCode

pub data GrpcResult (A : Type 0) : Type 0 where
  reply : A → GrpcResult A
  fault : GrpcCode → GrpcResult A

unfoldable pub to_proto_snapshot : Gamer → GateGamerSnapshot
to_proto_snapshot g = record {
  conn_id = g.conn_id;
  account_id = g.account_id;
  player_id = g.player_id;
  session_id = g.session_id;
  remote_addr = g.remote_addr;
  status = g.status;
  profile = g.profile;
  connected_at = g.connected_at.sec;
  last_seen_at = g.last_seen_at.sec;
}

-- The errors that are not nil.
unfoldable pub map_gate_error : Error → GrpcCode
map_gate_error invalid_argument = grpc_invalid_argument
map_gate_error conn_not_found = grpc_not_found
map_gate_error upstream = grpc_internal

unfoldable pub grpc_get_gamer : Manager → Str → GrpcResult GateGamerSnapshot
grpc_get_gamer m conn_id = elim (get_gamer m conn_id) [
  | err e ↦ fault (map_gate_error e)
  | ok gamer ↦ reply (to_proto_snapshot gamer)
]

unfoldable pub grpc_list_gamers : Manager → List GateGamerSnapshot
grpc_list_gamers m = map to_proto_snapshot (list m)

-- The answer `reply tt` is the response with `Ok: true`.
unfoldable pub grpc_kick_gamer : Manager → Str → Manager × GrpcResult (Unit {0})
grpc_kick_gamer m conn_id =
    let (m', r) = disconnect_conn m (record { conn_id = conn_id }) in
    (m', elim r [ none ↦ reply tt | some e ↦ fault (map_gate_error e) ])
