-- ===== src/Gate/Grpc/Laws.antt =====
-- The control service: what a kick does to the answers that follow.
use card.Prelude.{◌≡◌, ◌↔◌, arith}
use card.Prelude.Text.{Str, trim_space}
use card.Gate.Manager.Calls.{disconnect-missing}
use card.Gate.Manager.Defs.{Manager, disconnect, get}
use card.Gate.Manager.Owned.{IsOwned, disconnect-gone}
use card.Gate.Service.{disconnect_conn, logout, get_gamer}
use card.Gate.Grpc.{
  GrpcCode, grpc_not_found, reply, fault, map_gate_error, grpc_get_gamer, grpc_kick_gamer,
}

-- After a kick that was answered with success, the connection is not found, neither by a lookup nor
-- by another kick.
pub grpc_kick_gamer-twice :
    (m : Manager) (c : Str)
    → IsOwned m
    → (grpc_kick_gamer m c).1 ≡ reply tt
    → let m' = (grpc_kick_gamer m c).0 in
      (grpc_get_gamer m' c ≡ fault grpc_not_found)
      × (grpc_kick_gamer m' c ≡ (m', fault grpc_not_found))
unfolding grpc_kick_gamer disconnect_conn logout get_gamer grpc_get_gamer get map_gate_error
grpc_kick_gamer-twice m c v h = ground (
  arith,
  disconnect-gone m v (trim_space c),
  disconnect-missing (disconnect m (trim_space c)).0 (trim_space c),
)

-- A kick fails exactly when a lookup of the connection does, with the same code.
pub grpc_kick_gamer-faults :
    (m : Manager) (c : Str) (k : GrpcCode)
    → ((grpc_kick_gamer m c).1 ≡ fault k) ↔ (grpc_get_gamer m c ≡ fault k)
unfolding grpc_kick_gamer disconnect_conn logout get_gamer grpc_get_gamer get map_gate_error
    disconnect
grpc_kick_gamer-faults m c k = (λ h. ground arith, λ h. ground arith)
