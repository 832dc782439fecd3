-- ===== src/Net/Framing.antt =====
-- msgque_tcp.go: how the bytes of a connection become messages.
pub mod Defs
mod Rounds
pub mod Room
