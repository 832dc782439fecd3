-- ===== src/Gate.antt =====
-- The gate service (server/src/service/gate/module): connections, their login, and their control.
pub mod Model
pub mod Manager
pub mod Service
pub mod Sockets
pub mod Http
pub mod Grpc
mod Tests
