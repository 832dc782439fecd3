-- ===== src/Net.antt =====
-- server/deps/netmgr: connections between servers and with clients.
pub mod Options
pub mod Agent
pub mod Model
pub mod Manager
pub mod Accept
pub mod Framing
pub mod Delay
pub mod Writing
mod Tests
