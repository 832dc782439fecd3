-- ===== src/Net/Manager.antt =====
-- netmgr.go: the manager of the connections.
pub mod Defs
pub mod Tasks
pub mod Moves
pub mod Kept
pub mod Effects
pub mod Removals
mod TaskMoves
pub mod Made
pub mod Ending
pub mod Runs
pub mod Logins
pub mod Stale
