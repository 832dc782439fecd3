-- ===== src/Gate/Manager.antt =====
-- manager.go: its definitions, and what is proved of them.
pub mod Defs
pub mod Invariant
pub mod Reach
pub mod Calls
pub mod Rebind
pub mod Owned
pub mod Ids
