-- ===== src/Auth.antt =====
-- server/src/service/auth: accounts, sessions, login tickets and connect tokens.
pub mod Model
pub mod Stores
pub mod Accounts
pub mod Repository
pub mod Service
pub mod Handler
pub mod Keys
pub mod Conflict
pub mod Sessions
pub mod Tickets
pub mod Saving
pub mod Calls
pub mod Writes
pub mod Logins
pub mod Redeem
pub mod Histories
pub mod Once
mod Example
mod Tests
pub mod Statuses
