-- ===== src/FastId.antt =====
-- server/deps/fastid: identifiers made of a time, a sequence number and the number of the machine.
pub mod Defs
pub mod Fields
pub mod Order
pub mod Times
pub mod Repeats
mod Tests
