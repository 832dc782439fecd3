-- ===== src/Basal.antt =====
-- server/deps/basal: the base library of the servers.
pub mod SortedList
pub mod SortedSet
pub mod Next
pub mod Slice
pub mod Padding
pub mod Words
mod Tests
