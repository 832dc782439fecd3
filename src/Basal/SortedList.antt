-- ===== src/Basal/SortedList.antt =====
-- sortedlist.go: its definitions, and what is proved of them.
pub mod Defs
pub mod Order
pub mod Search
pub mod Updates
pub mod History
pub mod Batch
