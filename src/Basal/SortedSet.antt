-- ===== src/Basal/SortedSet.antt =====
-- sortedset.go: its definitions, and what is proved of the keys of a set.
pub mod Defs
pub mod Keys
pub mod Algebra
pub mod Intersection
