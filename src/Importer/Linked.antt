-- ===== src/Importer/Linked.antt =====
-- How the members of an accepted audit package point to each other.
pub mod Index
pub mod Owned
pub mod Found
pub mod Rounds
pub mod Links
