-- ===== src/Fshash/Access.antt =====
-- pkg/fshash/access: which accesses need a hash.
pub mod Bloom
pub mod Tracker
pub mod Dedup
