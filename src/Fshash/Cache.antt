-- ===== src/Fshash/Cache.antt =====
-- pkg/fshash/cache: the sharded cache of content hashes.
pub mod Shard
pub mod Sharded
