-- ===== src/Layermerkle.antt =====
-- pkg/layermerkle: which layer owns a file, and caches of what was found.
pub mod Types
pub mod Layer
pub mod StatCache
pub mod Ring
pub mod Resolver
pub mod Whiteout
pub mod HashCache
pub mod Trie
pub mod Merkle
pub mod Diff
pub mod Dedup
mod Tests
