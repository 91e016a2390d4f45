-- ===== src/Dirsync.antt =====
-- internal/dirsync: comparing a lower and an upper directory tree, and the set of paths to prune.
pub mod Types
pub mod Paths
pub mod Pruning
pub mod Handlers
pub mod Batcher
pub mod Hasher
pub mod Filter
pub mod Walker
mod Tests
