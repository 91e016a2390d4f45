-- ===== src/Fshash.antt =====
-- pkg/fshash: content hashing of layered files with deduplication.
pub mod Layer
pub mod Overlay
pub mod Cache
pub mod Access
pub mod Merkle
pub mod Processor
mod Tests
