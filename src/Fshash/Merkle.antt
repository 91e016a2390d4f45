-- ===== src/Fshash/Merkle.antt =====
-- pkg/fshash/merkle: the tree over a layer and its proofs of inclusion.
pub mod Tree
pub mod Proof
