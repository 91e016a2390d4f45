-- ===== src/Llb.antt =====
-- client/llb: the graph of vertices, how it is walked and marshalled, and the matrix operation.
pub mod Graph
pub mod Marshal
pub mod Matrix
mod Tests
