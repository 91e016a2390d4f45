-- ===== src/Fshash/Overlay.antt =====
-- pkg/fshash/overlay: what overlay markers say.
pub mod Parser
pub mod Interpreter
