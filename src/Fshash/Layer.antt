-- ===== src/Fshash/Layer.antt =====
-- pkg/fshash/layer: chains of stacked layers, what each layer changed, and who owns a file.
pub mod Chain
pub mod Store
pub mod Ancestors
pub mod Resolver
pub mod Visibility
