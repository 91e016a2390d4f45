-- ===== src/Fshash/Tests/Overlay.antt =====
-- pkg/fshash/overlay: markers parsed.
use bons_ci.Base.{str_key}
use bons_ci.Fshash.Layer.Store.{}
use bons_ci.Fshash.Layer.Resolver.Laws.{}
use bons_ci.Fshash.Cache.Sharded.Laws.{}
use bons_ci.Fshash.Access.Bloom.Laws.{}
use bons_ci.Fshash.Merkle.Tree.{}
