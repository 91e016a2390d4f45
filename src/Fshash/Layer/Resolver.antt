-- ===== src/Fshash/Layer/Resolver.antt =====
-- pkg/fshash/layer/resolver.go: `Resolver`.
pub mod Laws
use bons_ci.Base.{
  Str, ℕ, ◌+◌, Bool, true, false, not, ◌||◌, List, [], ◌∷◌, Option, none, some, if◌then◌else◌,
  length, any, drop, reverse,
}
use bons_ci.Fshash.Layer.Ancestors.{any_ancestor}
use bons_ci.Fshash.Layer.Chain.{LayerId, Chain, position, above}
use bons_ci.Fshash.Layer.Store.{Store, is_modified, is_deleted, is_opaque, owner_of}

unfoldable pub needs_rehash : Store → Chain → Str → LayerId → Bool
needs_rehash s chain path cached_layer = elim (position chain cached_layer) [
  | none ↦ true
  | some pos ↦ any (λ l. is_modified s l path) (above chain cached_layer)
]

unfoldable pub resolve_owner : Store → Chain → Str → LayerId × Bool
resolve_owner s chain path = owner_of s chain.layers path

-- The body of the loop of `IsFileVisible`: a layer that hides the path.
unfoldable pub masks : Store → Str → LayerId → Bool
masks s path l = is_deleted s l path || any_ancestor (is_opaque s l) (length path) path

abbrev pub owner_pos : Option ℕ → ℕ
owner_pos none = 0
owner_pos (some pos) = pos

-- The loop runs from the top of the chain down to above the owner.
unfoldable pub is_file_visible : Store → Chain → Str → Bool
is_file_visible s chain path = elim chain.layers [
  | [] ↦ false
  | _ ∷ _ ↦
      let pos = owner_pos (position chain (owner_of s chain.layers path).0) in
      not (any (masks s path) (reverse (drop (pos + 1) chain.layers)))
]
