-- ===== src/Fshash/Tests/Layers.antt =====
-- pkg/fshash/layer: chains, marks, owners and visibility of small stores.
use bons_ci.Base.{str_key, true, false, [], ◌∷◌, none, any, All, ◌↔◌, ◌≡◌, refl}
use bons_ci.Base.Dict.{lookup, insert}
use bons_ci.Fshash.Layer.Chain.{new_chain, position}
use bons_ci.Fshash.Layer.Ancestors.{any_ancestor}
use bons_ci.Fshash.Layer.Store.{register, is_modified, is_deleted, is_opaque, exists, owner_of}
use bons_ci.Fshash.Layer.Resolver.{is_file_visible, masks}
use bons_ci.Fshash.Layer.Resolver.Laws.{Spares, is_file_visible-owned}
use bons_ci.Fshash.Layer.Visibility.{is_visible}
use bons_ci.Fshash.Layer.Visibility.Findings.{is_visible_recreated}
use bons_ci.Fshash.Overlay.Parser.{}
use bons_ci.Fshash.Cache.Sharded.Laws.{}
use bons_ci.Fshash.Access.Bloom.Laws.{}
use bons_ci.Fshash.Merkle.Tree.{}
use bons_ci.Fshash.Tests.{l1, l2, l3, file, store, bare, modified_l1}

known : exists bare l1 ≡ true
unfolding exists lookup
known = refl

registers : (register bare l2 l1).1 ≡ none
unfolding register lookup
registers = refl

modified_l3 : is_modified store l3 file ≡ true
unfolding is_modified lookup
modified_l3 = refl

untouched : is_modified store l2 file ≡ false
unfolding is_modified lookup
untouched = refl

above_l1 : any (λ l. is_modified store l file) (l2 ∷ []) ≡ false
unfolding is_modified lookup
above_l1 = refl

is_file_visible-owned_example :
    (is_file_visible store (new_chain (l1 ∷ l2 ∷ [])) file ≡ true)
    ↔ All (Spares store file) (l2 ∷ [])
is_file_visible-owned_example =
    is_file_visible-owned store file [] (l2 ∷ []) l1 modified_l1 above_l1

hidden_l2 : is_file_visible store (new_chain (l1 ∷ l2 ∷ [])) file ≡ false
unfolding is_file_visible new_chain owner_of masks any_ancestor is_deleted is_modified is_opaque
    position lookup insert
hidden_l2 = refl

untouched_below : any (λ l. is_modified store l file) (l2 ∷ []) ≡ false
untouched_below = above_l1

deleted_below : any (λ l. is_deleted store l file) (l1 ∷ l2 ∷ []) ≡ true
unfolding is_deleted lookup
deleted_below = refl

is_visible_recreated_example :
    (is_file_visible store (new_chain (l1 ∷ l2 ∷ l3 ∷ [])) file ≡ true)
    × (is_visible store (new_chain (l1 ∷ l2 ∷ l3 ∷ [])) l3 file ≡ false)
is_visible_recreated_example =
    is_visible_recreated store (l1 ∷ l2 ∷ []) l3 file modified_l3 deleted_below
