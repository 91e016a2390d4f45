-- ===== src/Fshash/Cache/Sharded/Layers.antt =====
-- pkg/fshash/cache/store.go: `InvalidateLayer`. A layer digest holds no zero byte.
use bons_ci.Base.{
  Str, str_key, str_eqb, has_prefix, Bool, true, [], ◌∷◌, ◌++◌, none, if◌then◌else◌, all, not, ◌==◌,
  length-map, All-map, get_elem?-map, ◌≡◌, refl, ◌∙◌, arith,
}
use bons_ci.Base.Dict.{lookup-delete_if}
use bons_ci.Fshash.Layer.Chain.{LayerId}
use bons_ci.Fshash.Cache.Shard.{Shard, invalidate_by_prefix}
use bons_ci.Fshash.Cache.Shard.Laws.{invalidate_by_prefix-IsValid}
use bons_ci.Fshash.Cache.Sharded.{
  ShardedStore, composite_key, nul, shard_index, get_shard, invalidate_layer,
}
use bons_ci.Fshash.Cache.Sharded.Laws.{IsValidStore, peek, shard_of}
use bons_ci.Fshash.Cache.Shard

abbrev pub no_nul : Str → Bool
no_nul s = all (λ c. not (c == nul)) s

-- A key has the prefix of a layer if it is a key of that layer.
has_prefix-key :
    (id j path : Str)
    → no_nul id ≡ true
    → no_nul j ≡ true
    → has_prefix (j ++ nul ∷ path) (id ++ nul ∷ []) ≡ str_eqb id j
has_prefix-key [] [] path h k = refl
has_prefix-key [] (c ∷ j) path h k = ground arith
has_prefix-key (c ∷ id) [] path h k = ground arith
has_prefix-key (c ∷ id) (d ∷ j) path h k = ground (arith, has_prefix-key id j path)

module _ {V : Type 0} where
  -- Invalidating a layer removes the entries of that layer, and those only.
  pub sharded_invalidate_layer_lem :
      (ss : ShardedStore V) (id j : LayerId) (path : Str)
      → IsValidStore ss
      → no_nul id ≡ true
      → no_nul j ≡ true
      → IsValidStore (invalidate_layer ss id)
        × (peek (invalidate_layer ss id) j path ≡ (if str_eqb id j then none else peek ss j path))
  unfolding invalidate_layer peek get_shard shard_index composite_key invalidate_by_prefix
  sharded_invalidate_layer_lem ss id j path h k l =
      let key = composite_key j path in
      let prefix = id ++ nul ∷ [] in
      let clear : Shard V → Shard V = λ s. invalidate_by_prefix s prefix in
      let (s, e, _) = shard_of ss key h in
      let moved = get_elem?-map clear ss.shards (shard_index ss key) s e in
      (
        (
          length-map clear ss.shards ∙ h.0,
          All-map Shard.Laws.IsValid Shard.Laws.IsValid clear ss.shards
              (λ t. invalidate_by_prefix-IsValid t prefix) h.1,
        ),
        rw
            (
              peek,
              get_shard,
              moved,
              e,
              lookup-delete_if (λ k. has_prefix k prefix) key s.entries,
              has_prefix-key id j path k l,
            )
            refl,
      )
