-- ===== src/Fshash/Tests.antt =====
-- pkg/fshash: the samples that the runs of its parts share.
mod Layers
mod Overlay
mod Caches
mod Accesses
mod Trees
mod Processors
use bons_ci.Base.{
  Str, str_key, codes, str_eqb, ℕ, ◌+◌, ◌^◌, Bool, true, false, not, ◌&&◌, ◌||◌, List, [], ◌∷◌,
  none, some, if◌then◌else◌, any, take, ◌≡◌, ◌≢◌, refl, arith,
}
use bons_ci.Base.Dict.{lookup, insert, delete}
use bons_ci.Fshash.Layer.Chain.{LayerId, Chain, new_chain, position, above}
use bons_ci.Fshash.Layer.Chain.Laws.{position-new_chain, above-new_chain}
use bons_ci.Fshash.Layer.Ancestors.{any_ancestor, any_ancestor-fuel}
use bons_ci.Fshash.Layer.Store.{
  Store, register, mark_modified, mark_deleted, mark_opaque, is_modified, is_deleted, is_opaque,
  exists, owner_of, new_manifest,
}
use bons_ci.Fshash.Layer.Store.Laws.{mark_modified_lem, mark_deleted_lem, register-none}
use bons_ci.Fshash.Layer.Resolver.{is_file_visible, needs_rehash, masks}
use bons_ci.Fshash.Layer.Resolver.Laws.{
  owner_of_topmost, is_file_visible-owned, is_file_visible-unowned, needs_rehash_above,
}
use bons_ci.Fshash.Layer.Visibility.{is_visible}
use bons_ci.Fshash.Layer.Visibility.Findings.{is_visible-mark_opaque, is_visible_recreated}
use bons_ci.Fshash.Overlay.Parser.{
  default_parser, whiteout, parse, is_opaque_marker, is_whiteout, whiteout_target,
}
use bons_ci.Fshash.Overlay.Parser.Laws.{parse-whiteout, parse_agrees, kind_of}
use bons_ci.Fshash.Cache.Shard.{Shard, new_shard, put, get}
use bons_ci.Fshash.Cache.Shard
use bons_ci.Fshash.Cache.Shard.Laws.{put-recency, get-lookup}
use bons_ci.Fshash.Cache.Sharded.{ShardedStore, new_sharded_store, invalidate_layer}
use bons_ci.Fshash.Cache.Sharded
use bons_ci.Fshash.Cache.Sharded.Laws.{
  IsValidStore, peek, new_sharded_store-IsValid, sharded_put_total, sharded_get_total,
}
use bons_ci.Fshash.Cache.Sharded.Layers.{sharded_invalidate_layer_lem}
use bons_ci.Fshash.Access.Bloom.{BloomFilter, new_bloom_filter, test, test_and_add, reset}
use bons_ci.Fshash.Access.Bloom
use bons_ci.Fshash.Access.Bloom.Laws.{
  IsValidFilter, new_bloom_filter-IsValid, add-test, add_keeps, test_and_add_lem, reset-test,
}
use bons_ci.Fshash.Access.Tracker.{FileHash, record_hash, has_file, count}
use bons_ci.Fshash.Access.Tracker.Laws.{record_hash_lem}
use bons_ci.Fshash.Access.Dedup.{Action, Deduplicator, process, skip}
use bons_ci.Fshash.Access.Dedup.Laws.{IsValid, first_cached, classify, process_total, process_again}
use bons_ci.Fshash.Merkle.Tree.{
  Node, Nodes, Tree, build, leaf_count, leaf_counts, nodes_of, verify_nodes, verify, new_tree,
  hash_of,
}
use bons_ci.Fshash.Merkle.Tree
use bons_ci.Fshash.Merkle.Proof.{Proof, generate_proof, verify_proof}
use bons_ci.Fshash.Merkle.Proof.Findings.{three}

abbrev l1 : LayerId
l1 = codes "l1"

abbrev l2 : LayerId
l2 = codes "l2"

abbrev l3 : LayerId
l3 = codes "l3"

abbrev file : Str
file = codes "/d/f"

abbrev set_of : Str → List (Str × Unit {0})
set_of p = (p, tt) ∷ []

-- Three layers, of which the first has the file, the second deletes it and the third has it again.
abbrev store : Store
store =
    (l1, record { parent_id = []; modified = set_of file; deleted = []; opaque_dirs = [] })
    ∷ (l2, record { parent_id = l1; modified = []; deleted = set_of file; opaque_dirs = [] })
    ∷ (l3, record { parent_id = l2; modified = set_of file; deleted = []; opaque_dirs = [] })
    ∷ []

abbrev bare : Store
bare = (l1, new_manifest []) ∷ []

abbrev cache : ShardedStore FileHash
cache = new_sharded_store 4 64

cache-IsValidStore : IsValidStore cache
cache-IsValidStore = new_sharded_store-IsValid FileHash 4 64

abbrev hash_1 : FileHash
hash_1 = record { path = file; hash = codes "h1"; layer_id = l1 }

modified_l1 : is_modified store l1 file ≡ true
unfolding is_modified lookup
modified_l1 = refl
