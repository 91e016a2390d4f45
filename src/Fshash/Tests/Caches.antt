-- ===== src/Fshash/Tests/Caches.antt =====
-- pkg/fshash/cache: small shards and a sharded store.
use bons_ci.Base.{str_key, codes, ℕ, ◌+◌, [], ◌∷◌, some, take, ◌≡◌, refl, arith}
use bons_ci.Base.Dict.{lookup, delete}
use bons_ci.Fshash.Layer.Store.{}
use bons_ci.Fshash.Layer.Resolver.Laws.{}
use bons_ci.Fshash.Overlay.Parser.{}
use bons_ci.Fshash.Cache.Shard.{Shard, new_shard, put, get}
use bons_ci.Fshash.Cache.Shard
use bons_ci.Fshash.Cache.Shard.Laws.{put-recency, get-lookup}
use bons_ci.Fshash.Cache.Sharded.{ShardedStore, new_sharded_store, invalidate_layer}
use bons_ci.Fshash.Cache.Sharded
use bons_ci.Fshash.Cache.Sharded.Laws.{IsValidStore, peek, sharded_put_total}
use bons_ci.Fshash.Access.Bloom.Laws.{}
use bons_ci.Fshash.Access.Tracker.{FileHash}
use bons_ci.Fshash.Merkle.Tree.{}
use bons_ci.Fshash.Tests.{l1, file, cache, cache-IsValidStore, hash_1}

abbrev full_shard : Shard ℕ
full_shard = record {
  entries = (codes "a", 1) ∷ (codes "b", 2) ∷ [];
  capacity = 2;
  hits = 0;
  misses = 0;
  evicts = 0;
}

full_shard-IsValid : Shard.Laws.IsValid full_shard
unfolding lookup Shard.size
full_shard-IsValid = (refl, omega arith, omega arith)

put-recency_example :
    (put full_shard (codes "c") 3).entries
    ≡ take 2 ((codes "c", 3) ∷ delete (codes "c") full_shard.entries)
put-recency_example = put-recency full_shard (codes "c") 3 full_shard-IsValid

get-lookup_example :
    ((get full_shard (codes "b")).1 ≡ lookup (codes "b") full_shard.entries)
    × (lookup (codes "a") (get full_shard (codes "b")).0.entries
        ≡ lookup (codes "a") full_shard.entries)
    × ((get full_shard (codes "b")).0.hits + (get full_shard (codes "b")).0.misses ≡ 0 + 0 + 1)
get-lookup_example = get-lookup full_shard (codes "b") (codes "a")

sharded_put_total_example :
    (next : ShardedStore FileHash) × (Sharded.put cache l1 file hash_1 ≡ some next)
    × IsValidStore next
    × (peek next l1 file ≡ some hash_1)
sharded_put_total_example = sharded_put_total cache l1 file hash_1 cache-IsValidStore
