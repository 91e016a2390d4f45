-- ===== src/Fshash/Access/Dedup.antt =====
-- pkg/fshash/access/dedup.go: `Deduplicator`, and `Action` of pkg/fshash/internal/core/types.go. `none` is
-- a panic of the filter or of the cache.
pub mod Laws
use bons_ci.Base.{
  Str, ℕ, ◌+◌, Bool, true, false, not, List, [], ◌∷◌, Option, none, some, if◌then◌else◌,
}
use bons_ci.Fshash.Layer.Chain.{LayerId, Chain}
use bons_ci.Fshash.Layer.Store.{Store}
use bons_ci.Fshash.Layer.Resolver.{is_file_visible, needs_rehash}
use bons_ci.Fshash.Cache.Sharded.{ShardedStore, get, put}
use bons_ci.Fshash.Access.Bloom.{BloomFilter, test_and_add, reset}
use bons_ci.Fshash.Access.Tracker.{FileHash, Tracker, record_hash, file_hashes}

pub data Action : Type 0 where
  compute : Action
  reuse : FileHash → Action
  skip exclude : Action

pub record Deduplicator : Type 0 where
  pub layers : Store
  pub cache : ShardedStore FileHash
  pub filter : BloomFilter
  pub tracker : Tracker
  pub received : ℕ
  pub computed : ℕ
  pub reused : ℕ
  pub skipped : ℕ
  pub excluded : ℕ

-- The loop over the layers of the chain, from the bottom, up to the first hit.
unfoldable pub find_cached :
    ShardedStore FileHash → Str → List LayerId → Option (ShardedStore FileHash × Option FileHash)
find_cached ss path [] = some (ss, none)
find_cached ss path (l ∷ ls) = elim (get ss l path) [
  | none ↦ none
  | some (next, some h) ↦ some (next, some h)
  | some (next, none) ↦ find_cached next path ls
]

unfoldable pub compute_step : Deduplicator → Deduplicator × Action
compute_step d = (record d { computed = d.computed + 1 }, compute)

-- The ownership resolution, with what the cache answered.
unfoldable pub resolve_cached :
    Deduplicator → LayerId → Str → Chain → Option FileHash → Deduplicator × Action
unfolding compute_step
resolve_cached d id path chain none = compute_step d
resolve_cached d id path chain (some h) =
    if not (needs_rehash d.layers chain path h.layer_id)
    then (record d { reused = d.reused + 1; tracker = record_hash d.tracker id h }, reuse h)
    else compute_step d

-- `Process` of an event of a layer on a path.
unfoldable pub process : Deduplicator → LayerId → Str → Chain → Option (Deduplicator × Action)
unfolding find_cached resolve_cached
process d0 id path chain =
    let d = record d0 { received = d0.received + 1 } in
    if not (is_file_visible d.layers chain path)
    then some (record d { excluded = d.excluded + 1 }, exclude)
    else elim (test_and_add d.filter id path) [
      | none ↦ none
      | some (filter, true) ↦ some (record d { filter = filter; skipped = d.skipped + 1 }, skip)
      | some (filter, false) ↦ elim (find_cached d.cache path chain.layers) [
        | none ↦ none
        | some (cache, hit) ↦
            some (resolve_cached (record d { filter = filter; cache = cache }) id path chain hit)
      ]
    ]

unfoldable pub record_computed : Deduplicator → FileHash → Option Deduplicator
record_computed d h = elim (put d.cache h.layer_id h.path h) [
  | none ↦ none
  | some cache ↦ some (record d { cache = cache; tracker = record_hash d.tracker h.layer_id h })
]

unfoldable pub hashes_of : Deduplicator → LayerId → List FileHash
hashes_of d id = file_hashes d.tracker id

unfoldable pub reset_session : Deduplicator → Deduplicator
reset_session d = record d { filter = reset d.filter }
