-- ===== src/Fshash/Tests/Accesses.antt =====
-- pkg/fshash/access: a small filter, a tracker and a deduplicator.
use bons_ci.Base.{str_key, ◌^◌, Bool, true, [], ◌∷◌, some, ◌≡◌, refl}
use bons_ci.Fshash.Layer.Chain.{Chain, new_chain}
use bons_ci.Fshash.Layer.Store.{}
use bons_ci.Fshash.Layer.Resolver.{is_file_visible, needs_rehash}
use bons_ci.Fshash.Layer.Resolver.Laws.{visible_owned}
use bons_ci.Fshash.Overlay.Parser.{}
use bons_ci.Fshash.Cache.Sharded.Laws.{}
use bons_ci.Fshash.Access.Bloom.{BloomFilter, new_bloom_filter, test, test_and_add, reset}
use bons_ci.Fshash.Access.Bloom
use bons_ci.Fshash.Access.Bloom.Laws.{IsValidFilter, new_bloom_filter-IsValid, add-test}
use bons_ci.Fshash.Access.Dedup.{Deduplicator, process}
use bons_ci.Fshash.Access.Dedup.Laws.{IsValid, first_cached, classify, process_total}
use bons_ci.Fshash.Merkle.Tree.{}
use bons_ci.Fshash.Tests.{l1, file, store, cache, cache-IsValidStore, modified_l1}

abbrev pub filter : BloomFilter
filter = new_bloom_filter (2 ^ 7) 3

pub filter-IsValidFilter : IsValidFilter filter
filter-IsValidFilter = new_bloom_filter-IsValid 7 3

add-test_example :
    (next : BloomFilter) × (Bloom.add filter l1 file ≡ some next)
    × IsValidFilter next
    × (test next l1 file ≡ some true)
add-test_example = add-test filter filter-IsValidFilter l1 file

abbrev dedup : Deduplicator
dedup = record {
  layers = store;
  cache = cache;
  filter = filter;
  tracker = [];
  received = 0;
  computed = 0;
  reused = 0;
  skipped = 0;
  excluded = 0;
}

dedup-IsValid : IsValid dedup
dedup-IsValid = (filter-IsValidFilter, cache-IsValidStore, refl)

abbrev chain : Chain
chain = new_chain (l1 ∷ [])

process_total_example :
    (next : Deduplicator) × (found : Bool) × (test filter l1 file ≡ some found)
    × (process dedup l1 file chain
        ≡ some (
          next,
          classify
              (is_file_visible store chain file)
              found
              (first_cached cache file chain.layers)
              (needs_rehash store chain file),
        ))
    × IsValid next
process_total_example = process_total dedup l1 file chain dedup-IsValid

shown : is_file_visible store chain file ≡ true
shown = visible_owned store file [] [] l1 modified_l1 refl
