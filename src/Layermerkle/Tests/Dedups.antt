-- ===== src/Layermerkle/Tests/Dedups.antt =====
-- pkg/layermerkle/deduplicator.go: requests over a new sharded cache, where the bottom layer owns every file.
use bons_ci.Base.{
  Str, codes, str_eqb, str_eqb_iff, true, List, [], ◌∷◌, ◌++◌, none, some, ◌≡◌, inl, inr, refl,
  arith, if◌then◌else◌, Bool-cases, str_key,
}
use bons_ci.Base.Dict.{lookup}
use bons_ci.Layermerkle.Types.{LayerId, ResolveError, stat_key}
use bons_ci.Layermerkle.Resolver.{Owner, owner, AbsPath, below, no_path}
use bons_ci.Layermerkle.Resolver as Resolver
use bons_ci.Layermerkle.HashCache.{noop}
use bons_ci.Layermerkle.HashCache.Lru.{LruCache, new_lru}
use bons_ci.Layermerkle.HashCache.Lru.Laws.{
  lru, lru_laws, new_lru-IsValid, peek_hash, peek_hash-new_lru, IsValidCache,
}
use bons_ci.Layermerkle.Merkle.{finalize, add_tree}
use bons_ci.Layermerkle.Dedup.{
  LayerFileResolver, FileHasher, Resolved, found, resolve, resolve_slow, singleflight_key,
  VertexProcessor, AccessEvent, finalize_vertex,
}
use bons_ci.Layermerkle.Dedup.Laws.{answer, resolve-noop, hash_uncached}
use bons_ci.Layermerkle.Dedup.Findings.{resolve-same_top}
use bons_ci.Layermerkle.Dedup.Vertices.{process_all, builder_of, finalize_vertex-process_all}

abbrev low : LayerId
low = codes "low"

abbrev high : LayerId
high = codes "high"

abbrev other : LayerId
other = codes "other"

abbrev file : Str
file = codes "f"

abbrev bottom : List LayerId → Str → Owner
bottom [] p = Resolver.failed ResolveError.layer_not_found
bottom (l ∷ ls) p = owner l

abbrev files : LayerFileResolver
files = record { find_owner_layer = bottom; diff_abs_path = λ l p. below l (p ∷ []) }

-- The hash of a file is its layer and a name.
abbrev hasher : FileHasher
hasher (no_path e) = none
hasher (below l p) = some (l ++ file)

abbrev below_high : LayerId → List LayerId
below_high l = if str_eqb l high then low ∷ [] else []

abbrev cache : LruCache
cache = new_lru 512

own_top :
    (l o : LayerId) (p : Str)
    → bottom (below_high l ++ l ∷ []) p ≡ owner o
    → bottom (below_high o ++ o ∷ []) p ≡ owner o
own_top l o p e = elim (Bool-cases (str_eqb l high)) [
  | inl h ↦ ground (arith, e, h, str_eqb_iff o low)
  | inr h ↦ ground (arith, e, h)
]

resolve-noop_example :
    (answer (resolve lru files hasher cache (low ∷ high ∷ []) file).1
      ≡ answer (resolve noop files hasher tt (low ∷ high ∷ []) file).1)
    × IsValidCache (resolve lru files hasher cache (low ∷ high ∷ []) file).0
    × ((l : LayerId) (p h : Str)
        → peek_hash (resolve lru files hasher cache (low ∷ high ∷ []) file).0 l p ≡ some h
        → hash_uncached files hasher (below_high l ++ l ∷ []) p ≡ inr h)
resolve-noop_example =
    resolve-noop lru lru_laws files hasher below_high own_top cache high file (new_lru-IsValid 512)
      (λ l p h e. cc (peek_hash-new_lru 512 l p, e))

hashed : answer (resolve lru files hasher cache (low ∷ high ∷ []) file).1 ≡ inr (codes "lowf")
unfolding resolve resolve_slow
hashed = resolve-noop_example.0

resolve-same_top_example :
    (resolve lru files hasher
      (resolve lru files hasher cache (low ∷ high ∷ []) file).0
      (other ∷ high ∷ [])
      file).1
    ≡ found (codes "lowf") high true
resolve-same_top_example =
    resolve-same_top lru lru_laws files hasher (low ∷ []) high file cache (codes "lowf")
      (other ∷ []) (new_lru-IsValid 512) hashed

-- Where the name of a layer has a bar, two stacks have one key.
singleflight_key_collision :
    singleflight_key (codes "a|b" ∷ []) file ≡ singleflight_key (codes "a" ∷ codes "b" ∷ []) file
singleflight_key_collision = refl

abbrev start : VertexProcessor LruCache
start = record { cache = cache; forest = []; builders = [] }

abbrev access : Str → AccessEvent
access v = record { vertex_id = v; layer_stack = low ∷ high ∷ []; rel_path = file }

abbrev done : VertexProcessor LruCache × List (AccessEvent × Resolved)
done = process_all (λ p. p) lru files hasher start (access low ∷ access high ∷ [])

finalize_vertex-process_all_example :
    let b = builder_of (λ p. p) low none done.1 in
    let sealed = finalize_vertex (λ x. x) (λ x. x) done.0 low in
    (sealed.1 ≡ elim b [ none ↦ none | some x ↦ some (finalize (λ y. y) (λ y. y) x) ])
    × (sealed.0.forest ≡ elim b [
      | none ↦ done.0.forest
      | some x ↦ add_tree done.0.forest (finalize (λ y. y) (λ y. y) x)
    ])
    × ((finalize_vertex (λ x. x) (λ x. x) sealed.0 low).1 ≡ none)
unfolding lookup
finalize_vertex-process_all_example =
    finalize_vertex-process_all (λ p. p) lru files hasher (λ x. x) (λ x. x) start
      (access low ∷ access high ∷ []) low
