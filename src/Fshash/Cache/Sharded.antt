-- ===== src/Fshash/Cache/Sharded.antt =====
-- pkg/fshash/cache/store.go: `ShardedStore`. Go's 64-bit arithmetic is written out.
pub mod Laws
pub mod Layers
use Prim.Native.Nat.{bit_and, bit_xor}
use bons_ci.Base.{
  Str, ℕ, zero, suc, ◌+◌, ◌-◌, ◌*◌, ◌/◌, ◌%◌, ◌^◌, Bool, true, false, List, [], ◌∷◌, ◌++◌, Option,
  none, some, if◌then◌else◌, map, get_elem?, set, replicate, length, ltb, ◌==◌,
}
use bons_ci.Fshash.Layer.Chain.{LayerId}
use bons_ci.Fshash.Cache.Shard.{Shard, new_shard, invalidate_by_prefix, size}
use bons_ci.Fshash.Cache.Shard

module _ (V : Type 0) where
  pub record ShardedStore : Type 0 where
    pub shards : List (Shard V)
    pub shard_mask : ℕ

abbrev pub two_to_64 : ℕ
two_to_64 = 18446744073709551616

abbrev pub offset64 : ℕ
offset64 = 14695981039346656037

abbrev pub prime64 : ℕ
prime64 = 1099511628211

-- The loop of `fnvHash`.
unfoldable pub fnv_loop : ℕ → Str → ℕ
fnv_loop h [] = h
fnv_loop h (c ∷ s) = fnv_loop (bit_xor h c * prime64 % two_to_64) s

unfoldable pub fnv_hash : Str → ℕ
unfolding fnv_loop
fnv_hash s = fnv_loop offset64 s

abbrev pub nul : ℕ
nul = 0

unfoldable pub composite_key : LayerId → Str → Str
composite_key id path = id ++ nul ∷ path

-- `for n < shardCount { n <<= 1 }`
unfoldable pub double_until : ℕ → ℕ → ℕ → ℕ
double_until zero n count = n
double_until (suc fuel) n count =
    let rest = double_until fuel (n * 2) count in if ltb n count then rest else n

abbrev pub at_least : ℕ → ℕ → ℕ
at_least low n = if ltb n low then low else n

abbrev pub default_if_zero : ℕ → ℕ → ℕ
default_if_zero d n = if n == 0 then d else n

-- The number of shards for a requested count, where 0 stands for every count that is not positive.
unfoldable pub shard_count : ℕ → ℕ
unfolding double_until
shard_count requested = let count = default_if_zero 16 requested in double_until count 1 count

module _ {V : Type 0} where
  unfoldable pub new_sharded_store : ℕ → ℕ → ShardedStore V
  unfolding shard_count
  new_sharded_store requested max_entries =
      let n = shard_count requested in
      let per_shard = at_least 16 (default_if_zero 65536 max_entries / n) in
      record { shards = replicate n (new_shard per_shard); shard_mask = n - 1 }

  unfoldable pub shard_index : ShardedStore V → Str → ℕ
  shard_index ss key = bit_and (fnv_hash key) ss.shard_mask

  -- `getShard`: `none` is the panic of an index out of range.
  unfoldable pub get_shard : ShardedStore V → Str → Option (Shard V)
  unfolding shard_index
  get_shard ss key = get_elem? ss.shards (shard_index ss key)

  -- The shard of a key replaced by what a method left of it.
  abbrev pub with_shard : ShardedStore V → Str → Shard V → ShardedStore V
  with_shard ss key s = record ss { shards = set ss.shards (shard_index ss key) s }

  unfoldable pub get : ShardedStore V → LayerId → Str → Option (ShardedStore V × Option V)
  unfolding get_shard
  get ss id path = elim (get_shard ss (composite_key id path)) [
    | none ↦ none
    | some s ↦
        let r = Shard.get s (composite_key id path) in
        some (with_shard ss (composite_key id path) r.0, r.1)
  ]

  unfoldable pub put : ShardedStore V → LayerId → Str → V → Option (ShardedStore V)
  unfolding get_shard
  put ss id path hash = elim (get_shard ss (composite_key id path)) [
    | none ↦ none
    | some s ↦
        some (with_shard ss (composite_key id path) (Shard.put s (composite_key id path) hash))
  ]

  unfoldable pub invalidate : ShardedStore V → LayerId → Str → Option (ShardedStore V)
  unfolding get_shard
  invalidate ss id path = elim (get_shard ss (composite_key id path)) [
    | none ↦ none
    | some s ↦
        some (with_shard ss (composite_key id path) (Shard.invalidate s (composite_key id path)))
  ]

  unfoldable pub invalidate_layer : ShardedStore V → LayerId → ShardedStore V
  invalidate_layer ss id = record ss {
    shards = map (λ s. invalidate_by_prefix s (id ++ nul ∷ [])) ss.shards;
  }

  -- The sums of `Stats`: hits, misses, evictions and entries.
  abbrev pub total : (Shard V → ℕ) → List (Shard V) → ℕ
  total f [] = 0
  total f (s ∷ ss) = f s + total f ss
