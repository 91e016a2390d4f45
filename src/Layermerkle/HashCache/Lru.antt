-- ===== src/Layermerkle/HashCache/Lru.antt =====
-- pkg/layermerkle/cache.go: the cache of 256 shards. The map and the linked list of a shard are one list of
-- entries, the one used last first; locks are left out, as each operation is one step on its shard.
pub mod Shards
pub mod Laws
use Prim.Native.Nat.{bit_and, bit_xor}
use bons_ci.Base.{
  Str, ℕ, suc, ◌+◌, ◌*◌, ◌/◌, ◌%◌, ◌^◌, Bool, true, false, List, [], ◌∷◌, ◌++◌, Option, none, some,
  if◌then◌else◌, is_some, length, leb, ltb, get_elem?, set, replicate, str_eqb, map,
}
use bons_ci.Base.Dict.{lookup, delete, delete_if}
use bons_ci.Layermerkle.Types.{LayerId, StatKey, stat_key}

pub record CacheShard : Type 0 where
  pub entries : List (StatKey × Str)
  pub cap : ℕ
  pub evicted : ℕ

abbrev pub drop_last {ℓ} : {A : Type ℓ} → List A → List A
drop_last [] = []
drop_last (x ∷ []) = []
drop_last (x ∷ y ∷ ys) = x ∷ drop_last (y ∷ ys)

-- `lru.MoveToFront`, with the hash that the entry then has.
abbrev pub move_to_front : StatKey → Str → List (StatKey × Str) → List (StatKey × Str)
move_to_front k h es = (k, h) ∷ delete k es

unfoldable pub get_at : CacheShard → StatKey → CacheShard × Option Str
get_at s k = elim (lookup k s.entries) [
  | none ↦ (s, none)
  | some h ↦ (record s { entries = move_to_front k h s.entries }, some h)
]

unfoldable pub evict_oldest : CacheShard → CacheShard
evict_oldest s = elim s.entries [
  | [] ↦ s
  | e ∷ es ↦ record s { entries = drop_last (e ∷ es); evicted = s.evicted + 1 }
]

abbrev pub make_room : CacheShard → CacheShard
make_room s = if leb s.cap (length s.entries) then evict_oldest s else s

unfoldable pub set_at : CacheShard → StatKey → Str → CacheShard
unfolding evict_oldest
set_at s k h =
    if is_some (lookup k s.entries)
    then record s { entries = move_to_front k h s.entries }
    else let t = make_room s in record t { entries = (k, h) ∷ t.entries }

unfoldable pub delete_at : CacheShard → StatKey → CacheShard
delete_at s k = record s { entries = delete k s.entries }

abbrev pub is_of_layer : LayerId → StatKey → Bool
is_of_layer l k = str_eqb k.0 l

unfoldable pub delete_layer_at : CacheShard → LayerId → CacheShard
delete_layer_at s l = record s { entries = delete_if (is_of_layer l) s.entries }

-- `shardedLRUCache`
pub record LruCache : Type 0 where
  pub shards : List CacheShard
  pub capacity : ℕ
  pub hits : ℕ
  pub misses : ℕ

abbrev pub per_shard : ℕ → ℕ
per_shard total = if ltb (total / 256) 1 then 1 else total / 256

abbrev pub new_shard : ℕ → CacheShard
new_shard cap = record { entries = []; cap = cap; evicted = 0 }

unfoldable pub new_lru : ℕ → LruCache
new_lru total = record {
  shards = replicate 256 (new_shard (per_shard total));
  capacity = per_shard total;
  hits = 0;
  misses = 0;
}

-- The loop of `fnv32`, on 32 bits.
abbrev pub fnv_loop : ℕ → Str → ℕ
fnv_loop h [] = h
fnv_loop h (c ∷ s) = fnv_loop (bit_xor h c * 16777619 % 2 ^ 32) s

unfoldable pub fnv32 : Str → ℕ
fnv32 s = fnv_loop 2166136261 s

-- `h & 0xff`
unfoldable pub shard_index : StatKey → ℕ
unfolding fnv32
shard_index k = bit_and (fnv32 (k.0 ++ 0 ∷ k.1)) 255

-- The change of the shard of an index.
unfoldable pub change_shard : LruCache → ℕ → (CacheShard → CacheShard) → LruCache
change_shard c i f = elim (get_elem? c.shards i) [
  | none ↦ c
  | some s ↦ record c { shards = set c.shards i (f s) }
]

-- `Get`; an index out of range, which would be a panic, finds nothing.
unfoldable pub get_hash : LruCache → LayerId → Str → LruCache × Option Str
unfolding get_at shard_index
get_hash c l p =
    let i = shard_index (l, p) in
    elim (get_elem? c.shards i) [
      | none ↦ (c, none)
      | some s ↦
          let (t, found) = get_at s (l, p) in
          let hit = is_some found in
          (
            record c {
              shards = set c.shards i t;
              hits = c.hits + (if hit then 1 else 0);
              misses = c.misses + (if hit then 0 else 1);
            },
            found,
          )
    ]

unfoldable pub set_hash : LruCache → LayerId → Str → Str → LruCache
unfolding change_shard set_at shard_index
set_hash c l p h = change_shard c (shard_index (l, p)) (λ s. set_at s (l, p) h)

unfoldable pub delete_hash : LruCache → LayerId → Str → LruCache
unfolding change_shard delete_at shard_index
delete_hash c l p = change_shard c (shard_index (l, p)) (λ s. delete_at s (l, p))

unfoldable pub delete_layer_hashes : LruCache → LayerId → LruCache
unfolding delete_layer_at
delete_layer_hashes c l = record c { shards = map (λ s. delete_layer_at s l) c.shards }

abbrev pub total_len : List CacheShard → ℕ
total_len [] = 0
total_len (s ∷ ss) = length s.entries + total_len ss

unfoldable pub len_hashes : LruCache → ℕ
len_hashes c = total_len c.shards
