-- ===== src/Layermerkle/Resolver/MapCache.antt =====
-- pkg/layermerkle: the two caches of stat results, the bounded map of resolver.go and the ring of
-- ringcache.go, as what the resolvers ask of a cache.
use bons_ci.Base.{
  ℕ, ◌≤◌, List, [], Option, none, some, if◌then◌else◌, length, ltb, str_eqb, ◌≡◌, refl, ◌⊎◌, inl,
  inr, arith, Option-cases,
}
use bons_ci.Base.Dict.{lookup, insert, delete_if, lookup-insert, length-insert}
use bons_ci.Layermerkle.StatCache.{StatCache}
use bons_ci.Layermerkle.Types.{LayerId, StatKey, StatResult, stat_key, same_key_iff}
use bons_ci.Layermerkle.Ring.{RingStatCache}
use bons_ci.Layermerkle.Ring
use bons_ci.Layermerkle.Ring.Laws

-- `statCache` and `cacheSize` of `OverlayResolver`.
pub record MapCache : Type 0 where
  pub entries : List (StatKey × StatResult)
  pub size : ℕ

-- `NewOverlayResolver`; a capacity that is not positive gives the default.
unfoldable pub new_map_cache : ℕ → MapCache
new_map_cache capacity = record {
  entries = [];
  size = if ltb 0 capacity then capacity else 100_000;
}

unfoldable pub map_get : MapCache → StatKey → MapCache × Option StatResult
map_get c k = (c, lookup k c.entries)

-- A full map takes no new result.
unfoldable pub map_put : MapCache → StatKey → StatResult → Option MapCache
map_put c k v =
    if ltb (length c.entries) c.size
    then some (record c { entries = insert k v c.entries })
    else some c

-- `InvalidateLayer`
unfoldable pub map_invalidate : MapCache → LayerId → MapCache
map_invalidate c layer = record c { entries = delete_if (λ k. str_eqb k.0 layer) c.entries }

abbrev pub Bounded : MapCache → Type 0
Bounded c = length c.entries ≤ c.size

pub map_put_total :
    (c : MapCache) (k : StatKey) (v : StatResult)
    → Bounded c
    → (c' : MapCache) × (map_put c k v ≡ some c') × Bounded c'
unfolding map_put
map_put_total c k v h = (
  if ltb (length c.entries) c.size then record c { entries = insert k v c.entries } else c,
  ground arith,
  ground (arith, length-insert k v c.entries),
)

pub map_put_sound :
    (c c' : MapCache) (k q : StatKey) (v w : StatResult)
    → Bounded c
    → map_put c k v ≡ some c'
    → lookup q c'.entries ≡ some w
    → ((k ≡ q) × (v ≡ w)) ⊎ (lookup q c.entries ≡ some w)
unfolding map_put
map_put_sound c c' k q v w h e s = ground (arith, lookup-insert k q v c.entries, same_key_iff k q)

unfoldable pub map_stat_cache : StatCache
unfolding map_get
map_stat_cache = record {
  Cache = MapCache;
  IsValid = Bounded;
  peek = λ c k. lookup k c.entries;
  get = map_get;
  put = map_put;
  get-peek = λ c k. refl;
  get_keeps = λ c k q. refl;
  get-IsValid = λ c k h. h;
  put_total = map_put_total;
  put_sound = map_put_sound;
}

-- The cached result, if there is one, of the pair that `Get` of the ring returns.
abbrev pub ring_get : RingStatCache → StatKey → RingStatCache × Option StatResult
ring_get r k = let (r', v, ok) = Ring.get r k in (r', if ok then some v else none)

pub ring_get-peek : (r : RingStatCache) (k : StatKey) → (ring_get r k).1 ≡ Laws.peek r k
unfolding Ring.get
ring_get-peek r k = ground arith

pub ring_get_keeps :
    (r : RingStatCache) (k q : StatKey) → Laws.peek (ring_get r k).0 q ≡ Laws.peek r q
unfolding Ring.get
ring_get_keeps r k q = ground arith

pub ring_get-IsValid :
    (r : RingStatCache) (k : StatKey) → Laws.IsValid r → Laws.IsValid (ring_get r k).0
unfolding Ring.get
ring_get-IsValid r k h = elim (Option-cases (Ring.find_slot k r.slots)) [
  | inl n ↦
      rw (n, Ring.get)
        (record { enough = h.enough; full = h.full; in_range = h.in_range; distinct = h.distinct })
  | inr (v, s) ↦
      rw (s, Ring.get)
        (record { enough = h.enough; full = h.full; in_range = h.in_range; distinct = h.distinct })
]

pub ring_put_total :
    (r : RingStatCache) (k : StatKey) (v : StatResult)
    → Laws.IsValid r
    → (r' : RingStatCache) × (Ring.put r k v ≡ some r') × Laws.IsValid r'
ring_put_total r k v h = elim (Option-cases (Ring.put r k v)) [
  | inl n ↦ absurd (ground (arith, Laws.put_total r k v h))
  | inr (r', e) ↦ (r', e, Laws.put-IsValid r r' k v h e)
]

pub ring_put_sound :
    (r r' : RingStatCache) (k q : StatKey) (v w : StatResult)
    → Laws.IsValid r
    → Ring.put r k v ≡ some r'
    → Laws.peek r' q ≡ some w
    → ((k ≡ q) × (v ≡ w)) ⊎ (Laws.peek r q ≡ some w)
ring_put_sound r r' k q v w h e s = ground (arith, Laws.peek-put r r' k q v h e, same_key_iff k q)

abbrev pub ring_stat_cache : StatCache
ring_stat_cache = record {
  Cache = RingStatCache;
  IsValid = Laws.IsValid;
  peek = Laws.peek;
  get = ring_get;
  put = Ring.put;
  get-peek = ring_get-peek;
  get_keeps = ring_get_keeps;
  get-IsValid = ring_get-IsValid;
  put_total = ring_put_total;
  put_sound = ring_put_sound;
}
