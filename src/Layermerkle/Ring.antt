-- ===== src/Layermerkle/Ring.antt =====
-- pkg/layermerkle/ringcache.go: `RingStatCache`, a ring of stat results. Every method holds the mutex.
-- The counters are unbounded; the source's are `int64`.
pub mod Slots
pub mod Laws
use bons_ci.Base.{
  ℕ, zero, suc, ◌+◌, ◌%◌, Bool, true, false, ◌&&◌, List, [], ◌∷◌, Option, none, some, map,
  if◌then◌else◌, ltb, str_eqb, get_elem?, set, count_if, replicate,
}
use bons_ci.Layermerkle.Types.{LayerId, StatKey, StatResult, same_key}

pub record Slot : Type 0 where
  pub key : StatKey
  pub result : StatResult
  pub valid : Bool

pub record RingStatCache : Type 0 where
  pub slots : List Slot
  pub hand : ℕ
  pub cap : ℕ
  pub hits : ℕ
  pub misses : ℕ
  pub evicted : ℕ

abbrev pub zero_slot : Slot
zero_slot = record { key = ([], []); result = StatResult.unknown; valid = false }

unfoldable pub new_ring : ℕ → RingStatCache
new_ring capacity =
    let cap = if ltb capacity 4 then 4 else capacity in
    record {
      slots = replicate cap zero_slot;
      hand = 0;
      cap = cap;
      hits = 0;
      misses = 0;
      evicted = 0;
    }

abbrev pub holds : StatKey → Slot → Bool
holds k s = s.valid && same_key s.key k

-- The search loop of `Get`.
unfoldable pub find_slot : StatKey → List Slot → Option StatResult
find_slot k [] = none
find_slot k (s ∷ ss) = if holds k s then some s.result else find_slot k ss

unfoldable pub get : RingStatCache → StatKey → RingStatCache × StatResult × Bool
unfolding find_slot
get r k = elim (find_slot k r.slots) [
  | none ↦ (record r { misses = r.misses + 1 }, StatResult.unknown, false)
  | some v ↦ (record r { hits = r.hits + 1 }, v, true)
]

-- The first loop of `Set`: the slots with the entry updated in place, if there is one.
unfoldable pub update_slot : StatKey → StatResult → List Slot → Option (List Slot)
update_slot k v [] = none
update_slot k v (s ∷ ss) =
    if holds k s
    then some (record s { result = v } ∷ ss)
    else elim (update_slot k v ss) [ none ↦ none | some ss' ↦ some (s ∷ ss') ]

abbrev pub new_slot : StatKey → StatResult → Slot
new_slot k v = record { key = k; result = v; valid = true }

-- The second half of `Set`. `none` is the panic of an index out of range.
unfoldable pub evict_at_hand : RingStatCache → StatKey → StatResult → Option RingStatCache
evict_at_hand r k v = elim (get_elem? r.slots r.hand) [
  | none ↦ none
  | some s ↦ some (record r {
    slots = set r.slots r.hand (new_slot k v);
    hand = (r.hand + 1) % r.cap;
    evicted = if s.valid then r.evicted + 1 else r.evicted;
  })
]

unfoldable pub put : RingStatCache → StatKey → StatResult → Option RingStatCache
unfolding update_slot evict_at_hand
put r k v = elim (update_slot k v r.slots) [
  | some ss ↦ some (record r { slots = ss })
  | none ↦ evict_at_hand r k v
]

abbrev pub drop_layer : LayerId → Slot → Slot
drop_layer layer s = if s.valid && str_eqb s.key.0 layer then record s { valid = false } else s

unfoldable pub invalidate_layer : RingStatCache → LayerId → RingStatCache
invalidate_layer r layer = record r { slots = map (drop_layer layer) r.slots }

unfoldable pub len : RingStatCache → ℕ
len r = count_if (λ s. s.valid) r.slots
