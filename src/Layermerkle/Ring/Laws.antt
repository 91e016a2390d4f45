-- ===== src/Layermerkle/Ring/Laws.antt =====
-- pkg/layermerkle/ringcache.go: what `RingStatCache` guarantees.
use bons_ci.Base.{
  ℕ, zero, suc, ◌+◌, ◌<◌, ◌≤◌, ◌%◌, Bool, true, false, ◌&&◌, not, List, Option, none, some, All,
  if◌then◌else◌, get_elem?, get_elem?-lt, set, count_if-le, ◌≡◌, refl, arith, length, str_eqb,
  Option-cases, inl, inr, replicate, length-replicate, length-set, is_some, ltb, ◌⊎◌,
}
use bons_ci.Layermerkle.Types.{LayerId, StatKey, StatResult, same_key, same_key_iff}
use bons_ci.Layermerkle.Ring.{
  Slot, zero_slot, RingStatCache, holds, find_slot, update_slot, new_slot, new_ring, get, put,
  evict_at_hand, invalidate_layer, len,
}
use bons_ci.Layermerkle.Ring.Slots.{
  Apart, DistinctKeys, update_slot-find, update_slot_absent, update_slot_present,
  length-update_slot, count-update_slot, DistinctKeys-update_slot, find_slot-set_self,
  find_slot-set_ne, DistinctKeys-set, count-set, find_slot-drop_layer, DistinctKeys-drop_layer,
  length-drop_layer,
}

pub record IsValid (r : RingStatCache) : Type 0 where
  pub enough : 4 ≤ r.cap
  pub full : length r.slots ≡ r.cap
  pub in_range : r.hand < r.cap
  pub distinct : DistinctKeys r.slots

-- The cached result of a key, without the counters of `Get`.
abbrev pub peek : RingStatCache → StatKey → Option StatResult
peek r k = find_slot k r.slots

Apart-zero : (n : ℕ) → All (Apart zero_slot) (replicate n zero_slot)
Apart-zero zero = tt
Apart-zero (suc n) = (refl, Apart-zero n)

DistinctKeys-zero : (n : ℕ) → DistinctKeys (replicate n zero_slot)
DistinctKeys-zero zero = tt
DistinctKeys-zero (suc n) = (Apart-zero n, DistinctKeys-zero n)

find_slot-zero : (k : StatKey) (n : ℕ) → find_slot k (replicate n zero_slot) ≡ none
unfolding find_slot
find_slot-zero k zero = refl
find_slot-zero k (suc n) = find_slot-zero k n

-- A new ring is valid, holds nothing, and has the capacity asked for, but at least 4.
pub new_ring-IsValid :
    (capacity : ℕ) (k : StatKey)
    → IsValid (new_ring capacity)
      × (peek (new_ring capacity) k ≡ none)
      × ((new_ring capacity).cap ≡ (if ltb capacity 4 then 4 else capacity))
unfolding new_ring
new_ring-IsValid capacity k =
    let cap = if ltb capacity 4 then 4 else capacity in
    (
      record {
        enough = ground arith;
        full = length-replicate cap zero_slot;
        in_range = ground arith;
        distinct = DistinctKeys-zero cap;
      },
      find_slot-zero k cap,
      refl,
    )

-- `Get` answers what the slots hold, counts one hit or one miss, and changes nothing else.
pub get-peek :
    (r : RingStatCache) (k : StatKey)
    → ((get r k).2 ≡ is_some (peek r k))
      × ((get r k).0.slots ≡ r.slots)
      × ((get r k).0.hits + (get r k).0.misses ≡ r.hits + r.misses + 1)
unfolding get
get-peek r k = ground arith

-- On a valid ring `Set` does not index out of range.
pub put_total :
    (r : RingStatCache) (k : StatKey) (v : StatResult) → IsValid r → is_some (put r k v) ≡ true
unfolding put evict_at_hand
put_total r k v h = let (s, e) = get_elem?-lt r.slots r.hand (omega arith) in ground arith

-- The ring after `Set` overwrote the slot at the hand.
abbrev overwritten : RingStatCache → StatKey → StatResult → Slot → RingStatCache
overwritten r k v s = record r {
  slots = set r.slots r.hand (new_slot k v);
  hand = (r.hand + 1) % r.cap;
  evicted = if s.valid then r.evicted + 1 else r.evicted;
}

-- The two ways in which `Set` ends.
pub put-cases :
    (r r' : RingStatCache) (k : StatKey) (v : StatResult)
    → put r k v ≡ some r'
    → ((ss : List Slot) × (update_slot k v r.slots ≡ some ss) × (r' ≡ record r { slots = ss }))
      ⊎ ((s : Slot) × (update_slot k v r.slots ≡ none)
          × (get_elem? r.slots r.hand ≡ some s)
          × (r' ≡ overwritten r k v s))
unfolding put evict_at_hand
put-cases r r' k v e = elim (Option-cases (update_slot k v r.slots)) [
  | inr (ss, u) ↦ inl (ss, u, ground arith)
  | inl u ↦ elim (Option-cases (get_elem? r.slots r.hand)) [
    | inl n ↦ absurd (ground arith)
    | inr (s, g) ↦ inr (s, u, g, ground arith)
  ]
]

-- `Set` keeps the ring valid: its slots, its hand, and each key in one slot.
pub put-IsValid :
    (r r' : RingStatCache) (k : StatKey) (v : StatResult)
    → IsValid r
    → put r k v ≡ some r'
    → IsValid r'
put-IsValid r r' k v h e = elim (put-cases r r' k v e) [
  | inl (ss, u, q) ↦ rw q (record {
    enough = h.enough;
    full = omega (arith, length-update_slot k v r.slots ss u);
    in_range = h.in_range;
    distinct = DistinctKeys-update_slot k v r.slots ss u h.distinct;
  })
  | inr (s, u, g, q) ↦ rw q (record {
    enough = h.enough;
    full = omega (arith, length-set r.slots r.hand (new_slot k v));
    in_range = omega arith;
    distinct = DistinctKeys-set k v r.slots r.hand (update_slot_absent k v r.slots u) h.distinct;
  })
]

-- The slot that the next new key overwrites holds the key.
abbrev pub at_hand : RingStatCache → StatKey → Bool
at_hand r q = elim (get_elem? r.slots r.hand) [ none ↦ false | some s ↦ holds q s ]

-- After `Set` the key is found with its new result. Any other key is found with its old result,
-- unless the first key was new and the slot at the hand held the other one, which is then gone.
pub peek-put :
    (r r' : RingStatCache) (k q : StatKey) (v : StatResult)
    → IsValid r
    → put r k v ≡ some r'
    → peek r' q ≡ (
        if same_key k q
        then some v
        else if not (is_some (peek r k)) && at_hand r q
        then none
        else peek r q)
peek-put r r' k q v h e = elim (put-cases r r' k v e) [
  | inl (ss, u, p) ↦
      rw p
        (ground (arith, update_slot-find k v q r.slots ss u, update_slot_present k v r.slots ss u))
  | inr (s, u, g, p) ↦
      let gone = update_slot_absent k v r.slots u in
      rw p (
        ground (
          arith,
          find_slot-set_self k v r.slots r.hand (omega arith) gone,
          λ (n : same_key k q ≡ false). find_slot-set_ne k v q r.slots r.hand s g n h.distinct,
          same_key_iff k q,
        ))
]

-- A ring never holds more than its capacity, and what `Set` adds and evicts balances: the count of
-- valid slots and of evictions together grow by one for a new key, and stay for a present one.
pub len-put :
    (r r' : RingStatCache) (k : StatKey) (v : StatResult)
    → IsValid r
    → put r k v ≡ some r'
    → (len r' ≤ r'.cap)
      × (len r' + r'.evicted ≡ len r + r.evicted + (if is_some (peek r k) then 0 else 1))
unfolding len
len-put r r' k v h e =
    let valid = put-IsValid r r' k v h e in
    let bound = count_if-le (λ s. s.valid) r'.slots in
    (
      omega (arith, bound, valid.full),
      elim (put-cases r r' k v e) [
        | inl (ss, u, p) ↦ rw p (
            ground
              (arith, count-update_slot k v r.slots ss u, update_slot_present k v r.slots ss u))
        | inr (s, u, g, p) ↦
            rw p
              (ground (arith, count-set k v r.slots r.hand s g, update_slot_absent k v r.slots u))
      ],
    )

-- Dropping a layer keeps the ring valid, forgets each key of the layer, and no other.
pub peek-invalidate_layer :
    (r : RingStatCache) (layer : LayerId) (q : StatKey)
    → IsValid r
    → IsValid (invalidate_layer r layer)
      × (peek (invalidate_layer r layer) q ≡ (if str_eqb q.0 layer then none else peek r q))
unfolding invalidate_layer
peek-invalidate_layer r layer q h = (
  record {
    enough = h.enough;
    full = omega (arith, length-drop_layer layer r.slots);
    in_range = h.in_range;
    distinct = DistinctKeys-drop_layer layer r.slots h.distinct;
  },
  find_slot-drop_layer layer q r.slots,
)
