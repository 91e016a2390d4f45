-- ===== src/Layermerkle/Ring/Slots.antt =====
-- pkg/layermerkle/ringcache.go: searching and overwriting the slots of the ring.
use bons_ci.Base.{
  ℕ, zero, suc, ◌+◌, ◌<◌, true, false, ◌&&◌, List, [], ◌∷◌, none, some, map, All, if◌then◌else◌,
  get_elem?, set, count_if, All-get_elem?, ◌≡◌, refl, ap, arith, length, str_eqb, Option-cases,
  is_some, inl, inr,
}
use bons_ci.Layermerkle.Types.{LayerId, StatKey, StatResult, same_key, same_key_iff}
use bons_ci.Layermerkle.Ring.{Slot, holds, find_slot, update_slot, new_slot, drop_layer}

-- No two valid slots hold one key.
abbrev pub Apart : Slot → Slot → Type 0
Apart s t = (s.valid && (t.valid && same_key t.key s.key)) ≡ false

abbrev pub DistinctKeys : List Slot → Type 0
DistinctKeys [] = Unit
DistinctKeys (s ∷ ss) = All (Apart s) ss × DistinctKeys ss

module _ (k : StatKey) (v : StatResult) where
  -- An update in place changes one result and no key.
  pub update_slot-find :
      (q : StatKey) (ss ss' : List Slot)
      → update_slot k v ss ≡ some ss'
      → find_slot q ss' ≡ (if same_key k q then some v else find_slot q ss)
  unfolding update_slot find_slot
  update_slot-find q [] ss' h = ground arith
  update_slot-find q (s ∷ ss) ss' h = elim (Option-cases (update_slot k v ss)) [
    | inl e ↦ ground (arith, same_key_iff s.key k, same_key_iff s.key q, same_key_iff k q)
    | inr (t, e) ↦ ground (
      arith,
      update_slot-find q ss t e,
      same_key_iff s.key k,
      same_key_iff s.key q,
      same_key_iff k q,
    )
  ]

  pub update_slot_absent : (ss : List Slot) → update_slot k v ss ≡ none → find_slot k ss ≡ none
  unfolding update_slot find_slot
  update_slot_absent [] h = refl
  update_slot_absent (s ∷ ss) h = ground (arith, update_slot_absent ss)

  pub update_slot_present :
      (ss ss' : List Slot) → update_slot k v ss ≡ some ss' → is_some (find_slot k ss) ≡ true
  unfolding update_slot find_slot
  update_slot_present [] ss' h = ground arith
  update_slot_present (s ∷ ss) ss' h = elim (Option-cases (update_slot k v ss)) [
    | inl e ↦ ground arith
    | inr (t, e) ↦ ground (arith, update_slot_present ss t e)
  ]

  pub length-update_slot :
      (ss ss' : List Slot) → update_slot k v ss ≡ some ss' → length ss' ≡ length ss
  unfolding update_slot
  length-update_slot [] ss' h = ground arith
  length-update_slot (s ∷ ss) ss' h = elim (Option-cases (update_slot k v ss)) [
    | inl e ↦ ground arith
    | inr (t, e) ↦ ground (arith, length-update_slot ss t e)
  ]

  pub count-update_slot :
      (ss ss' : List Slot)
      → update_slot k v ss ≡ some ss'
      → count_if (λ s. s.valid) ss' ≡ count_if (λ s. s.valid) ss
  unfolding update_slot
  count-update_slot [] ss' h = ground arith
  count-update_slot (s ∷ ss) ss' h = elim (Option-cases (update_slot k v ss)) [
    | inl e ↦ ground arith
    | inr (t, e) ↦ ground (arith, count-update_slot ss t e)
  ]

  Apart-update_slot :
      (u : Slot) (ss ss' : List Slot)
      → update_slot k v ss ≡ some ss'
      → All (Apart u) ss
      → All (Apart u) ss'
  unfolding update_slot
  Apart-update_slot u [] ss' h a = ground arith
  Apart-update_slot u (s ∷ ss) ss' h a = elim (Option-cases (update_slot k v ss)) [
    | inl e ↦ ground arith
    | inr (t, e) ↦ ground (arith, Apart-update_slot u ss t e a.1)
  ]

  pub DistinctKeys-update_slot :
      (ss ss' : List Slot) → update_slot k v ss ≡ some ss' → DistinctKeys ss → DistinctKeys ss'
  unfolding update_slot
  DistinctKeys-update_slot [] ss' h d = ground arith
  DistinctKeys-update_slot (s ∷ ss) ss' h d = elim (Option-cases (update_slot k v ss)) [
    | inl e ↦ ground arith
    | inr (t, e) ↦
        ground (arith, DistinctKeys-update_slot ss t e d.1, Apart-update_slot s ss t e d.0)
  ]

-- Overwriting the slot at an index, with a key that no slot holds.
module _ (k : StatKey) (v : StatResult) where
  pub find_slot-set_self :
      (ss : List Slot) (i : ℕ)
      → i < length ss
      → find_slot k ss ≡ none
      → find_slot k (set ss i (new_slot k v)) ≡ some v
  unfolding find_slot
  find_slot-set_self [] i h a = elim h [ ]
  find_slot-set_self (s ∷ ss) zero h a = ground (arith, same_key_iff k k)
  find_slot-set_self (s ∷ ss) (suc i) h a = ground (arith, find_slot-set_self ss i)

  Apart-find :
      (s : Slot) (q : StatKey) (ss : List Slot)
      → All (Apart s) ss
      → holds q s ≡ true
      → find_slot q ss ≡ none
  unfolding find_slot
  Apart-find s q [] a h = refl
  Apart-find s q (t ∷ ss) a h = ground (
    arith,
    Apart-find s q ss a.1,
    same_key_iff s.key q,
    same_key_iff t.key q,
    same_key_iff t.key s.key,
  )

  -- Any other key is found as before, unless the overwritten slot held it.
  pub find_slot-set_ne :
      (q : StatKey) (ss : List Slot) (i : ℕ) (s : Slot)
      → get_elem? ss i ≡ some s
      → same_key k q ≡ false
      → DistinctKeys ss
      → find_slot q (set ss i (new_slot k v)) ≡ (if holds q s then none else find_slot q ss)
  unfolding find_slot
  find_slot-set_ne q [] i s h n d = ground arith
  find_slot-set_ne q (t ∷ ss) zero s h n d = ground (arith, Apart-find s q ss)
  find_slot-set_ne q (t ∷ ss) (suc i) s h n d = ground (
    arith,
    find_slot-set_ne q ss i s h n d.1,
    All-get_elem? (Apart t) ss i s d.0 h,
    same_key_iff s.key q,
    same_key_iff t.key q,
    same_key_iff s.key t.key,
  )

  find_slot-Apart : (s : Slot) (ss : List Slot) → find_slot s.key ss ≡ none → All (Apart s) ss
  unfolding find_slot
  find_slot-Apart s [] h = tt
  find_slot-Apart s (t ∷ ss) h = ground (arith, find_slot-Apart s ss)

  Apart-set :
      (u : Slot) (ss : List Slot) (i : ℕ)
      → All (Apart u) ss
      → (u.valid && same_key k u.key) ≡ false
      → All (Apart u) (set ss i (new_slot k v))
  Apart-set u [] i a n = tt
  Apart-set u (t ∷ ss) zero a n = (n, a.1)
  Apart-set u (t ∷ ss) (suc i) a n = (a.0, Apart-set u ss i a.1 n)

  pub DistinctKeys-set :
      (ss : List Slot) (i : ℕ)
      → find_slot k ss ≡ none
      → DistinctKeys ss
      → DistinctKeys (set ss i (new_slot k v))
  unfolding find_slot
  DistinctKeys-set [] i h d = tt
  DistinctKeys-set (t ∷ ss) zero h d = (find_slot-Apart (new_slot k v) ss (ground arith), d.1)
  DistinctKeys-set (t ∷ ss) (suc i) h d =
      let other : (t.valid && same_key k t.key) ≡ false =
        ground (arith, same_key_iff t.key k, same_key_iff k t.key) in
      (Apart-set t ss i d.0 other, DistinctKeys-set ss i (ground arith) d.1)

  pub count-set :
      (ss : List Slot) (i : ℕ) (s : Slot)
      → get_elem? ss i ≡ some s
      → count_if (λ s. s.valid) (set ss i (new_slot k v)) + (if s.valid then 1 else 0)
        ≡ count_if (λ s. s.valid) ss + 1
  count-set [] i s h = ground arith
  count-set (t ∷ ss) zero s h = ground arith
  count-set (t ∷ ss) (suc i) s h = ground (arith, count-set ss i s h)

-- Dropping a layer.
module _ (layer : LayerId) where
  pub find_slot-drop_layer :
      (q : StatKey) (ss : List Slot)
      → find_slot q (map (drop_layer layer) ss)
        ≡ (if str_eqb q.0 layer then none else find_slot q ss)
  unfolding find_slot
  find_slot-drop_layer q [] = ground arith
  find_slot-drop_layer q (s ∷ ss) = ground (arith, find_slot-drop_layer q ss, same_key_iff s.key q)

  Apart-drop_layer :
      (u : Slot) (ss : List Slot)
      → All (Apart u) ss
      → All (Apart (drop_layer layer u)) (map (drop_layer layer) ss)
  Apart-drop_layer u [] h = tt
  Apart-drop_layer u (s ∷ ss) h = (ground (arith, h.0), Apart-drop_layer u ss h.1)

  pub DistinctKeys-drop_layer :
      (ss : List Slot) → DistinctKeys ss → DistinctKeys (map (drop_layer layer) ss)
  DistinctKeys-drop_layer [] d = tt
  DistinctKeys-drop_layer (s ∷ ss) d = (Apart-drop_layer s ss d.0, DistinctKeys-drop_layer ss d.1)

  pub length-drop_layer : (ss : List Slot) → length (map (drop_layer layer) ss) ≡ length ss
  length-drop_layer [] = refl
  length-drop_layer (s ∷ ss) = ap suc (length-drop_layer ss)
