-- ===== src/Fshash/Cache/Shard.antt =====
-- pkg/fshash/cache/store.go: `shard`. Its map and its linked list hold the same entries; here the list
-- is kept, from the head to the tail, with the values in it, and the map's lookup is the list's.
-- A method holds the mutex throughout, so each is one step.
pub mod Laws
use bons_ci.Base.{
  Str, str_key, has_prefix, ℕ, ◌+◌, Bool, true, false, List, [], ◌∷◌, Option, none, some,
  if◌then◌else◌, is_some, length, ltb,
}
use bons_ci.Base.Dict.{lookup, delete, delete_if}

module _ (V : Type 0) where
  pub record Shard : Type 0 where
    pub entries : List (Str × V)
    pub capacity : ℕ
    pub hits : ℕ
    pub misses : ℕ
    pub evicts : ℕ

module _ {V : Type 0} where
  unfoldable pub new_shard : ℕ → Shard V
  new_shard capacity = record {
    entries = [];
    capacity = capacity;
    hits = 0;
    misses = 0;
    evicts = 0;
  }

  -- `moveToFront` of the entry with this key.
  unfoldable pub move_to_front : Str → V → List (Str × V) → List (Str × V)
  move_to_front key value es = (key, value) ∷ delete key es

  unfoldable pub get : Shard V → Str → Shard V × Option V
  unfolding move_to_front
  get s key = elim (lookup key s.entries) [
    | none ↦ (record s { misses = s.misses + 1 }, none)
    | some v ↦ (record s { hits = s.hits + 1; entries = move_to_front key v s.entries }, some v)
  ]

  -- All but the last entry of the list.
  abbrev pub drop_tail : List (Str × V) → List (Str × V)
  drop_tail [] = []
  drop_tail (e ∷ []) = []
  drop_tail (e ∷ f ∷ es) = e ∷ drop_tail (f ∷ es)

  unfoldable pub evict_lru : Shard V → Shard V
  evict_lru s = elim s.entries [
    | [] ↦ s
    | e ∷ es ↦ record s { entries = drop_tail (e ∷ es); evicts = s.evicts + 1 }
  ]

  unfoldable pub put : Shard V → Str → V → Shard V
  unfolding move_to_front evict_lru
  put s key value =
      if is_some (lookup key s.entries)
      then record s { entries = move_to_front key value s.entries }
      else let added = record s { entries = (key, value) ∷ s.entries } in
        if ltb s.capacity (length added.entries) then evict_lru added else added

  unfoldable pub invalidate : Shard V → Str → Shard V
  invalidate s key = record s { entries = delete key s.entries }

  unfoldable pub invalidate_by_prefix : Shard V → Str → Shard V
  invalidate_by_prefix s prefix = record s {
    entries = delete_if (λ k. has_prefix k prefix) s.entries;
  }

  unfoldable pub size : Shard V → ℕ
  size s = length s.entries
