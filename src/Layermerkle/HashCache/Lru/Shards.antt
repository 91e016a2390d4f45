-- ===== src/Layermerkle/HashCache/Lru/Shards.antt =====
-- pkg/layermerkle/cache.go: one shard of the cache.
use bons_ci.Base.{
  Str, ◌+◌, ◌≤◌, Bool, true, List, [], ◌∷◌, none, some, if◌then◌else◌, is_some, length, leb, Key,
  key_eq, key_eq_refl, ◌≡◌, ◌⊎◌, refl, inl, inr, arith, Option-cases, Bool-cases,
}
use bons_ci.Base.Dict.{lookup, delete, delete_if, lookup-delete, lookup-delete_if, UniqueKeys}
use bons_ci.Layermerkle.Types.{LayerId, StatKey, stat_key}
use bons_ci.Layermerkle.HashCache.Lru.{
  CacheShard, drop_last, get_at, evict_oldest, make_room, set_at, delete_at, delete_layer_at,
  is_of_layer,
}

-- A shard has room for an entry, holds no more than its capacity, and no key twice.
abbrev pub IsValidShard : CacheShard → Type 0
IsValidShard s = UniqueKeys s.entries × (length s.entries ≤ s.cap) × (1 ≤ s.cap)

module _ {K V : Type 0} ⦃e : Key K⦄ where
  lookup-drop_last :
      (j : K) (m : List (K × V))
      → (lookup j (drop_last m) ≡ lookup j m) ⊎ (lookup j (drop_last m) ≡ none)
  unfolding lookup
  lookup-drop_last j [] = inl refl
  lookup-drop_last j (x ∷ []) = inr refl
  lookup-drop_last j ((i, v) ∷ y ∷ ys) = ground (arith, lookup-drop_last j (y ∷ ys))

  drop_last-UniqueKeys : (m : List (K × V)) → UniqueKeys m → UniqueKeys (drop_last m)
  drop_last-UniqueKeys [] u = tt
  drop_last-UniqueKeys (x ∷ []) u = tt
  drop_last-UniqueKeys ((i, v) ∷ y ∷ ys) u =
      (ground (arith, lookup-drop_last i (y ∷ ys), u.0), drop_last-UniqueKeys (y ∷ ys) u.1)

  length-drop_last : (m : List (K × V)) → 1 ≤ length m → length (drop_last m) + 1 ≡ length m
  length-drop_last [] h = absurd (omega arith)
  length-drop_last (x ∷ []) h = omega arith
  length-drop_last (x ∷ y ∷ ys) h = omega (arith, length-drop_last (y ∷ ys) (omega arith))

  delete_if-UniqueKeys :
      (p : K → Bool) (m : List (K × V)) → UniqueKeys m → UniqueKeys (delete_if p m)
  unfolding delete_if
  delete_if-UniqueKeys p [] u = tt
  delete_if-UniqueKeys p ((i, v) ∷ m) u = elim (Bool-cases (p i)) [
    | inl h ↦ rw h (delete_if-UniqueKeys p m u.1)
    | inr h ↦ rw h (ground (arith, lookup-delete_if p i m, u.0), delete_if-UniqueKeys p m u.1)
  ]

  length-delete_if : (p : K → Bool) (m : List (K × V)) → length (delete_if p m) ≤ length m
  unfolding delete_if
  length-delete_if p [] = omega arith
  length-delete_if p ((i, v) ∷ m) = ground (arith, length-delete_if p m)

  delete-UniqueKeys : (k : K) (m : List (K × V)) → UniqueKeys m → UniqueKeys (delete k m)
  unfolding delete
  delete-UniqueKeys k [] u = tt
  delete-UniqueKeys k ((i, v) ∷ m) u = elim (Bool-cases (e.eqb i k)) [
    | inl h ↦ rw h (delete-UniqueKeys k m u.1)
    | inr h ↦ rw h (ground (arith, lookup-delete k i m, u.0), delete-UniqueKeys k m u.1)
  ]

  length-delete :
      (k : K) (m : List (K × V))
      → length (delete k m) + (if is_some (lookup k m) then 1 else 0) ≤ length m
  unfolding delete lookup
  length-delete k [] = omega arith
  length-delete k ((i, v) ∷ m) = ground (arith, length-delete k m)

list_cases {ℓ} : {A : Type ℓ} (xs : List A) → (xs ≡ []) ⊎ ((x : A) × (ys : List A) × (xs ≡ x ∷ ys))
list_cases [] = inl refl
list_cases (x ∷ ys) = inr (x, ys, refl)

-- A read answers what the shard holds, and changes no answer.
pub get_at_lem :
    (s : CacheShard) (k j : StatKey)
    → IsValidShard s
    → ((get_at s k).1 ≡ lookup k s.entries)
      × (lookup j (get_at s k).0.entries ≡ lookup j s.entries)
      × IsValidShard (get_at s k).0
unfolding get_at lookup
get_at_lem s k j v = elim (Option-cases (lookup k s.entries)) [
  | inl f ↦ rw (f, get_at) (refl, refl, v)
  | inr (h, f) ↦
      let same = (stat_key).eqb_iff k j in
      rw (f, get_at)
        (
          refl,
          ground (arith, lookup-delete k j s.entries, same),
          (
            (
              ground (arith, lookup-delete k k s.entries, key_eq_refl k),
              delete-UniqueKeys k s.entries v.0,
            ),
            ground (arith, length-delete k s.entries, v.1),
            v.2,
          ),
        )
]

evict_lem :
    (s : CacheShard) (j : StatKey)
    → IsValidShard s
    → ((lookup j (evict_oldest s).entries ≡ lookup j s.entries)
        ⊎ (lookup j (evict_oldest s).entries ≡ none))
      × UniqueKeys (evict_oldest s).entries
      × (length (evict_oldest s).entries + 1 ≤ s.cap)
      × ((evict_oldest s).cap ≡ s.cap)
unfolding evict_oldest
evict_lem s j v = elim (list_cases s.entries) [
  | inl e ↦ (inl (ground arith), ground (arith, v.0), ground (arith, v.2), ground arith)
  | inr (x, xs, e) ↦
      rw (e, evict_oldest)
        (
          lookup-drop_last j (x ∷ xs),
          drop_last-UniqueKeys (x ∷ xs) (rw e at v.0),
          ground (arith, length-drop_last (x ∷ xs), v.1),
          refl,
        )
]

make_room_lem :
    (s : CacheShard) (j : StatKey)
    → IsValidShard s
    → ((lookup j (make_room s).entries ≡ lookup j s.entries)
        ⊎ (lookup j (make_room s).entries ≡ none))
      × UniqueKeys (make_room s).entries
      × (length (make_room s).entries + 1 ≤ s.cap)
      × ((make_room s).cap ≡ s.cap)
unfolding evict_oldest
make_room_lem s j v = elim (Bool-cases (leb s.cap (length s.entries))) [
  | inr room ↦ rw (room, make_room) (inl refl, v.0, ground (arith, v.1), refl)
  | inl full ↦ rw (full, make_room) (evict_lem s j v)
]

-- A write is read back, keeps another entry or forgets it, and keeps the shard valid.
pub set_at_lem :
    (s : CacheShard) (k j : StatKey) (h : Str)
    → IsValidShard s
    → (lookup k (set_at s k h).entries ≡ some h)
      × ((key_eq k j ≡ true)
          ⊎ (lookup j (set_at s k h).entries ≡ lookup j s.entries)
          ⊎ (lookup j (set_at s k h).entries ≡ none))
      × IsValidShard (set_at s k h)
unfolding set_at lookup
set_at_lem s k j h v = elim (Bool-cases (is_some (lookup k s.entries))) [
  | inl there ↦
      rw (there, set_at)
        (
          rw (key_eq_refl k) refl,
          ground (arith, lookup-delete k j s.entries),
          (
            (
              ground (arith, lookup-delete k k s.entries, key_eq_refl k),
              delete-UniqueKeys k s.entries v.0,
            ),
            ground (arith, length-delete k s.entries, v.1),
            v.2,
          ),
        )
  | inr absent ↦
      let (kept, unique, size, cap) = make_room_lem s j v in
      let (kept_k, _, _, _) = make_room_lem s k v in
      rw (absent, set_at)
        (
          rw (key_eq_refl k) refl,
          ground (arith, kept),
          ((ground (arith, kept_k), unique), ground arith, ground (arith, v.2)),
        )
]

pub delete_at_lem :
    (s : CacheShard) (k j : StatKey)
    → IsValidShard s
    → (lookup j (delete_at s k).entries ≡ (if key_eq k j then none else lookup j s.entries))
      × IsValidShard (delete_at s k)
unfolding delete_at
delete_at_lem s k j v = (
  lookup-delete k j s.entries,
  (delete-UniqueKeys k s.entries v.0, omega (arith, length-delete k s.entries, v.1), v.2),
)

pub delete_layer_at_lem :
    (s : CacheShard) (l : LayerId) (j : StatKey)
    → IsValidShard s
    → (lookup j (delete_layer_at s l).entries
        ≡ (if is_of_layer l j then none else lookup j s.entries))
      × IsValidShard (delete_layer_at s l)
unfolding delete_layer_at
delete_layer_at_lem s l j v = (
  lookup-delete_if (is_of_layer l) j s.entries,
  (
    delete_if-UniqueKeys (is_of_layer l) s.entries v.0,
    omega (arith, length-delete_if (is_of_layer l) s.entries, v.1),
    v.2,
  ),
)
