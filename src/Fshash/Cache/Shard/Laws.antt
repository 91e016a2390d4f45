-- ===== src/Fshash/Cache/Shard/Laws.antt =====
-- pkg/fshash/cache/store.go: what a shard keeps.
use bons_ci.Base.{
  Str, str_key, str_eqb_iff, has_prefix, ℕ, zero, suc, ◌+◌, ◌-◌, ◌≤◌, Bool, true, false, List, [],
  ◌∷◌, none, some, if◌then◌else◌, is_some, length, ltb, take, ap, sym, ◌≡◌, refl, arith, inl, inr,
  Option-cases, Bool-cases, not, ◌&&◌,
}
use bons_ci.Base.Dict.{lookup, delete, delete_if, lookup-delete, lookup-delete_if}
use bons_ci.Fshash.Cache.Shard.{
  Shard, move_to_front, get, drop_tail, evict_lru, put, invalidate, invalidate_by_prefix, size,
}

module _ {V : Type 0} where
  -- Each key once.
  abbrev pub distinct : List (Str × V) → Bool
  distinct [] = true
  distinct ((k, v) ∷ es) = not (is_some (lookup k es)) && distinct es

  -- Within its capacity, which is not zero, each key once.
  abbrev pub IsValid : Shard V → Type 0
  IsValid s = (distinct s.entries ≡ true) × (size s ≤ s.capacity) × (1 ≤ s.capacity)

  length-delete_absent :
      (k : Str) (es : List (Str × V)) → is_some (lookup k es) ≡ false → delete k es ≡ es
  unfolding lookup delete
  length-delete_absent k [] h = refl
  length-delete_absent k ((j, v) ∷ es) h = ground (arith, length-delete_absent k es)

  distinct-delete :
      (k : Str) (es : List (Str × V)) → distinct es ≡ true → distinct (delete k es) ≡ true
  unfolding lookup delete
  distinct-delete k [] h = refl
  distinct-delete k ((j, v) ∷ es) h = ground (arith, distinct-delete k es, lookup-delete k j es)

  length-delete :
      (k : Str) (es : List (Str × V))
      → distinct es ≡ true
      → (if is_some (lookup k es) then length (delete k es) + 1 else length (delete k es))
        ≡ length es
  unfolding lookup delete
  length-delete k [] h = refl
  length-delete k ((j, v) ∷ es) h =
      ground (arith, length-delete k es, length-delete_absent k es, str_eqb_iff j k)

  distinct-delete_if :
      (p : Str → Bool) (es : List (Str × V)) → distinct es ≡ true → distinct (delete_if p es) ≡ true
  unfolding delete_if
  distinct-delete_if p [] h = refl
  distinct-delete_if p ((j, v) ∷ es) h =
      ground (arith, distinct-delete_if p es, lookup-delete_if p j es)

  length-delete_if : (p : Str → Bool) (es : List (Str × V)) → length (delete_if p es) ≤ length es
  unfolding delete_if
  length-delete_if p [] = omega arith
  length-delete_if p ((j, v) ∷ es) = ground (arith, length-delete_if p es)

  -- The entries but the last hold what the entries hold, but for the last key.
  lookup-drop_tail-none :
      (k : Str) (es : List (Str × V)) → lookup k es ≡ none → lookup k (drop_tail es) ≡ none
  unfolding lookup
  lookup-drop_tail-none k [] h = refl
  lookup-drop_tail-none k (e ∷ []) h = refl
  lookup-drop_tail-none k ((j, v) ∷ f ∷ es) h = ground (arith, lookup-drop_tail-none k (f ∷ es))

  distinct-drop_tail : (es : List (Str × V)) → distinct es ≡ true → distinct (drop_tail es) ≡ true
  distinct-drop_tail [] h = refl
  distinct-drop_tail (e ∷ []) h = refl
  distinct-drop_tail ((j, v) ∷ f ∷ es) h = ground (
    arith,
    distinct-drop_tail (f ∷ es),
    lookup-drop_tail-none j (f ∷ es),
    Option-cases (lookup j (f ∷ es)),
  )

  length-drop_tail : (es : List (Str × V)) → length (drop_tail es) ≡ length es - 1
  length-drop_tail [] = refl
  length-drop_tail (e ∷ []) = refl
  length-drop_tail (e ∷ f ∷ es) = ground (arith, length-drop_tail (f ∷ es))

  take_enough : (n : ℕ) (es : List (Str × V)) → length es ≤ n → take n es ≡ es
  take_enough zero [] h = refl
  take_enough zero (e ∷ es) h = absurd (omega arith)
  take_enough (suc n) [] h = refl
  take_enough (suc n) (e ∷ es) h = ap (◌∷◌ e) (take_enough n es (omega arith))

  drop_tail-take : (n : ℕ) (es : List (Str × V)) → length es ≡ suc n → drop_tail es ≡ take n es
  drop_tail-take n [] h = absurd (omega arith)
  drop_tail-take zero (e ∷ []) h = refl
  drop_tail-take (suc n) (e ∷ []) h = absurd (omega arith)
  drop_tail-take zero (e ∷ f ∷ es) h = absurd (omega arith)
  drop_tail-take (suc n) (e ∷ f ∷ es) h = ap (◌∷◌ e) (drop_tail-take n (f ∷ es) (omega arith))

  lookup-take :
      (n : ℕ) (k : Str) (v : V) (es : List (Str × V))
      → 1 ≤ n
      → lookup k (take n ((k, v) ∷ es)) ≡ some v
  unfolding lookup
  lookup-take zero k v es h = absurd (omega arith)
  lookup-take (suc n) k v es h = ground (arith, str_eqb_iff k k)

  -- On a valid shard, a write puts the key first, before the entries of the other keys in the order they
  -- were used, and what is beyond the capacity goes.
  pub put-recency :
      (s : Shard V) (k : Str) (v : V)
      → IsValid s
      → (put s k v).entries ≡ take s.capacity ((k, v) ∷ delete k s.entries)
  unfolding put size evict_lru move_to_front
  put-recency s k v h =
      let kept = length-delete k s.entries h.0 in
      elim (Option-cases (lookup k s.entries)) [
        | inr (w, e) ↦
            rw (put, e) (sym (take_enough s.capacity ((k, v) ∷ delete k s.entries) (ground arith)))
        | inl e ↦
            let same = length-delete_absent k s.entries (ground arith) in
            let es = (k, v) ∷ s.entries in
            elim (Bool-cases (ltb s.capacity (length es))) [
              | inl full ↦ rw (put, e, full, same) (drop_tail-take s.capacity es (ground arith))
              | inr room ↦ rw (put, e, room, same) (sym (take_enough s.capacity es (ground arith)))
            ]
      ]

  -- A read answers what the entries hold for the key, and changes no other answer; it counts one hit or
  -- one miss.
  pub get-lookup :
      (s : Shard V) (k j : Str)
      → ((get s k).1 ≡ lookup k s.entries)
        × (lookup j (get s k).0.entries ≡ lookup j s.entries)
        × ((get s k).0.hits + (get s k).0.misses ≡ s.hits + s.misses + 1)
  unfolding get move_to_front lookup
  get-lookup s k j =
      let others = lookup-delete k j s.entries in let same = str_eqb_iff k j in ground arith

  -- Writes are read back: the key has the value written.
  pub lookup-put :
      (s : Shard V) (k : Str) (v : V) → IsValid s → lookup k (put s k v).entries ≡ some v
  unfolding lookup
  lookup-put s k v h =
      let own = str_eqb_iff k k in
      let n = s.capacity in rw (put-recency s k v h) (lookup-take n k v (delete k s.entries) h.2)

  pub put-IsValid : (s : Shard V) (k : Str) (v : V) → IsValid s → IsValid (put s k v)
  unfolding put size evict_lru move_to_front
  put-IsValid s k v h =
      let kept = length-delete k s.entries h.0 in
      let apart = distinct-delete k s.entries h.0 in
      let gone = lookup-delete k k s.entries in
      let own = str_eqb_iff k k in
      let tail = distinct-drop_tail ((k, v) ∷ s.entries) in
      let shorter = length-drop_tail ((k, v) ∷ s.entries) in ground arith

  pub get-IsValid : (s : Shard V) (k : Str) → IsValid s → IsValid (get s k).0
  unfolding get size move_to_front
  get-IsValid s k h =
      let kept = length-delete k s.entries h.0 in
      let apart = distinct-delete k s.entries h.0 in
      let gone = lookup-delete k k s.entries in let own = str_eqb_iff k k in ground arith

  pub invalidate-IsValid : (s : Shard V) (k : Str) → IsValid s → IsValid (invalidate s k)
  unfolding invalidate size
  invalidate-IsValid s k h =
      let kept = length-delete k s.entries h.0 in
      let apart = distinct-delete k s.entries h.0 in ground arith

  pub invalidate_by_prefix-IsValid :
      (s : Shard V) (prefix : Str) → IsValid s → IsValid (invalidate_by_prefix s prefix)
  unfolding invalidate_by_prefix size
  invalidate_by_prefix-IsValid s prefix h =
      let shorter = length-delete_if (λ k. has_prefix k prefix) s.entries in
      let apart = distinct-delete_if (λ k. has_prefix k prefix) s.entries h.0 in ground arith
