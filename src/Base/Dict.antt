-- ===== src/Base/Dict.antt =====
-- Go maps, as association lists with one entry for each key.
use bons_ci.Base.{
  Key, Bool, List, [], ◌∷◌, Option, none, some, if◌then◌else◌, ◌≡◌, refl, arith, length, is_some,
  ◌+◌, ◌&&◌, false, any, key_eq_sym, key_eq_refl, Bool-cases, inl, inr, all, true, sym,
}

module _ {ℓ} {K V : Type ℓ} ⦃e : Key K⦄ where
  -- `v, ok := m[k]`
  unfoldable pub lookup : K → List (K × V) → Option V
  lookup k [] = none
  lookup k ((j, v) ∷ m) = if e.eqb j k then some v else lookup k m

  -- `m[k] = v`
  unfoldable pub insert : K → V → List (K × V) → List (K × V)
  insert k v [] = (k, v) ∷ []
  insert k v ((j, w) ∷ m) = if e.eqb j k then (k, v) ∷ m else (j, w) ∷ insert k v m

  -- `delete(m, k)`, and the loop that deletes each key with a property
  unfoldable pub delete : K → List (K × V) → List (K × V)
  delete k [] = []
  delete k ((j, w) ∷ m) = if e.eqb j k then delete k m else (j, w) ∷ delete k m

  unfoldable pub delete_if : (K → Bool) → List (K × V) → List (K × V)
  delete_if p [] = []
  delete_if p ((j, w) ∷ m) = if p j then delete_if p m else (j, w) ∷ delete_if p m

  pub lookup-insert :
      (k j : K) (v : V) (m : List (K × V))
      → lookup j (insert k v m) ≡ (if e.eqb k j then some v else lookup j m)
  unfolding lookup insert
  lookup-insert k j v [] = refl
  lookup-insert k j v ((i, w) ∷ m) =
      ground (arith, e.eqb_iff k j, e.eqb_iff i k, e.eqb_iff i j, lookup-insert k j v m)

  pub lookup-delete :
      (k j : K) (m : List (K × V))
      → lookup j (delete k m) ≡ (if e.eqb k j then none else lookup j m)
  unfolding lookup delete
  lookup-delete k j [] = ground arith
  lookup-delete k j ((i, w) ∷ m) =
      ground (arith, e.eqb_iff k j, e.eqb_iff i k, e.eqb_iff i j, lookup-delete k j m)

  pub lookup-delete_if :
      (p : K → Bool) (j : K) (m : List (K × V))
      → lookup j (delete_if p m) ≡ (if p j then none else lookup j m)
  unfolding lookup delete_if
  lookup-delete_if p j [] = ground arith
  lookup-delete_if p j ((i, w) ∷ m) = ground (arith, e.eqb_iff i j, lookup-delete_if p j m)

  pub length-insert :
      (k : K) (v : V) (m : List (K × V))
      → length (insert k v m) ≡ (if is_some (lookup k m) then length m else length m + 1)
  unfolding lookup insert
  length-insert k v [] = ground arith
  length-insert k v ((j, w) ∷ m) = ground (arith, length-insert k v m)

  -- No key stands twice, as in every map that insertions make.
  abbrev pub UniqueKeys : List (K × V) → Type ℓ
  UniqueKeys [] = Unit
  UniqueKeys ((j, w) ∷ m) = (lookup j m ≡ none) × UniqueKeys m

  pub insert-UniqueKeys :
      (k : K) (v : V) (m : List (K × V)) → UniqueKeys m → UniqueKeys (insert k v m)
  unfolding lookup insert
  insert-UniqueKeys k v [] u = (refl, tt)
  insert-UniqueKeys k v ((j, w) ∷ m) u = elim (Bool-cases (e.eqb j k)) [
    | inl h ↦ let same : j ≡ k = (e.eqb_iff j k).0 h in rw h (ground arith, u.1)
    | inr h ↦
        rw h
          (ground (arith, lookup-insert k j v m, key_eq_sym j k, u.0), insert-UniqueKeys k v m u.1)
  ]

  -- A test that only one key can pass is passed by the value of that key.
  pub any-lookup :
      (p : K) (f : V → Bool) (g : K × V → Bool) (m : List (K × V))
      → ((j : K) (v : V) → g (j, v) ≡ (e.eqb p j && f v))
      → UniqueKeys m
      → any g m ≡ elim (lookup p m) [ none ↦ false | some v ↦ f v ]
  unfolding lookup
  any-lookup p f g [] h u = refl
  any-lookup p f g ((j, v) ∷ m) h u =
      ground (arith, h j v, key_eq_sym j p, e.eqb_iff p j, u.0, any-lookup p f g m h u.1)

  pub all-lookup :
      (g : K × V → Bool) (m : List (K × V)) (j : K) (v : V)
      → all g m ≡ true
      → lookup j m ≡ some v
      → g (j, v) ≡ true
  unfolding lookup
  all-lookup g [] j v h l = absurd (ground arith)
  all-lookup g ((i, w) ∷ m) j v h l = elim (Bool-cases (e.eqb i j)) [
    | inl s ↦
        let same_key : i ≡ j = (e.eqb_iff i j).0 s in
        let same : w ≡ v = ground arith in rw (sym same_key, sym same) (ground arith)
    | inr s ↦ all-lookup g m j v (ground arith) (ground arith)
  ]

  pub all-intro :
      (g : K × V → Bool) (m : List (K × V))
      → UniqueKeys m
      → ((j : K) (v : V) → lookup j m ≡ some v → g (j, v) ≡ true)
      → all g m ≡ true
  unfolding lookup
  all-intro g [] u h = refl
  all-intro g ((i, w) ∷ m) u h = rw (h i w (rw (key_eq_refl i) refl)) (
      all-intro g m u.1 (λ j v l. elim (Bool-cases (e.eqb i j)) [
        | inl s ↦ absurd (let same_key : i ≡ j = (e.eqb_iff i j).0 s in ground (arith, u.0))
        | inr s ↦ h j v (rw s l)
      ]))
