-- ===== src/Base/Sort.antt =====
-- sort.Slice by a key that is a string, and what a sort keeps.
use bons_ci.Base.{
  Str, str_eqb, ◌+◌, Bool, true, false, ◌||◌, List, [], ◌∷◌, ◌≡◌, refl, ◌∙◌, ap, arith, length, any,
  all, ◌&&◌, str_eqb_iff, str_key, key_eq_sym,
}
use mathlib.Core.List.{Permᴰ}
use bons_ci.Base.Order.{compare_str, Ordering, compare_str_gt, compare_str_eq, Precedes-trans}

abbrev pub in_order : Ordering → Bool
in_order Ordering.gt = false
in_order _ = true

module _ {ℓ} {A : Type ℓ} (key : A → Str) where
  -- Before the first element whose key is not smaller.
  abbrev pub insert_by : A → List A → List A
  insert_by a [] = a ∷ []
  insert_by a (b ∷ bs) = elim (compare_str (key a) (key b)) [
    | Ordering.gt ↦ b ∷ insert_by a bs
    | _ ↦ a ∷ b ∷ bs
  ]

  abbrev pub sort_by : List A → List A
  sort_by [] = []
  sort_by (a ∷ xs) = insert_by a (sort_by xs)

  -- No key is greater than the next one.
  abbrev pub IsSorted : List A → Type 0
  IsSorted [] = Unit
  IsSorted (a ∷ []) = Unit
  IsSorted (a ∷ b ∷ bs) = (in_order (compare_str (key a) (key b)) ≡ true) × IsSorted (b ∷ bs)

compare_str_flip : (a b : Str) → compare_str a b ≡ Ordering.lt → compare_str b a ≡ Ordering.gt
compare_str_flip [] [] h = ground arith
compare_str_flip [] (y ∷ ys) h = refl
compare_str_flip (x ∷ xs) [] h = ground arith
compare_str_flip (x ∷ xs) (y ∷ ys) h = ground (arith, compare_str_flip xs ys)

compare_str_eqb : (a b : Str) → compare_str a b ≡ Ordering.eq → str_eqb a b ≡ true
compare_str_eqb a b h = (str_eqb_iff a b).1 (compare_str_eq a b h)

-- What is greater than a third string is greater than any that is not.
above :
    (a b c : Str)
    → compare_str a c ≡ Ordering.gt
    → in_order (compare_str b c) ≡ true
    → compare_str a b ≡ Ordering.gt
above a b c h k =
    ground
      (arith, compare_str_gt a c h, compare_str_eq b c, Precedes-trans b c a, compare_str_flip b a)

module _ {ℓ} {A : Type ℓ} (key : A → Str) where
  any-insert_by :
      (p : A → Bool) (a : A) (xs : List A) → any p (insert_by key a xs) ≡ (p a || any p xs)
  any-insert_by p a [] = refl
  any-insert_by p a (b ∷ bs) = ground (arith, any-insert_by p a bs)

  pub any-sort_by : (p : A → Bool) (xs : List A) → any p (sort_by key xs) ≡ any p xs
  any-sort_by p [] = refl
  any-sort_by p (a ∷ xs) =
      any-insert_by p a (sort_by key xs) ∙ ap (λ b. p a || b) (any-sort_by p xs)

  length-insert_by : (a : A) (xs : List A) → length (insert_by key a xs) ≡ length xs + 1
  length-insert_by a [] = refl
  length-insert_by a (b ∷ bs) = ground (arith, length-insert_by a bs)

  pub length-sort_by : (xs : List A) → length (sort_by key xs) ≡ length xs
  length-sort_by [] = refl
  length-sort_by (a ∷ xs) = omega (arith, length-insert_by a (sort_by key xs), length-sort_by xs)

  insert_by-IsSorted : (a : A) (xs : List A) → IsSorted key xs → IsSorted key (insert_by key a xs)
  insert_by-IsSorted a [] h = tt
  insert_by-IsSorted a (b ∷ []) h =
      ground (arith, compare_str_gt (key a) (key b), compare_str_gt (key b) (key a))
  insert_by-IsSorted a (b ∷ c ∷ cs) h =
      ground (arith, compare_str_gt (key a) (key b), insert_by-IsSorted a (c ∷ cs) h.1)

  -- A sort orders the list.
  pub sort_by-IsSorted : (xs : List A) → IsSorted key (sort_by key xs)
  sort_by-IsSorted [] = tt
  sort_by-IsSorted (a ∷ xs) = insert_by-IsSorted a (sort_by key xs) (sort_by-IsSorted xs)

  -- Two insertions of different keys commute.
  insert_by-swap :
      (a b : A) (xs : List A)
      → str_eqb (key a) (key b) ≡ false
      → insert_by key a (insert_by key b xs) ≡ insert_by key b (insert_by key a xs)
  insert_by-swap a b [] h = ground (
    arith,
    compare_str_flip (key a) (key b),
    compare_str_flip (key b) (key a),
    compare_str_eqb (key a) (key b),
    compare_str_gt (key a) (key b),
    compare_str_gt (key b) (key a),
  )
  insert_by-swap a b (c ∷ cs) h = ground (
    arith,
    compare_str_flip (key a) (key b),
    compare_str_flip (key b) (key a),
    compare_str_eqb (key a) (key b),
    compare_str_gt (key a) (key b),
    compare_str_gt (key b) (key a),
    above (key a) (key b) (key c),
    above (key b) (key a) (key c),
    insert_by-swap a b cs h,
  )

  -- The keys of the list are different.
  abbrev pub Distinct : List A → Type 0
  Distinct [] = Unit
  Distinct (a ∷ xs) = (any (λ b. str_eqb (key a) (key b)) xs ≡ false) × Distinct xs

  any-Permᴰ : (p : A → Bool) (xs ys : List A) → Permᴰ xs ys → any p xs ≡ any p ys
  any-Permᴰ p _ _ Permᴰ.nil = refl
  any-Permᴰ p (a ∷ xs) (b ∷ ys) (Permᴰ.cons e d) = ground (arith, any-Permᴰ p xs ys d)
  any-Permᴰ p (a ∷ b ∷ xs) (c ∷ d ∷ _) (Permᴰ.swap e f) = ground arith
  any-Permᴰ p xs ys (Permᴰ.trans {l₂ = zs} d e) = any-Permᴰ p xs zs d ∙ any-Permᴰ p zs ys e

  Distinct-Permᴰ : (xs ys : List A) → Permᴰ xs ys → Distinct xs → Distinct ys
  Distinct-Permᴰ _ _ Permᴰ.nil h = tt
  Distinct-Permᴰ (a ∷ xs) (b ∷ ys) (Permᴰ.cons e d) h =
      (ground (arith, any-Permᴰ (λ c. str_eqb (key b) (key c)) xs ys d), Distinct-Permᴰ xs ys d h.1)
  Distinct-Permᴰ (a ∷ b ∷ xs) (c ∷ d ∷ _) (Permᴰ.swap e f) h =
      ground (arith, key_eq_sym (key a) (key b))
  Distinct-Permᴰ xs ys (Permᴰ.trans {l₂ = zs} d e) h =
      Distinct-Permᴰ zs ys e (Distinct-Permᴰ xs zs d h)

  -- The sort of a list with different keys does not depend on the order of the list.
  pub sort_by-Permᴰ : (xs ys : List A) → Permᴰ xs ys → Distinct xs → sort_by key xs ≡ sort_by key ys
  sort_by-Permᴰ _ _ Permᴰ.nil h = refl
  sort_by-Permᴰ (a ∷ xs) (b ∷ ys) (Permᴰ.cons e d) h = rw (e, sort_by-Permᴰ xs ys d h.1) refl
  sort_by-Permᴰ (a ∷ b ∷ xs) (c ∷ d ∷ _) (Permᴰ.swap e f) h =
      ground (arith, insert_by-swap a b (sort_by key xs))
  sort_by-Permᴰ xs ys (Permᴰ.trans {l₂ = zs} d e) h =
      sort_by-Permᴰ xs zs d h ∙ sort_by-Permᴰ zs ys e (Distinct-Permᴰ xs zs d h)

  all-insert_by :
      (p : A → Bool) (a : A) (xs : List A) → all p (insert_by key a xs) ≡ (p a && all p xs)
  all-insert_by p a [] = refl
  all-insert_by p a (b ∷ bs) = ground (arith, all-insert_by p a bs)

  pub all-sort_by : (p : A → Bool) (xs : List A) → all p (sort_by key xs) ≡ all p xs
  all-sort_by p [] = refl
  all-sort_by p (a ∷ xs) =
      all-insert_by p a (sort_by key xs) ∙ ap (λ b. p a && b) (all-sort_by p xs)

  Distinct-insert_by :
      (a : A) (xs : List A)
      → any (λ b. str_eqb (key a) (key b)) xs ≡ false
      → Distinct xs
      → Distinct (insert_by key a xs)
  Distinct-insert_by a [] n u = (refl, tt)
  Distinct-insert_by a (b ∷ bs) n u =
      elim (compare_str (key a) (key b))
        as (λ o. Distinct (elim o [ Ordering.gt ↦ b ∷ insert_by key a bs | _ ↦ a ∷ b ∷ bs ])) [
          | Ordering.gt ↦ (
            any-insert_by (λ c. str_eqb (key b) (key c)) a bs
                ∙ (ground (arith, n, u.0, key_eq_sym (key a) (key b))),
            Distinct-insert_by a bs (ground (arith, n)) u.1,
          )
          | Ordering.lt ↦ (n, u)
          | Ordering.eq ↦ (n, u)
        ]

  pub Distinct-sort_by : (xs : List A) → Distinct xs → Distinct (sort_by key xs)
  Distinct-sort_by [] u = tt
  Distinct-sort_by (a ∷ xs) u =
      Distinct-insert_by a (sort_by key xs) (any-sort_by (λ b. str_eqb (key a) (key b)) xs ∙ u.0)
        (Distinct-sort_by xs u.1)
