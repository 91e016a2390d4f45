-- ===== src/Llb/Matrix/Laws.antt =====
-- client/llb/ops/matrixop/matrixop.go: how many cells there are, which, and that the order of the axes does not matter.
use bons_ci.Base.{
  Str, str_key, str_eqb, str_eqb_iff, ℕ, suc, ◌*◌, Bool, true, false, ◌&&◌, List, [], ◌∷◌, none,
  some, ◌≡◌, refl, sym, ◌∙◌, ap, arith, any, any-append, all, length, length-append, All,
  Bool-cases, inl, inr, if◌then◌else◌, key_eq_sym,
}
use mathlib.Core.List.{Permᴰ}
use bons_ci.Base.Dict.{insert, lookup, lookup-insert}
use bons_ci.Base.Sort.{insert_by, sort_by, sort_by-Permᴰ, Distinct, all-sort_by, Distinct-sort_by}
use bons_ci.Llb.Matrix.{Axis, Cell, with_values, expand_axis, expand_axes, cartesian_product}

mul_assoc : (a b c : ℕ) → (a * b) * c ≡ a * (b * c)
mul_assoc a b c = grind arith

mul_swap : (a b c : ℕ) → a * (b * c) ≡ b * (a * c)
mul_swap a b c = grind arith

length-with_values :
    (name : Str) (c : Cell) (vs : List Str) → length (with_values name c vs) ≡ length vs
length-with_values name c [] = refl
length-with_values name c (v ∷ vs) = ap suc (length-with_values name c vs)

length-expand_axis :
    (a : Axis) (cs : List Cell) → length (expand_axis a cs) ≡ length cs * length a.values
length-expand_axis a [] = omega arith
length-expand_axis a (c ∷ cs) =
    length-append (with_values a.name c a.values) (expand_axis a cs)
    ∙ (omega (arith, length-with_values a.name c a.values, length-expand_axis a cs))

abbrev pub cell_count : List Axis → ℕ
cell_count [] = 1
cell_count (a ∷ rest) = length a.values * cell_count rest

length-expand_axes :
    (axes : List Axis) (cs : List Cell) → length (expand_axes axes cs) ≡ length cs * cell_count axes
length-expand_axes [] cs = omega arith
length-expand_axes (a ∷ rest) cs =
    length-expand_axes rest (expand_axis a cs)
    ∙ ap (λ n. n * cell_count rest) (length-expand_axis a cs)
    ∙ mul_assoc (length cs) (length a.values) (cell_count rest)

cell_count-insert_by :
    (a : Axis) (xs : List Axis)
    → cell_count (insert_by (λ x. x.name) a xs) ≡ length a.values * cell_count xs
cell_count-insert_by a [] = refl
cell_count-insert_by a (b ∷ bs) = ground (
  arith,
  ap (λ n. length b.values * n) (cell_count-insert_by a bs),
  mul_swap (length b.values) (length a.values) (cell_count bs),
)

cell_count-sort_by : (xs : List Axis) → cell_count (sort_by (λ x. x.name) xs) ≡ cell_count xs
cell_count-sort_by [] = refl
cell_count-sort_by (a ∷ xs) =
    cell_count-insert_by a (sort_by (λ x. x.name) xs)
    ∙ ap (λ n. length a.values * n) (cell_count-sort_by xs)

length-cartesian_product :
    (a : Axis) (rest : List Axis) → length (cartesian_product (a ∷ rest)) ≡ cell_count (a ∷ rest)
unfolding cartesian_product
length-cartesian_product a rest =
    length-expand_axes (sort_by (λ x. x.name) (a ∷ rest)) ([] ∷ [])
    ∙ (omega (arith, cell_count-sort_by (a ∷ rest)))

-- The cell has the value for the name.
abbrev pub value_is : Cell → Str → Str → Bool
value_is c k v = elim (lookup k c) [ none ↦ false | some w ↦ str_eqb w v ]

value_is-insert :
    (k v : Str) (c : Cell) (j w : Str)
    → value_is (insert k v c) j w ≡ (if str_eqb k j then str_eqb v w else value_is c j w)
value_is-insert k v c j w = ground (arith, lookup-insert k j v c)

any_swap :
    (p q r : Cell → Bool) (cs : List Cell)
    → any (λ d. q d && (r d && p d)) cs ≡ true
    → any (λ d. (r d && q d) && p d) cs ≡ true
any_swap p q r [] h = h
any_swap p q r (c ∷ cs) h = ground (arith, h, any_swap p q r cs)

any_and_true : (p : Cell → Bool) (cs : List Cell) → any (λ d. p d && true) cs ≡ any p cs
any_and_true p [] = refl
any_and_true p (c ∷ cs) = ground (arith, any_and_true p cs)

module _ (pick : Axis → Str) where
  -- The cell has what was picked for each axis.
  abbrev pub is_picked : List Axis → Cell → Bool
  is_picked axes c = all (λ a. value_is c a.name (pick a)) axes

  -- A value of each axis is picked.
  abbrev pub picks : List Axis → Bool
  picks axes = all (λ a. any (str_eqb (pick a)) a.values) axes

  abbrev Stable : (Cell → Bool) → List Axis → Type 0
  Stable p axes = All (λ a. (v : Str) (c : Cell) → p (insert a.name v c) ≡ p c) axes

  any-with_values :
      (p : Cell → Bool) (a : Axis) (c : Cell) (vs : List Str)
      → ((v : Str) (d : Cell) → p (insert a.name v d) ≡ p d)
      → p c ≡ true
      → any (str_eqb (pick a)) vs ≡ true
      → any (λ d. value_is d a.name (pick a) && p d) (with_values a.name c vs) ≡ true
  any-with_values p a c [] st h k = cc
  any-with_values p a c (v ∷ vs) st h k = elim (Bool-cases (str_eqb (pick a) v)) [
    | inl e ↦ ground (
      arith,
      value_is-insert a.name v c a.name (pick a),
      str_eqb_iff a.name a.name,
      str_eqb_iff (pick a) v,
      str_eqb_iff v (pick a),
      st v c,
    )
    | inr n ↦ ground (arith, any-with_values p a c vs st h (ground (arith, k, n)))
  ]

  any-expand_axis :
      (p : Cell → Bool) (a : Axis) (cs : List Cell)
      → ((v : Str) (d : Cell) → p (insert a.name v d) ≡ p d)
      → any (str_eqb (pick a)) a.values ≡ true
      → any p cs ≡ true
      → any (λ d. value_is d a.name (pick a) && p d) (expand_axis a cs) ≡ true
  any-expand_axis p a [] st k h = cc
  any-expand_axis p a (c ∷ cs) st k h =
      any-append (λ d. value_is d a.name (pick a) && p d) (with_values a.name c a.values)
        (expand_axis a cs)
      ∙ elim (Bool-cases (p c)) [
        | inl e ↦ ground (arith, any-with_values p a c a.values st e k)
        | inr n ↦ ground (arith, any-expand_axis p a cs st k (ground (arith, h, n)))
      ]

  -- Axes after the first one with its name do not change what is picked for it.
  Stable-value_is :
      (p : Cell → Bool) (a : Axis) (xs : List Axis)
      → any (λ b. str_eqb a.name b.name) xs ≡ false
      → Stable p xs
      → Stable (λ d. value_is d a.name (pick a) && p d) xs
  Stable-value_is p a [] n st = tt
  Stable-value_is p a (b ∷ bs) n st = (
    λ v c.
        ground (
          arith,
          n,
          value_is-insert b.name v c a.name (pick a),
          key_eq_sym a.name b.name,
          st.0 v c,
        ),
    Stable-value_is p a bs (ground (arith, n)) st.1,
  )

  any-expand_axes :
      (p : Cell → Bool) (xs : List Axis) (cs : List Cell)
      → Distinct (λ x. x.name) xs
      → Stable p xs
      → picks xs ≡ true
      → any p cs ≡ true
      → any (λ d. is_picked xs d && p d) (expand_axes xs cs) ≡ true
  any-expand_axes p [] cs u st k h = h
  any-expand_axes p (a ∷ xs) cs u st k h =
      any_swap p (is_picked xs) (λ d. value_is d a.name (pick a))
        (expand_axes xs (expand_axis a cs))
        (any-expand_axes (λ d. value_is d a.name (pick a) && p d) xs (expand_axis a cs) u.1
          (Stable-value_is p a xs u.0 st.1) (ground (arith, k))
          (any-expand_axis p a cs st.0 (ground (arith, k)) h))

  Stable-true : (xs : List Axis) → Stable (λ d. true) xs
  Stable-true [] = tt
  Stable-true (a ∷ xs) = (λ v c. refl, Stable-true xs)

  is_picked-sort_by :
      (xs : List Axis) (cs : List Cell)
      → any (is_picked (sort_by (λ x. x.name) xs)) cs ≡ true
      → any (is_picked xs) cs ≡ true
  is_picked-sort_by xs [] h = h
  is_picked-sort_by xs (c ∷ cs) h = ground (
    arith,
    h,
    all-sort_by (λ x. x.name) (λ a. value_is c a.name (pick a)) xs,
    is_picked-sort_by xs cs,
  )

  any-cartesian_product :
      (a : Axis) (rest : List Axis)
      → Distinct (λ x. x.name) (a ∷ rest)
      → picks (a ∷ rest) ≡ true
      → any (is_picked (a ∷ rest)) (cartesian_product (a ∷ rest)) ≡ true
  unfolding cartesian_product
  any-cartesian_product a rest u k =
      let axes : List Axis = sort_by (λ x. x.name) (a ∷ rest) in
      is_picked-sort_by (a ∷ rest) (cartesian_product (a ∷ rest)) (
        sym (any_and_true (is_picked axes) (expand_axes axes ([] ∷ [])))
        ∙ any-expand_axes (λ d. true) axes ([] ∷ []) (Distinct-sort_by (λ x. x.name) (a ∷ rest) u)
            (Stable-true axes)
            (all-sort_by (λ x. x.name) (λ b. any (str_eqb (pick b)) b.values) (a ∷ rest) ∙ k) refl)

  -- Axes of different names, at least one, of each of which one of its values is picked, have as many
  -- cells as the product of the numbers of their values, and what is picked is a cell.
  pub cartesian_product_lem :
      (a : Axis) (rest : List Axis)
      → Distinct (λ x. x.name) (a ∷ rest)
      → picks (a ∷ rest) ≡ true
      → (length (cartesian_product (a ∷ rest)) ≡ cell_count (a ∷ rest))
        × (any (is_picked (a ∷ rest)) (cartesian_product (a ∷ rest)) ≡ true)
  cartesian_product_lem a rest u k =
      (length-cartesian_product a rest, any-cartesian_product a rest u k)

-- Axes of different names have the same cells in the same order, in whatever order the axes are listed.
pub cartesian_product-order :
    (a b : Axis) (as_ bs : List Axis)
    → Permᴰ (a ∷ as_) (b ∷ bs)
    → Distinct (λ x. x.name) (a ∷ as_)
    → cartesian_product (a ∷ as_) ≡ cartesian_product (b ∷ bs)
unfolding cartesian_product
cartesian_product-order a b as_ bs p u =
    ap (λ xs. expand_axes xs ([] ∷ [])) (sort_by-Permᴰ (λ x. x.name) (a ∷ as_) (b ∷ bs) p u)
