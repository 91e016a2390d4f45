-- ===== src/Layermerkle/Diff/Forests.antt =====
-- pkg/layermerkle/diff.go: when two forests are identical.
use bons_ci.Base.{
  Str, str_key, str_eqb, str_eqb_iff, Bool, true, false, not, ◌&&◌, List, [], ◌∷◌, ◌++◌, Option,
  none, some, any, all, is_some, ◌≡◌, ◌↔◌, refl, sym, ◌∙◌, ap, arith, Option-cases, inl, inr,
}
use bons_ci.Base.Dict.{lookup, insert, UniqueKeys, insert-UniqueKeys, all-lookup, all-intro}
use bons_ci.Base.Sort.{sort_by, any-sort_by}
use bons_ci.Layermerkle.Merkle.{MerkleTree, VertexId, MerkleForest, all_trees}
use bons_ci.Layermerkle.Diff.{
  ForestDiff, compare_tree, compare_trees, collect_removed_tree, collect_removed_trees, index_trees,
  index_trees_from, diff, is_identical, is_nil, empty_forest_diff,
}

-- The digests that a forest has for its vertices.
abbrev pub root_of : Option MerkleTree → Option Str
root_of none = none
root_of (some t) = some t.root

abbrev pub trees : MerkleForest → List (VertexId × MerkleTree)
trees f = index_trees (all_trees f)

abbrev is_alike : ForestDiff → Bool
is_alike d = is_nil d.added && is_nil d.changed

is_nil-append {ℓ} : {A : Type ℓ} (xs : List A) (x : A) → is_nil (xs ++ x ∷ []) ≡ false
is_nil-append [] x = refl
is_nil-append (y ∷ xs) x = refl

-- The vertex has one root in both maps.
abbrev agrees : List (VertexId × MerkleTree) → VertexId → MerkleTree → Bool
agrees m id t = elim (lookup id m) [ none ↦ false | some s ↦ str_eqb s.root t.root ]

abbrev all_agree : List (VertexId × MerkleTree) → List (VertexId × MerkleTree) → Bool
all_agree m ts = all (λ e. agrees m e.0 e.1) ts

abbrev all_known : List (VertexId × MerkleTree) → List (VertexId × MerkleTree) → Bool
all_known m ts = all (λ e. is_some (lookup e.0 m)) ts

compare_tree-is_alike :
    (m : List (VertexId × MerkleTree)) (id : VertexId) (t : MerkleTree) (d : ForestDiff)
    → (is_alike (compare_tree m id t d) ≡ (is_alike d && agrees m id t))
      × (is_nil (compare_tree m id t d).removed ≡ is_nil d.removed)
unfolding compare_tree
compare_tree-is_alike m id t d = elim (Option-cases (lookup id m)) [
  | inl e ↦ ground (arith, is_nil-append d.added t)
  | inr (s, e) ↦ ground (
    arith,
    is_nil-append d.changed (record { vertex_id = id; before = s; after = t; file_diff = none }),
  )
]

compare_trees-is_alike :
    (m ts : List (VertexId × MerkleTree)) (d : ForestDiff)
    → (is_alike (compare_trees m ts d) ≡ (is_alike d && all_agree m ts))
      × (is_nil (compare_trees m ts d).removed ≡ is_nil d.removed)
unfolding compare_trees
compare_trees-is_alike m [] d = ground arith
compare_trees-is_alike m ((id, t) ∷ ts) d =
    ground
      (arith, compare_tree-is_alike m id t d, compare_trees-is_alike m ts (compare_tree m id t d))

collect_removed-is_alike :
    (m ts : List (VertexId × MerkleTree)) (d : ForestDiff)
    → (is_alike (collect_removed_trees m ts d) ≡ is_alike d)
      × (is_nil (collect_removed_trees m ts d).removed ≡ (is_nil d.removed && all_known m ts))
unfolding collect_removed_trees collect_removed_tree
collect_removed-is_alike m [] d = ground arith
collect_removed-is_alike m ((id, t) ∷ ts) d = ground (
  arith,
  is_nil-append d.removed t,
  collect_removed-is_alike m ts (collect_removed_tree m id t d),
)

is_nil-any {ℓ} : {A : Type ℓ} (xs : List A) → is_nil xs ≡ not (any (λ x. true) xs)
is_nil-any [] = refl
is_nil-any (x ∷ xs) = refl

is_nil-sort_by {ℓ} :
    {A : Type ℓ} (key : A → Str) (xs : List A) → is_nil (sort_by key xs) ≡ is_nil xs
is_nil-sort_by key xs =
    is_nil-any (sort_by key xs) ∙ ap not (any-sort_by key (λ x. true) xs) ∙ sym (is_nil-any xs)

-- The two loops find no difference.
is_identical-diff :
    (a b : MerkleForest)
    → is_identical (diff a b) ≡ (all_agree (trees a) (trees b) && all_known (trees b) (trees a))
unfolding diff is_identical
is_identical-diff a b =
    let later = compare_trees (trees a) (trees b) empty_forest_diff in
    let d = collect_removed_trees (trees b) (trees a) later in
    ground (
      arith,
      is_nil-sort_by (λ t. t.vertex_id) d.added,
      is_nil-sort_by (λ t. t.vertex_id) d.removed,
      is_nil-sort_by (λ c. c.vertex_id) d.changed,
      compare_trees-is_alike (trees a) (trees b) empty_forest_diff,
      collect_removed-is_alike (trees b) (trees a) later,
    )

index_trees_from-UniqueKeys :
    (m : List (VertexId × MerkleTree)) (ts : List MerkleTree)
    → UniqueKeys m
    → UniqueKeys (index_trees_from m ts)
index_trees_from-UniqueKeys m [] u = u
index_trees_from-UniqueKeys m (t ∷ ts) u =
    index_trees_from-UniqueKeys (insert t.vertex_id t m) ts (insert-UniqueKeys t.vertex_id t m u)

trees-UniqueKeys : (f : MerkleForest) → UniqueKeys (trees f)
unfolding index_trees
trees-UniqueKeys f = index_trees_from-UniqueKeys [] (all_trees f) tt

same_roots :
    (m n : List (VertexId × MerkleTree)) (id : VertexId)
    → all_agree m n ≡ true
    → all_known n m ≡ true
    → root_of (lookup id m) ≡ root_of (lookup id n)
same_roots m n id h k = elim (Option-cases (lookup id n)) [
  | inl e ↦ elim (Option-cases (lookup id m)) [
    | inl f ↦ rw (e, f) refl
    | inr (s, f) ↦ absurd (ground (arith, all-lookup (λ e. is_some (lookup e.0 n)) m id s k f))
  ]
  | inr (t, e) ↦
      let there = all-lookup (λ e. agrees m e.0 e.1) n id t h e in
      elim (Option-cases (lookup id m)) [
        | inl f ↦ absurd (ground arith)
        | inr (s, f) ↦ let same = str_eqb_iff s.root t.root in ground arith
      ]
]

-- A diff of two forests finds them identical exactly if every vertex has the same root digest in both, or
-- is in neither.
pub is_identical_iff :
    (a b : MerkleForest)
    → (is_identical (diff a b) ≡ true)
      ↔ ((id : VertexId) → root_of (lookup id (trees a)) ≡ root_of (lookup id (trees b)))
is_identical_iff a b =
    let e = is_identical-diff a b in
    (
      λ h id. same_roots (trees a) (trees b) id (ground arith) (ground arith),
      λ same.
          let agree : all_agree (trees a) (trees b) ≡ true =
            all-intro (λ e. agrees (trees a) e.0 e.1) (trees b) (trees-UniqueKeys b)
              (λ j t l. elim (Option-cases (lookup j (trees a))) [
                | inl f ↦ absurd (ground (arith, same j))
                | inr (s, f) ↦ ground (arith, same j, str_eqb_iff s.root t.root)
              ]) in
          let known : all_known (trees b) (trees a) ≡ true =
            all-intro (λ e. is_some (lookup e.0 (trees b))) (trees a) (trees-UniqueKeys a)
              (λ j s l. elim (Option-cases (lookup j (trees b))) [
                | inl f ↦ absurd (ground (arith, same j))
                | inr (t, f) ↦ ground arith
              ]) in
          ground arith,
    )
