-- ===== src/Fshash/Merkle/Tree/Leaves.antt =====
-- pkg/fshash/merkle/tree.go: which leaves the root that `Build` returns has.
use mathlib.Core.List.{Permᴰ}
use mathlib.Core.List.Permᴰ
use bons_ci.Base.{
  Str, ℕ, zero, suc, ◌+◌, ◌≤◌, List, [], ◌∷◌, ◌++◌, append_assoc, append-nil, some, take, drop,
  length, ◌≡◌, refl, sym, ◌∙◌, ap, subst, arith,
}
use bons_ci.Base.Order.{compare_str, Ordering, compare_str_gt}
use bons_ci.Base.Sort.{IsSorted}
use bons_ci.Fshash.Layer.Chain.{LayerId}
use bons_ci.Fshash.Merkle.Tree.{
  Node, Nodes, leaf, branch, nil, cons, path_of, nodes_of, Tree, insert_sorted, sort_leaves,
  combine_nodes, next_level, build_levels, build,
}
use bons_ci.Fshash.Merkle.Tree.Laws.{length-drop, length-sort_leaves, length-next_level, nonempty}

mutual
  -- The leaves below a node, from left to right.
  pub leaves_of : Node → List Node
  leaves_of (leaf h p l) = leaf h p l ∷ []
  leaves_of (branch h cs d) = leaves_below cs

  pub leaves_below : Nodes → List Node
  leaves_below nil = []
  leaves_below (cons c cs) = leaves_of c ++ leaves_below cs

abbrev pub all_leaves : List Node → List Node
all_leaves ns = leaves_below (nodes_of ns)

pub all_leaves_nil : all_leaves [] ≡ []
unfolding leaves_of
all_leaves_nil = refl

pub all_leaves_cons :
    (h p : Str) (l : LayerId) (ns : List Node)
    → all_leaves (leaf h p l ∷ ns) ≡ leaf h p l ∷ all_leaves ns
unfolding leaves_of
all_leaves_cons h p l ns = refl

all_leaves-split :
    (n : ℕ) (ns : List Node) → all_leaves (take n ns) ++ all_leaves (drop n ns) ≡ all_leaves ns
unfolding leaves_of
all_leaves-split zero ns = refl
all_leaves-split (suc n) [] = refl
all_leaves-split (suc n) (m ∷ ns) =
    append_assoc (leaves_of m) (all_leaves (take n ns)) (all_leaves (drop n ns))
    ∙ ap (λ l. leaves_of m ++ l) (all_leaves-split n ns)

append_swap : (x y z : List Node) → Permᴰ (x ++ (y ++ z)) (y ++ (x ++ z))
append_swap x y z = subst (Permᴰ (x ++ (y ++ z))) (append_assoc y x z) (
    subst (λ l. Permᴰ l ((y ++ x) ++ z)) (append_assoc x y z)
      (Permᴰ.append_right z (Permᴰ.append_comm x y)))

pub all_leaves-Permᴰ : (xs ys : List Node) → Permᴰ xs ys → Permᴰ (all_leaves xs) (all_leaves ys)
unfolding leaves_of
all_leaves-Permᴰ _ _ Permᴰ.nil = Permᴰ.nil
all_leaves-Permᴰ (x ∷ xs) (y ∷ ys) (Permᴰ.cons e p) =
    subst (λ l. Permᴰ (leaves_of x ++ all_leaves xs) (leaves_of l ++ all_leaves ys)) e
      (Permᴰ.append_left (leaves_of x) (all_leaves-Permᴰ xs ys p))
all_leaves-Permᴰ (a ∷ b ∷ xs) (c ∷ d ∷ _) (Permᴰ.swap e f) =
    subst (λ l. Permᴰ (all_leaves (a ∷ b ∷ xs)) (leaves_of l ++ (leaves_of d ++ all_leaves xs))) f
      (subst (λ l. Permᴰ (all_leaves (a ∷ b ∷ xs)) (leaves_of b ++ (leaves_of l ++ all_leaves xs)))
        e (append_swap (leaves_of a) (leaves_of b) (all_leaves xs)))
all_leaves-Permᴰ xs ys (Permᴰ.trans {l₂ = zs} p q) =
    Permᴰ.trans (all_leaves-Permᴰ xs zs p) (all_leaves-Permᴰ zs ys q)

insert_sorted-Permᴰ : (n : Node) (ns : List Node) → Permᴰ (insert_sorted n ns) (n ∷ ns)
insert_sorted-Permᴰ n [] = Permᴰ.refl (n ∷ [])
insert_sorted-Permᴰ n (m ∷ ms) =
    elim (compare_str (path_of m) (path_of n))
      as (λ o.
        Permᴰ (elim o [ Ordering.gt ↦ n ∷ m ∷ ms | _ ↦ m ∷ insert_sorted n ms ]) (n ∷ m ∷ ms)) [
          | Ordering.gt ↦ Permᴰ.refl (n ∷ m ∷ ms)
          | Ordering.lt ↦
              Permᴰ.trans (Permᴰ.cons refl (insert_sorted-Permᴰ n ms)) (Permᴰ.swap refl refl)
          | Ordering.eq ↦
              Permᴰ.trans (Permᴰ.cons refl (insert_sorted-Permᴰ n ms)) (Permᴰ.swap refl refl)
        ]

sort_leaves-Permᴰ : (ns : List Node) → Permᴰ (sort_leaves ns) ns
sort_leaves-Permᴰ [] = Permᴰ.nil
sort_leaves-Permᴰ (n ∷ ns) =
    Permᴰ.trans (insert_sorted-Permᴰ n (sort_leaves ns)) (Permᴰ.cons refl (sort_leaves-Permᴰ ns))

insert_sorted-IsSorted :
    (n : Node) (ns : List Node) → IsSorted path_of ns → IsSorted path_of (insert_sorted n ns)
insert_sorted-IsSorted n [] h = tt
insert_sorted-IsSorted n (m ∷ []) h = ground (arith, compare_str_gt (path_of m) (path_of n))
insert_sorted-IsSorted n (m ∷ k ∷ ms) h =
    ground (arith, compare_str_gt (path_of m) (path_of n), insert_sorted-IsSorted n (k ∷ ms) h.1)

sort_leaves-IsSorted : (ns : List Node) → IsSorted path_of (sort_leaves ns)
sort_leaves-IsSorted [] = tt
sort_leaves-IsSorted (n ∷ ns) = insert_sorted-IsSorted n (sort_leaves ns) (sort_leaves-IsSorted ns)

module _ (hasher : Str → Str) where
  next_level-leaves :
      (fuel bf depth : ℕ) (ns : List Node)
      → 1 ≤ bf
      → length ns ≤ fuel
      → all_leaves (next_level hasher fuel bf depth ns) ≡ all_leaves ns
  unfolding next_level combine_nodes leaves_of
  next_level-leaves zero bf depth [] h k = refl
  next_level-leaves zero bf depth (n ∷ ns) h k = absurd (omega arith)
  next_level-leaves (suc fuel) bf depth [] h k = refl
  next_level-leaves (suc fuel) bf depth (n ∷ ns) h k =
      ap (λ l. all_leaves (take bf (n ∷ ns)) ++ l)
        (next_level-leaves fuel bf depth (drop bf (n ∷ ns)) h
          (omega (arith, length-drop bf (n ∷ ns))))
      ∙ all_leaves-split bf (n ∷ ns)

  build_levels-leaves :
      (fuel bf depth : ℕ) (n : Node) (ns : List Node)
      → 2 ≤ bf
      → length (n ∷ ns) ≤ fuel
      → (root : Node) × (build_levels hasher fuel bf depth (n ∷ ns) ≡ some root)
        × (leaves_of root ≡ all_leaves (n ∷ ns))
  unfolding build_levels next_level leaves_of
  build_levels-leaves fuel bf depth n [] h k = (n, refl, sym (append-nil (leaves_of n)))
  build_levels-leaves zero bf depth n (m ∷ ns) h k = absurd (omega arith)
  build_levels-leaves (suc fuel) bf depth n (m ∷ ns) h k =
      let ls = n ∷ m ∷ ns in
      let first = combine_nodes hasher (take bf ls) (depth + 1) in
      let others = next_level hasher (suc (length ns)) bf (depth + 1) (drop bf ls) in
      let shorter = length-next_level hasher (length ls) bf (depth + 1) ls h in
      let (root, e, same) = build_levels-leaves fuel bf (depth + 1) first others h (omega arith) in
      (root, e, same ∙ next_level-leaves (length ls) bf (depth + 1) ls (omega arith) (omega arith))

  -- A tree with a leaf and a branching factor of 2 or more is built: the loop ends with one node, the root. Its leaves
  -- from left to right are those of what was inserted, each as often, in the order of the paths.
  pub build_total :
      (t : Tree)
      → 1 ≤ length t.leaves
      → 2 ≤ t.branching_factor
      → (root : Node) × (sorted : List Node) × ((build hasher t).1 ≡ some root)
        × (leaves_of root ≡ all_leaves sorted)
        × Permᴰ sorted t.leaves
        × IsSorted path_of sorted
  unfolding build
  build_total t h k =
      let (n, ns, e) = nonempty hasher t.leaves h in
      let sorted = sort_leaves (n ∷ ns) in
      let (m, ms, s) = nonempty hasher sorted (omega (arith, length-sort_leaves (n ∷ ns))) in
      let (root, r, same) =
        build_levels-leaves (length (m ∷ ms)) t.branching_factor 0 m ms k (omega arith) in
      let whole : build_levels hasher (length sorted) t.branching_factor 0 sorted ≡ some root =
        ap (λ z. build_levels hasher (length z) t.branching_factor 0 z) s ∙ r in
      (
        root,
        sorted,
        rw (build, e, whole) refl,
        same ∙ ap all_leaves (sym s),
        subst (Permᴰ sorted) (sym e) (sort_leaves-Permᴰ (n ∷ ns)),
        sort_leaves-IsSorted (n ∷ ns),
      )
