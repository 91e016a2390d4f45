-- ===== src/Fshash/Merkle/Tree/Laws.antt =====
-- pkg/fshash/merkle/tree.go: what `Build` returns.
use bons_ci.Base.{
  Str, str_eqb_iff, ℕ, zero, suc, ◌+◌, ◌-◌, ◌≤◌, Bool, true, List, [], ◌∷◌, some, take, drop,
  length, ◌≡◌, refl, sym, ◌∙◌, ap, arith,
}
use bons_ci.Fshash.Merkle.Tree.{
  Node, leaf_count, leaf_counts, nodes_of, combined, Tree, insert_sorted, sort_leaves,
  combine_nodes, next_level, build_levels, build, verify_node, verify_nodes, verify,
}

pub length-drop : (n : ℕ) (ns : List Node) → length (drop n ns) ≡ length ns - n
length-drop zero ns = omega arith
length-drop (suc n) [] = omega arith
length-drop (suc n) (m ∷ ns) = omega (arith, length-drop n ns)

length-insert_sorted : (n : Node) (ns : List Node) → length (insert_sorted n ns) ≡ suc (length ns)
length-insert_sorted n [] = refl
length-insert_sorted n (m ∷ ms) = ground (arith, length-insert_sorted n ms)

pub length-sort_leaves : (ns : List Node) → length (sort_leaves ns) ≡ length ns
length-sort_leaves [] = refl
length-sort_leaves (n ∷ ns) =
    length-insert_sorted n (sort_leaves ns) ∙ ap suc (length-sort_leaves ns)

module _ (hasher : Str → Str) where
  -- A level is no longer than half of the one below, rounded up.
  pub length-next_level :
      (fuel bf depth : ℕ) (ns : List Node)
      → 2 ≤ bf
      → length (next_level hasher fuel bf depth ns) + length (next_level hasher fuel bf depth ns)
        ≤ length ns + 1
  unfolding next_level
  length-next_level zero bf depth ns h = omega arith
  length-next_level (suc fuel) bf depth [] h = omega arith
  length-next_level (suc fuel) bf depth (n ∷ []) h =
      omega (arith, length-next_level fuel bf depth (drop bf (n ∷ [])) h, length-drop bf (n ∷ []))
  length-next_level (suc fuel) bf depth (n ∷ m ∷ ns) h =
      omega (
        arith,
        length-next_level fuel bf depth (drop bf (n ∷ m ∷ ns)) h,
        length-drop bf (n ∷ m ∷ ns),
      )

  -- The leaves below a list of nodes.
  abbrev total : List Node → ℕ
  total ns = leaf_counts (nodes_of ns)

  total-split : (n : ℕ) (ns : List Node) → total (take n ns) + total (drop n ns) ≡ total ns
  unfolding leaf_counts
  total-split zero ns = omega arith
  total-split (suc n) [] = omega arith
  total-split (suc n) (m ∷ ns) = omega (arith, total-split n ns)

  total-next_level :
      (fuel bf depth : ℕ) (ns : List Node)
      → 1 ≤ bf
      → length ns ≤ fuel
      → total (next_level hasher fuel bf depth ns) ≡ total ns
  unfolding next_level leaf_counts combine_nodes
  total-next_level zero bf depth [] h k = refl
  total-next_level zero bf depth (n ∷ ns) h k = absurd (omega arith)
  total-next_level (suc fuel) bf depth [] h k = refl
  total-next_level (suc fuel) bf depth (n ∷ ns) h k = omega (
    arith,
    total-split bf (n ∷ ns),
    length-drop bf (n ∷ ns),
    total-next_level fuel bf depth (drop bf (n ∷ ns)) h (omega (arith, length-drop bf (n ∷ ns))),
  )

  total-insert_sorted : (n : Node) (ns : List Node) → total (insert_sorted n ns) ≡ total (n ∷ ns)
  unfolding leaf_counts
  total-insert_sorted n [] = refl
  total-insert_sorted n (m ∷ ms) = ground (arith, total-insert_sorted n ms)

  total-sort_leaves : (ns : List Node) → total (sort_leaves ns) ≡ total ns
  unfolding leaf_counts
  total-sort_leaves [] = refl
  total-sort_leaves (n ∷ ns) =
      omega (arith, total-insert_sorted n (sort_leaves ns), total-sort_leaves ns)

  abbrev sound : List Node → Bool
  sound ns = verify_nodes hasher (nodes_of ns)

  sound-take : (n : ℕ) (ns : List Node) → sound ns ≡ true → sound (take n ns) ≡ true
  unfolding verify_nodes
  sound-take zero ns h = refl
  sound-take (suc n) [] h = refl
  sound-take (suc n) (m ∷ ns) h = ground (arith, sound-take n ns)

  sound-drop : (n : ℕ) (ns : List Node) → sound ns ≡ true → sound (drop n ns) ≡ true
  unfolding verify_nodes
  sound-drop zero ns h = h
  sound-drop (suc n) [] h = h
  sound-drop (suc n) (m ∷ ns) h = sound-drop n ns (ground arith)

  sound-next_level :
      (fuel bf depth : ℕ) (ns : List Node)
      → sound ns ≡ true
      → sound (next_level hasher fuel bf depth ns) ≡ true
  unfolding next_level verify_nodes combine_nodes
  sound-next_level zero bf depth ns h = refl
  sound-next_level (suc fuel) bf depth [] h = refl
  sound-next_level (suc fuel) bf depth (n ∷ ns) h = ground (
    arith,
    sound-take bf (n ∷ ns) h,
    sound-next_level fuel bf depth (drop bf (n ∷ ns)) (sound-drop bf (n ∷ ns) h),
    str_eqb_iff (hasher (combined (nodes_of (take bf (n ∷ ns)))))
        (hasher (combined (nodes_of (take bf (n ∷ ns))))),
  )

  sound-insert_sorted :
      (n : Node) (ns : List Node) → sound (n ∷ ns) ≡ true → sound (insert_sorted n ns) ≡ true
  unfolding verify_nodes
  sound-insert_sorted n [] h = h
  sound-insert_sorted n (m ∷ ms) h = ground (arith, sound-insert_sorted n ms)

  sound-sort_leaves : (ns : List Node) → sound ns ≡ true → sound (sort_leaves ns) ≡ true
  unfolding verify_nodes
  sound-sort_leaves [] h = refl
  sound-sort_leaves (n ∷ ns) h =
      sound-insert_sorted n (sort_leaves ns) (ground (arith, sound-sort_leaves ns))

  -- Fuel of the number of nodes is enough for the levels.
  build_levels-total :
      (fuel bf depth : ℕ) (n : Node) (ns : List Node)
      → 2 ≤ bf
      → length (n ∷ ns) ≤ fuel
      → (root : Node) × (build_levels hasher fuel bf depth (n ∷ ns) ≡ some root)
        × (leaf_count root ≡ total (n ∷ ns))
        × (sound (n ∷ ns) ≡ true → verify_node hasher root ≡ true)
  unfolding build_levels leaf_counts verify_nodes next_level
  build_levels-total fuel bf depth n [] h k = (n, refl, omega arith, λ e. ground arith)
  build_levels-total zero bf depth n (m ∷ ns) h k = absurd (omega arith)
  build_levels-total (suc fuel) bf depth n (m ∷ ns) h k =
      let ls = n ∷ m ∷ ns in
      let up = next_level hasher (length ls) bf (depth + 1) ls in
      let first = combine_nodes hasher (take bf ls) (depth + 1) in
      let others = next_level hasher (suc (length ns)) bf (depth + 1) (drop bf ls) in
      let shorter = length-next_level (length ls) bf (depth + 1) ls h in
      let (root, e, c, ok) = build_levels-total fuel bf (depth + 1) first others h (omega arith) in
      (
        root,
        e,
        c ∙ total-next_level (length ls) bf (depth + 1) ls (omega arith) (omega arith),
        λ good. ok (sound-next_level (length ls) bf (depth + 1) ls good),
      )

  pub nonempty : (ls : List Node) → 1 ≤ length ls → (n : Node) × (ns : List Node) × (ls ≡ n ∷ ns)
  nonempty [] h = absurd (omega arith)
  nonempty (n ∷ ns) h = (n, ns, refl)

  -- How many leaves the root has, and that it is sound.
  pub built :
      (t : Tree)
      → 1 ≤ length t.leaves
      → 2 ≤ t.branching_factor
      → (root : Node) × ((build hasher t).1 ≡ some root)
        × (leaf_count root ≡ leaf_counts (nodes_of t.leaves))
        × (verify_nodes hasher (nodes_of t.leaves) ≡ true
            → verify hasher (build hasher t).0 ≡ some true)
  unfolding build verify
  built t h k =
      let (n, ns, e) = nonempty t.leaves h in
      let sorted = sort_leaves (n ∷ ns) in
      let (m, ms, s) = nonempty sorted (omega (arith, length-sort_leaves (n ∷ ns))) in
      let (root, r, c, ok) =
        build_levels-total (length (m ∷ ms)) t.branching_factor 0 m ms k (omega arith) in
      let whole : build_levels hasher (length sorted) t.branching_factor 0 sorted ≡ some root =
        ap (λ z. build_levels hasher (length z) t.branching_factor 0 z) s ∙ r in
      (
        root,
        rw (build, e, whole) refl,
        c ∙ ap total (sym s) ∙ total-sort_leaves (n ∷ ns) ∙ ap total (sym e),
        λ good.
            let checked =
              ok (ap sound (sym s) ∙ sound-sort_leaves (n ∷ ns) (ap sound (sym e) ∙ good)) in
            rw (verify, build, e, whole, checked) refl,
      )

  -- A tree with a leaf and a branching factor of 2 or more passes `Verify` once it is built, if the nodes
  -- that were inserted pass it, as leaves do.
  pub verify-build :
      (t : Tree)
      → 1 ≤ length t.leaves
      → 2 ≤ t.branching_factor
      → verify_nodes hasher (nodes_of t.leaves) ≡ true
      → verify hasher (build hasher t).0 ≡ some true
  verify-build t h k good = let (_, _, _, ok) = built t h k in ok good
