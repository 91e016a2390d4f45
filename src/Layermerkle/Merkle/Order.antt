-- ===== src/Layermerkle/Merkle/Order.antt =====
-- pkg/layermerkle/merkle.go: the Merkle tree depends on what stands at the paths of the trie, and on no
-- order in which it was put there.
use mathlib.Core.List.{Permᴰ}
use mathlib.Core.List.Permᴰ
use bons_ci.Base.{
  Str, str_key, str_eqb, str_eqb_iff, key_eq_refl, key_eq_sym, Bool, not, List, [], ◌∷◌, none, some,
  is_some, if◌then◌else◌, any, map, ◌≡◌, refl, ◌∙◌, ap, subst, arith, Bool-cases, Option-cases, inl,
  inr,
}
use bons_ci.Base.Sort.{sort_by-Permᴰ, Distinct}
use bons_ci.Base.Segments.{Segments}
use bons_ci.Layermerkle.Trie.{Node, Children, node, empty, entry, full_path, is_dir_of}
use bons_ci.Layermerkle.Trie.Lookup.{child, below, find, HasUniqueKeys, UniqueChildren}
use bons_ci.Layermerkle.Merkle.{
  MerkleNode, file, directory, stored_hash, build_node, build_children, hash_children, nodes_of,
}

-- The map without a key.
unfoldable without : Str → Children → Children
without k empty = empty
without k (entry j n cs) = if str_eqb j k then cs else entry j n (without k cs)

child-without :
    (k j : Str) (cs : Children)
    → UniqueChildren cs
    → child j (without k cs) ≡ (if str_eqb k j then none else child j cs)
unfolding without UniqueChildren
child-without k j empty u = ground arith
child-without k j (entry i n cs) u =
    ground (arith, str_eqb_iff i k, str_eqb_iff i j, str_eqb_iff k j, child-without k j cs u.2, u.0)

without-UniqueChildren :
    (k : Str) (cs : Children) → UniqueChildren cs → UniqueChildren (without k cs)
unfolding without UniqueChildren
without-UniqueChildren k empty u = tt
without-UniqueChildren k (entry i n cs) u = elim (Bool-cases (str_eqb i k)) [
  | inl e ↦ rw e u.2
  | inr e ↦
      rw e (ground (arith, child-without k i cs u.2, u.0), u.1, without-UniqueChildren k cs u.2)
]

child-HasUniqueKeys :
    (k : Str) (m : Node) (cs : Children) → UniqueChildren cs → child k cs ≡ some m → HasUniqueKeys m
unfolding UniqueChildren
child-HasUniqueKeys k m empty u e = absurd (ground arith)
child-HasUniqueKeys k m (entry i n cs) u e = elim (Bool-cases (str_eqb i k)) [
  | inl h ↦ let same : n ≡ m = ground arith in subst HasUniqueKeys same u.1
  | inr h ↦ child-HasUniqueKeys k m cs u.2 (ground arith)
]

-- Maps with the same contents have them without the key of a first entry.
elsewhere :
    (k : Str) (n : Node) (cs ds : Children)
    → child k cs ≡ none
    → UniqueChildren ds
    → ((j : Str) (r : Segments)
        → below (find r) (child j (entry k n cs)) ≡ below (find r) (child j ds))
    → (j : Str) (r : Segments)
    → below (find r) (child j cs) ≡ below (find r) (child j (without k ds))
elsewhere k n cs ds fresh v same j r = elim (Bool-cases (str_eqb k j)) [
  | inl h ↦ let same_key : k ≡ j = (str_eqb_iff k j).0 h in ground (arith, child-without k j ds v)
  | inr h ↦ ground (arith, child-without k j ds v, same j r)
]

module _ (sha256 : Str → Str) where
  abbrev build_child : Str → Node → MerkleNode
  build_child path n =
      if not (is_dir_of n) then file path (stored_hash n) else build_node sha256 path n

  build_children-without :
      (path k : Str) (m : Node) (ds : Children)
      → child k ds ≡ some m
      → Permᴰ
          (build_children sha256 path ds)
          ((k, build_child (full_path path k) m) ∷ build_children sha256 path (without k ds))
  unfolding without build_children
  build_children-without path k m empty e = absurd (ground arith)
  build_children-without path k m (entry i n cs) e = elim (Bool-cases (str_eqb i k)) [
    | inl h ↦
        let same_key : i ≡ k = (str_eqb_iff i k).0 h in
        let same : n ≡ m = ground arith in
        rw h (Permᴰ.cons (rw (same_key, same) refl) (Permᴰ.refl (build_children sha256 path cs)))
    | inr h ↦
        let rest : child k cs ≡ some m = ground arith in
        rw h (
          Permᴰ.trans (Permᴰ.cons refl (build_children-without path k m cs rest))
            (Permᴰ.swap refl refl))
  ]

  any-build_children :
      (path k : Str) (cs : Children)
      → any (λ b. str_eqb k b.0) (build_children sha256 path cs) ≡ is_some (child k cs)
  unfolding build_children
  any-build_children path k empty = refl
  any-build_children path k (entry j n cs) =
      ground (arith, key_eq_sym j k, any-build_children path k cs)

  build_children-Distinct :
      (path : Str) (cs : Children)
      → UniqueChildren cs
      → Distinct (λ e. e.0) (build_children sha256 path cs)
  unfolding build_children UniqueChildren
  build_children-Distinct path empty u = tt
  build_children-Distinct path (entry j n cs) u =
      (any-build_children path j cs ∙ ap is_some u.0, build_children-Distinct path cs u.2)

  build_child-equal :
      (path s t h g : Str) (d e : Bool) (cs ds : Children)
      → UniqueChildren cs
      → h ≡ g
      → d ≡ e
      → Permᴰ (build_children sha256 path cs) (build_children sha256 path ds)
      → build_child path (node s h d cs) ≡ build_child path (node t g e ds)
  unfolding build_node
  build_child-equal path s t h g d e cs ds u same_hash same_kind p =
      let sorted =
        sort_by-Permᴰ (λ e. e.0) (build_children sha256 path cs) (build_children sha256 path ds) p
          (build_children-Distinct path cs u) in
      rw (same_hash, same_kind, sorted) refl

  -- Maps with the same contents have the same children, up to their order.
  build_children-Permᴰ :
      (path : Str) (cs ds : Children)
      → UniqueChildren cs
      → UniqueChildren ds
      → ((k : Str) (r : Segments) → below (find r) (child k cs) ≡ below (find r) (child k ds))
      → Permᴰ (build_children sha256 path cs) (build_children sha256 path ds)
  unfolding build_children HasUniqueKeys
  build_children-Permᴰ path empty empty u v same = Permᴰ.nil
  build_children-Permᴰ path empty (entry k (node s h d cs) ds) u v same =
      absurd (ground (arith, same k [], key_eq_refl k))
  build_children-Permᴰ path (entry k (node s h d c) cs) ds u v same =
      elim (Option-cases (child k ds)) [
        | inl e ↦ absurd (ground (arith, same k [], key_eq_refl k))
        | inr (node t g b c', e) ↦
            let there : (r : Segments) → find r (node s h d c) ≡ find r (node t g b c') =
              λ r. ground (arith, same k r, key_eq_refl k) in
            let inner =
              build_children-Permᴰ (full_path path k) c c' u.1 (child-HasUniqueKeys k _ ds v e)
                (λ j r. there (j ∷ r)) in
            let outer =
              build_children-Permᴰ path cs (without k ds) u.2 (without-UniqueChildren k ds v)
                (elsewhere k (node s h d c) cs ds u.0 v same) in
            let first =
              build_child-equal (full_path path k) s t h g d b c c' u.1 (ground (arith, there []))
                (ground (arith, there [])) inner in
            Permᴰ.trans (Permᴰ.cons (ap (λ x. (k, x)) first) outer)
              (Permᴰ.symm (build_children-without path k (node t g b c') ds e))
      ]

  -- The directory over its children once they are in order.
  abbrev make_directory_of : Str → List (Str × MerkleNode) → MerkleNode
  make_directory_of path sorted =
      directory path (hash_children sha256 (map (λ e. e.1) sorted))
        (nodes_of (map (λ e. e.1) sorted))

  -- Tries with the same hashes and kinds at every path below the root have one Merkle tree.
  pub build_node-equal :
      (path : Str) (n m : Node)
      → HasUniqueKeys n
      → HasUniqueKeys m
      → ((k : Str) (r : Segments) → find (k ∷ r) n ≡ find (k ∷ r) m)
      → build_node sha256 path n ≡ build_node sha256 path m
  unfolding build_node HasUniqueKeys
  build_node-equal path (node s h d cs) (node t g e ds) u v same = ap (make_directory_of path) (
      sort_by-Permᴰ (λ e. e.0) _ _ (build_children-Permᴰ path cs ds u v same)
        (build_children-Distinct path cs u))
