-- ===== src/Layermerkle/Merkle/Laws.antt =====
-- pkg/layermerkle/merkle.go: what Finalize answers for the results that were added.
use mathlib.Core.List.{Permᴰ}
use bons_ci.Base.{
  Str, str_key, str_eqb, str_eqb_iff, key_eq_sym, ◌+◌, Bool, true, false, not, ◌&&◌, List, [], ◌∷◌,
  Option, none, some, if◌then◌else◌, all, count_if, length, length-append, ◌≡◌, refl, sym, ◌∙◌, ap,
  arith, Bool-cases, inl, inr,
}
use bons_ci.Base.Sort.{IsSorted, sort_by-IsSorted}
use bons_ci.Base.Segments.{Segments}
use bons_ci.Layermerkle.Types.{LayerId}
use bons_ci.Layermerkle.Trie.{insert, insert_at, split_path, new_root, put_child}
use bons_ci.Layermerkle.Trie.Lookup.{
  find, write, find-insert_at, HasUniqueKeys, insert_at-HasUniqueKeys,
}
use bons_ci.Layermerkle.Merkle.{
  VertexId, HashResult, MerkleTreeBuilder, MerkleTree, new_builder, is_ignored, add, new_leaf,
  finalize, build_node, root_digest, hash_children,
}
use bons_ci.Layermerkle.Merkle.Order.{build_node-equal}

-- Neither path is the other or above it.
abbrev pub diverge : Segments → Segments → Bool
diverge (s ∷ p) (t ∷ q) = if str_eqb s t then diverge p q else true
diverge _ _ = false

diverge_sym : (p q : Segments) → diverge p q ≡ diverge q p
diverge_sym [] [] = refl
diverge_sym [] (t ∷ q) = refl
diverge_sym (s ∷ p) [] = refl
diverge_sym (s ∷ p) (t ∷ q) = ground (arith, key_eq_sym s t, diverge_sym p q)

write_swap :
    (p q at : Segments) (h g : Str) (old : Option (Str × Bool))
    → diverge p q ≡ true
    → write p h at (write q g at old) ≡ write q g at (write p h at old)
write_swap [] q at h g old e = absurd (ground arith)
write_swap (s ∷ p) [] at h g old e = absurd (ground arith)
write_swap (s ∷ p) (t ∷ q) [] h g none e = refl
write_swap (s ∷ p) (t ∷ q) [] h g (some (f, d)) e = refl
write_swap (s ∷ p) (t ∷ q) (k ∷ at) h g old e =
    ground (arith, str_eqb_iff s t, str_eqb_iff s k, str_eqb_iff t k, write_swap p q at h g old)

module _ (clean : Str → Str) where
  abbrev pub segments_of : HashResult → Segments
  segments_of r = split_path (clean r.rel_path)

  unfoldable pub add_all : MerkleTreeBuilder → List HashResult → MerkleTreeBuilder
  add_all b [] = b
  add_all b (r ∷ rs) = add_all (add clean b r) rs

  -- No two of the results are for one path, or for a path and one below it.
  abbrev pub Diverging : List HashResult → Type 0
  Diverging [] = Unit
  Diverging (r ∷ rs) = (all (λ x. diverge (segments_of r) (segments_of x)) rs ≡ true) × Diverging rs

  all-Permᴰ : (p : HashResult → Bool) (xs ys : List HashResult) → Permᴰ xs ys → all p xs ≡ all p ys
  all-Permᴰ p _ _ Permᴰ.nil = refl
  all-Permᴰ p (a ∷ xs) (b ∷ ys) (Permᴰ.cons e d) = ground (arith, all-Permᴰ p xs ys d)
  all-Permᴰ p (a ∷ b ∷ xs) (c ∷ d ∷ _) (Permᴰ.swap e f) = ground arith
  all-Permᴰ p xs ys (Permᴰ.trans {l₂ = zs} d e) = all-Permᴰ p xs zs d ∙ all-Permᴰ p zs ys e

  Diverging-Permᴰ : (xs ys : List HashResult) → Permᴰ xs ys → Diverging xs → Diverging ys
  Diverging-Permᴰ _ _ Permᴰ.nil h = tt
  Diverging-Permᴰ (a ∷ xs) (b ∷ ys) (Permᴰ.cons e d) h = (
    ground (arith, all-Permᴰ (λ c. diverge (segments_of b) (segments_of c)) xs ys d),
    Diverging-Permᴰ xs ys d h.1,
  )
  Diverging-Permᴰ (a ∷ b ∷ xs) (c ∷ d ∷ _) (Permᴰ.swap e f) h =
      ground (arith, diverge_sym (segments_of a) (segments_of b))
  Diverging-Permᴰ xs ys (Permᴰ.trans {l₂ = zs} d e) h =
      Diverging-Permᴰ zs ys e (Diverging-Permᴰ xs zs d h)

  effect : HashResult → Segments → Option (Str × Bool) → Option (Str × Bool)
  effect r at old = if is_ignored r then old else write (segments_of r) r.hash at old

  effects : List HashResult → Segments → Option (Str × Bool) → Option (Str × Bool)
  effects [] at old = old
  effects (r ∷ rs) at old = effects rs at (effect r at old)

  find-add_all :
      (b : MerkleTreeBuilder) (rs : List HashResult) (k : Str) (at : Segments)
      → find (k ∷ at) (add_all b rs).root ≡ effects rs (k ∷ at) (find (k ∷ at) b.root)
  unfolding add_all add insert effects effect
  find-add_all b [] k at = refl
  find-add_all b (r ∷ rs) k at =
      find-add_all (add clean b r) rs k at
      ∙ ap (effects rs (k ∷ at)) (ground (arith, find-insert_at (segments_of r) r.hash k at b.root))

  effects-Permᴰ :
      (xs ys : List HashResult) (at : Segments) (old : Option (Str × Bool))
      → Permᴰ xs ys
      → Diverging xs
      → effects xs at old ≡ effects ys at old
  unfolding effects effect
  effects-Permᴰ _ _ at old Permᴰ.nil h = refl
  effects-Permᴰ (a ∷ xs) (b ∷ ys) at old (Permᴰ.cons e d) h =
      rw e (effects-Permᴰ xs ys at (effect b at old) d h.1)
  effects-Permᴰ (a ∷ b ∷ xs) (c ∷ d ∷ _) at old (Permᴰ.swap e f) h =
      let both = write_swap (segments_of b) (segments_of a) at b.hash a.hash old in
      rw (e, f)
        (ap (effects xs at) (ground (arith, both, diverge_sym (segments_of a) (segments_of b))))
  effects-Permᴰ xs ys at old (Permᴰ.trans {l₂ = zs} d e) h =
      effects-Permᴰ xs zs at old d h ∙ effects-Permᴰ zs ys at old e (Diverging-Permᴰ xs zs d h)

  add-HasUniqueKeys :
      (b : MerkleTreeBuilder) (r : HashResult)
      → HasUniqueKeys b.root
      → HasUniqueKeys (add clean b r).root
  unfolding add insert
  add-HasUniqueKeys b r u = elim (Bool-cases (is_ignored r)) [
    | inl e ↦ rw e u
    | inr e ↦ rw e (insert_at-HasUniqueKeys (segments_of r) r.hash b.root u)
  ]

  add_all-HasUniqueKeys :
      (b : MerkleTreeBuilder) (rs : List HashResult)
      → HasUniqueKeys b.root
      → HasUniqueKeys (add_all b rs).root
  unfolding add_all
  add_all-HasUniqueKeys b [] u = u
  add_all-HasUniqueKeys b (r ∷ rs) u =
      add_all-HasUniqueKeys (add clean b r) rs (add-HasUniqueKeys b r u)

  add_all-leaves :
      (b : MerkleTreeBuilder) (rs : List HashResult)
      → (length (add_all b rs).leaves ≡ length b.leaves + count_if (λ r. not (is_ignored r)) rs)
        × ((add_all b rs).hit_count
            ≡ b.hit_count + count_if (λ r. not (is_ignored r) && r.from_cache) rs)
  unfolding add_all add
  add_all-leaves b [] = (omega arith, omega arith)
  add_all-leaves b (r ∷ rs) =
      ground (arith, add_all-leaves (add clean b r) rs, length-append b.leaves (new_leaf r ∷ []))

  module _ (sha256 hex : Str → Str) where
    -- The tree of a vertex to which the results are added one after the other.
    abbrev pub tree_of : VertexId → List LayerId → List HashResult → MerkleTree
    tree_of v stack rs = finalize sha256 hex (add_all (new_builder v stack) rs)

    -- Results for paths of which none is another or above it give the same Merkle tree and the same root
    -- digest in whatever order they are added.
    pub tree_of-order :
        (v : VertexId) (stack : List LayerId) (xs ys : List HashResult)
        → Permᴰ xs ys
        → Diverging xs
        → ((tree_of v stack xs).root_node ≡ (tree_of v stack ys).root_node)
          × ((tree_of v stack xs).root ≡ (tree_of v stack ys).root)
    unfolding finalize new_builder new_root HasUniqueKeys
    tree_of-order v stack xs ys p h =
        let b = new_builder v stack in
        let same =
          build_node-equal sha256 [] (add_all b xs).root (add_all b ys).root
            (add_all-HasUniqueKeys b xs tt) (add_all-HasUniqueKeys b ys tt)
            (λ k at.
              find-add_all b xs k at
              ∙ effects-Permᴰ xs ys (k ∷ at) none p h
              ∙ sym (find-add_all b ys k at)) in
        (same, ap (root_digest sha256 hex) same)

    -- A tree has a leaf for each result with a hash and without an error, counts those among them that came
    -- from the cache, and lists its leaves in the order of their paths.
    pub tree_of-counts :
        (v : VertexId) (stack : List LayerId) (rs : List HashResult)
        → ((tree_of v stack rs).leaf_count ≡ count_if (λ r. not (is_ignored r)) rs)
          × ((tree_of v stack rs).cache_hit_count
              ≡ count_if (λ r. not (is_ignored r) && r.from_cache) rs)
          × IsSorted (λ l. l.rel_path) (tree_of v stack rs).leaves
    unfolding finalize new_builder
    tree_of-counts v stack rs =
        let b = new_builder v stack in
        let (leaves, hits) = add_all-leaves b rs in
        (
          omega (arith, leaves),
          omega (arith, hits),
          sort_by-IsSorted (λ l. l.rel_path) (add_all b rs).leaves,
        )

    -- A tree of one file at the top has the same root digest under any name of the file.
    pub tree_of-renamed :
        (v : VertexId) (stack : List LayerId) (r x : HashResult) (s t : Str)
        → segments_of r ≡ s ∷ []
        → segments_of x ≡ t ∷ []
        → r.hash ≡ x.hash
        → r.failed ≡ x.failed
        → (tree_of v stack (r ∷ [])).root ≡ (tree_of v stack (x ∷ [])).root
    unfolding finalize new_builder add_all add insert insert_at put_child new_root build_node
        hash_children root_digest
    tree_of-renamed v stack r x s t e f same failed = elim (Bool-cases (is_ignored x)) [
      | inl h ↦ rw (same, failed, h) refl
      | inr h ↦ rw (same, failed, h, e, f) refl
    ]
