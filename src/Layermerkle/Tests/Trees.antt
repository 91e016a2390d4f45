-- ===== src/Layermerkle/Tests/Trees.antt =====
-- pkg/layermerkle: small Merkle trees, and their diffs.
use mathlib.Core.List.{Permᴰ}
use bons_ci.Base.{Str, codes, str_key, str_eqb, true, false, List, [], ◌∷◌, some, ◌≡◌, refl}
use bons_ci.Base.Dict.{lookup}
use bons_ci.Base.Sort.{IsSorted}
use bons_ci.Base.Segments.{split}
use bons_ci.Layermerkle.Trie.{new_root, insert, insert_at, put_child, split_path}
use bons_ci.Layermerkle.Trie.Lookup.{find}
use bons_ci.Layermerkle.Merkle.{
  finalize, new_builder, add, build_node, hash_children, root_digest, HashResult, MerkleTree,
  MerkleForest, add_tree,
}
use bons_ci.Layermerkle.Merkle.Laws
use bons_ci.Layermerkle.Merkle.Laws.{
  add_all, tree_of, tree_of-order, tree_of-counts, tree_of-renamed,
}
use bons_ci.Layermerkle.Diff.{diff_leaves, index_leaves}
use bons_ci.Layermerkle.Diff.Loops.{is_modified, of_class, has_change, passes, expected}
use bons_ci.Layermerkle.Diff.Laws.{diff_leaves_lem}

-- The paths are clean already.
abbrev clean : Str → Str
clean p = p

-- Not a hash function of use, but injective and without a fixed point.
abbrev longer : Str → Str
longer s = 0 ∷ s

abbrev hex : Str → Str
hex s = s

abbrev result : Str → Str → HashResult
result path hash = record {
  rel_path = path;
  hash = hash;
  owner_layer_id = codes "l1";
  from_cache = false;
  failed = false;
}

abbrev a_b : HashResult
a_b = result (codes "a/b") (codes "h1")

abbrev a_c : HashResult
a_c = result (codes "a/c") (codes "h2")

abbrev a : HashResult
a = result (codes "a") (codes "h3")

abbrev tree : List HashResult → MerkleTree
tree rs = tree_of clean longer hex (codes "v1") (codes "l1" ∷ []) rs

two_diverge : Laws.Diverging clean (a_b ∷ a_c ∷ [])
unfolding split_path split
two_diverge = (refl, (refl, tt))

tree_of-order_example :
    ((tree (a_b ∷ a_c ∷ [])).root_node ≡ (tree (a_c ∷ a_b ∷ [])).root_node)
    × ((tree (a_b ∷ a_c ∷ [])).root ≡ (tree (a_c ∷ a_b ∷ [])).root)
tree_of-order_example =
    tree_of-order clean longer hex (codes "v1") (codes "l1" ∷ []) (a_b ∷ a_c ∷ []) (a_c ∷ a_b ∷ [])
      (Permᴰ.swap refl refl) two_diverge

-- A file that becomes a directory, and a directory that becomes a file, give different trees.
conflict_orders : str_eqb (tree (a ∷ a_b ∷ [])).root (tree (a_b ∷ a ∷ [])).root ≡ false
unfolding finalize new_builder new_root add_all add insert insert_at put_child split_path split
    build_node hash_children root_digest
conflict_orders = refl

-- A directory that became a file and then a directory again has its old files back.
stale_file :
    find
      (codes "a" ∷ codes "b" ∷ [])
      (add_all clean (new_builder (codes "v1") []) (a_b ∷ a ∷ a_c ∷ [])).root
    ≡ some (codes "h1", false)
unfolding new_builder new_root add_all add insert insert_at put_child split_path split
stale_file = refl

one_segment : (s : Str) → Laws.segments_of clean (result s (codes "h")) ≡ split_path s
one_segment s = refl

a_segment : split_path (codes "a") ≡ codes "a" ∷ []
unfolding split_path split
a_segment = refl

z_segment : split_path (codes "z") ≡ codes "z" ∷ []
unfolding split_path split
z_segment = refl

tree_of-renamed_example : (tree (a ∷ [])).root ≡ (tree (result (codes "z") (codes "h3") ∷ [])).root
tree_of-renamed_example =
    tree_of-renamed clean longer hex (codes "v1") (codes "l1" ∷ []) a
      (result (codes "z") (codes "h3")) (codes "a") (codes "z") a_segment z_segment refl refl

abbrev before : MerkleTree
before = tree (a_b ∷ a_c ∷ [])

abbrev after : MerkleTree
after = tree (a_b ∷ result (codes "a/c") (codes "h9") ∷ [])

diff_leaves_lem_example :
    (has_change (codes "a/c") (λ c. true) (of_class is_modified (diff_leaves before after))
      ≡ passes
          (λ c. true)
          (expected is_modified
            (codes "a/c")
            (lookup (codes "a/c") (index_leaves before.leaves))
            (lookup (codes "a/c") (index_leaves after.leaves))))
    × IsSorted (λ x. x.rel_path) (of_class is_modified (diff_leaves before after))
diff_leaves_lem_example = diff_leaves_lem is_modified before after (codes "a/c") (λ c. true)

abbrev one : MerkleForest
one = add_tree [] before
