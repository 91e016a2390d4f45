-- ===== src/Fshash/Tests/Trees.antt =====
-- pkg/fshash/merkle: a tree of three leaves.
use bons_ci.Base.{List, Str, str_key, codes, ◌∷◌, some, ◌≡◌, arith}
use bons_ci.Fshash.Layer.Store.{}
use bons_ci.Fshash.Layer.Resolver.Laws.{}
use bons_ci.Fshash.Overlay.Parser.{}
use bons_ci.Fshash.Cache.Sharded.Laws.{}
use bons_ci.Fshash.Access.Bloom.Laws.{}
use bons_ci.Fshash.Merkle.Tree.{
  Node, Nodes, Tree, build, leaf_count, leaf_counts, nodes_of, verify_nodes, verify, new_tree,
  path_of,
}
use bons_ci.Fshash.Merkle.Tree
use bons_ci.Fshash.Merkle.Tree.Leaves.{build_total, leaves_of, all_leaves}
use mathlib.Core.List.{Permᴰ}
use bons_ci.Base.Sort.{IsSorted}
use bons_ci.Fshash.Merkle.Proof.{Proof}
use bons_ci.Fshash.Merkle.Proof.Findings.{three}

-- Not a hash function of use.
abbrev longer : Str → Str
longer s = 0 ∷ s

build_total_example :
    let t = three (codes "x") (codes "y") (codes "z") in
    (root : Node) × (sorted : List Node) × ((build longer t).1 ≡ some root)
    × (leaves_of root ≡ all_leaves sorted)
    × Permᴰ sorted t.leaves
    × IsSorted path_of sorted
unfolding three Tree.new_tree Tree.insert
build_total_example =
    build_total longer (three (codes "x") (codes "y") (codes "z")) (omega arith) (omega arith)
