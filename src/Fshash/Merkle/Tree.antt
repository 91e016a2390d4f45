-- ===== src/Fshash/Merkle/Tree.antt =====
-- pkg/fshash/merkle/tree.go and node.go: the tree over the leaves of a layer. The hash function of package
-- chunk is a parameter; copies of byte slices are the slices.
pub mod Laws
pub mod Leaves
use bons_ci.Base.{
  Str, str_eqb, ℕ, zero, suc, ◌+◌, ◌-◌, Bool, true, false, not, ◌&&◌, List, [], ◌∷◌, ◌++◌, Option,
  none, some, if◌then◌else◌, take, drop, length, ◌==◌, ltb,
}
use bons_ci.Base.Order.{compare_str, Ordering}
use bons_ci.Fshash.Layer.Chain.{LayerId}

-- `Node`, by its kind: a leaf has a path and a layer, a branch has children and a depth.
mutual
  pub data Node : Type 0 where
    leaf : (hash path : Str) (layer : LayerId) → Node
    branch : (hash : Str) (children : Nodes) (depth : ℕ) → Node

  pub data Nodes : Type 0 where
    nil : Nodes
    cons : Node → Nodes → Nodes

abbrev pub hash_of : Node → Str
hash_of (leaf h p l) = h
hash_of (branch h cs d) = h

abbrev pub path_of : Node → Str
path_of (leaf h p l) = p
path_of (branch h cs d) = []

unfoldable mutual
  pub leaf_count : Node → ℕ
  leaf_count (leaf h p l) = 1
  leaf_count (branch h cs d) = leaf_counts cs

  pub leaf_counts : Nodes → ℕ
  leaf_counts nil = 0
  leaf_counts (cons c cs) = leaf_count c + leaf_counts cs

abbrev pub nodes_of : List Node → Nodes
nodes_of [] = nil
nodes_of (n ∷ ns) = cons n (nodes_of ns)

-- The hashes of the children, one after the other.
abbrev pub combined : Nodes → Str
combined nil = []
combined (cons c cs) = hash_of c ++ combined cs

-- `Tree`, with the branching factor of its configuration.
pub record Tree : Type 0 where
  pub branching_factor : ℕ
  pub leaves : List Node
  pub root : Option Node
  pub built : Bool

-- `WithBranchingFactor`: a factor below 2 has no effect.
abbrev pub with_branching_factor : ℕ → Tree → Tree
with_branching_factor n t = if ltb n 2 then t else record t { branching_factor = n }

abbrev pub with_branching_factors : List ℕ → Tree → Tree
with_branching_factors [] t = t
with_branching_factors (n ∷ ns) t = with_branching_factors ns (with_branching_factor n t)

-- `NewTree` with the branching factors of its options, in the order they are applied.
unfoldable pub new_tree : List ℕ → Tree
new_tree factors =
    with_branching_factors factors
      (record { branching_factor = 2; leaves = []; root = none; built = false })

unfoldable pub insert : Tree → Str → Str → LayerId → Tree
insert t path hash layer = record t {
  leaves = t.leaves ++ leaf hash path layer ∷ [];
  built = false;
}

unfoldable pub insert_subtree : Tree → Node → Tree
insert_subtree t n = record t { leaves = t.leaves ++ n ∷ []; built = false }

-- sort.Slice by path.
abbrev pub insert_sorted : Node → List Node → List Node
insert_sorted n [] = n ∷ []
insert_sorted n (m ∷ ms) = elim (compare_str (path_of m) (path_of n)) [
  | Ordering.gt ↦ n ∷ m ∷ ms
  | _ ↦ m ∷ insert_sorted n ms
]

abbrev pub sort_leaves : List Node → List Node
sort_leaves [] = []
sort_leaves (n ∷ ns) = insert_sorted n (sort_leaves ns)

module _ (hasher : Str → Str) where
  unfoldable pub combine_nodes : List Node → ℕ → Node
  combine_nodes children depth =
      branch (hasher (combined (nodes_of children))) (nodes_of children) depth

  -- One level: the groups of the branching factor, the last one shorter.
  unfoldable pub next_level : ℕ → ℕ → ℕ → List Node → List Node
  unfolding combine_nodes
  next_level zero bf depth ns = []
  next_level (suc fuel) bf depth [] = []
  next_level (suc fuel) bf depth (n ∷ ns) =
      combine_nodes (take bf (n ∷ ns)) depth ∷ next_level fuel bf depth (drop bf (n ∷ ns))

  -- The levels up to one node, or `none` where the fuel ends first.
  unfoldable pub build_levels : ℕ → ℕ → ℕ → List Node → Option Node
  unfolding next_level
  build_levels fuel bf depth [] = none
  build_levels fuel bf depth (n ∷ []) = some n
  build_levels zero bf depth (n ∷ m ∷ ns) = none
  build_levels (suc fuel) bf depth (n ∷ m ∷ ns) =
      build_levels fuel bf (depth + 1)
        (next_level (length (n ∷ m ∷ ns)) bf (depth + 1) (n ∷ m ∷ ns))

  -- `Build`: `none` is the error of a tree with no leaves.
  unfoldable pub build : Tree → Tree × Option Node
  unfolding build_levels
  build t = elim t.leaves [
    | [] ↦ (t, none)
    | n ∷ ns ↦
        let sorted = sort_leaves (n ∷ ns) in
        let root = build_levels (length sorted) t.branching_factor 0 sorted in
        (record t { leaves = sorted; root = root; built = true }, root)
  ]

  unfoldable mutual
    -- `verifyNode`
    pub verify_node : Node → Bool
    verify_node (leaf h p l) = true
    verify_node (branch h cs d) = str_eqb h (hasher (combined cs)) && verify_nodes cs

    pub verify_nodes : Nodes → Bool
    verify_nodes nil = true
    verify_nodes (cons c cs) = verify_node c && verify_nodes cs

  -- `Verify`: `none` is the error of a tree that is not built.
  unfoldable pub verify : Tree → Option Bool
  unfolding verify_node
  verify t = elim t.root [ none ↦ none | some n ↦ some (verify_node n) ]

-- `Root` and `LeafCount`
unfoldable pub root_hash : Tree → Option Str
root_hash t = elim t.root [ none ↦ none | some n ↦ some (hash_of n) ]

unfoldable pub inserted : Tree → ℕ
inserted t = length t.leaves
