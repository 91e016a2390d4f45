-- ===== src/Layermerkle/Merkle.antt =====
-- pkg/layermerkle/merkle.go, and newDigest of internal/digest/digest.go: the Merkle tree over the files
-- that a vertex accessed. SHA-256, hexadecimal printing and path.Clean are parameters; times are left out.
pub mod Order
pub mod Laws
use bons_ci.Base.{
  Str, str_key, str_eqb, ℕ, ◌+◌, Bool, true, false, not, ◌||◌, List, [], ◌∷◌, ◌++◌, Option, none,
  some, if◌then◌else◌, codes, map, length,
}
use bons_ci.Base.Dict as Dict
use bons_ci.Base.Sort.{sort_by}
use bons_ci.Layermerkle.Types.{LayerId}
use bons_ci.Layermerkle.Trie.{
  Node, Children, node, empty, entry, new_root, is_dir_of, insert, full_path,
}

-- The digest of an ExecOp vertex.
abbrev pub VertexId : Type 0
VertexId = Str

pub record HashResult : Type 0 where
  pub rel_path : Str
  pub hash : Str
  pub owner_layer_id : LayerId
  pub from_cache : Bool
  pub failed : Bool

pub record MerkleLeaf : Type 0 where
  pub rel_path : Str
  pub hash : Str
  pub owner_layer_id : LayerId
  pub from_cache : Bool

-- `MerkleNode`: one with a leaf, and one with children.
mutual
  pub data MerkleNode : Type 0 where
    file : (path hash : Str) → MerkleNode
    directory : (path hash : Str) (children : MerkleNodes) → MerkleNode

  pub data MerkleNodes : Type 0 where
    nil : MerkleNodes
    cons : MerkleNode → MerkleNodes → MerkleNodes

abbrev pub is_leaf : MerkleNode → Bool
is_leaf (file p h) = true
is_leaf (directory p h cs) = false

abbrev pub hash_of : MerkleNode → Str
hash_of (file p h) = h
hash_of (directory p h cs) = h

abbrev pub nodes_of : List MerkleNode → MerkleNodes
nodes_of [] = nil
nodes_of (n ∷ ns) = cons n (nodes_of ns)

pub record MerkleTree : Type 0 where
  pub vertex_id : VertexId
  pub layer_stack : List LayerId
  pub root : Str
  pub root_node : MerkleNode
  pub leaves : List MerkleLeaf
  pub leaf_count : ℕ
  pub cache_hit_count : ℕ

pub record MerkleTreeBuilder : Type 0 where
  pub vertex_id : VertexId
  pub layer_stack : List LayerId
  pub root : Node
  pub leaves : List MerkleLeaf
  pub hit_count : ℕ

unfoldable pub new_builder : VertexId → List LayerId → MerkleTreeBuilder
new_builder vertex_id stack = record {
  vertex_id = vertex_id;
  layer_stack = stack;
  root = new_root;
  leaves = [];
  hit_count = 0;
}

abbrev pub new_leaf : HashResult → MerkleLeaf
new_leaf r = record {
  rel_path = r.rel_path;
  hash = r.hash;
  owner_layer_id = r.owner_layer_id;
  from_cache = r.from_cache;
}

-- The guard of `Add`.
abbrev pub is_ignored : HashResult → Bool
is_ignored r = r.failed || str_eqb r.hash []

unfoldable pub add : (Str → Str) → MerkleTreeBuilder → HashResult → MerkleTreeBuilder
add clean b r = if is_ignored r then b else record b {
  root = insert clean b.root r.rel_path r.hash;
  leaves = b.leaves ++ new_leaf r ∷ [];
  hit_count = b.hit_count + (if r.from_cache then 1 else 0);
}

abbrev pub stored_hash : Node → Str
stored_hash (node s h d cs) = h

abbrev pub concat_hashes : List MerkleNode → Str
concat_hashes [] = []
concat_hashes (c ∷ cs) = hash_of c ++ concat_hashes cs

module _ (sha256 : Str → Str) where
  unfoldable pub hash_children : List MerkleNode → Str
  hash_children [] = []
  hash_children (c ∷ cs) = sha256 (concat_hashes (c ∷ cs))

  -- A directory over its children in the order of their segments.
  abbrev pub make_directory : Str → List (Str × MerkleNode) → MerkleNode
  make_directory path children =
      let sorted = map (λ e. e.1) (sort_by (λ e. e.0) children) in
      directory path (hash_children sorted) (nodes_of sorted)

  unfoldable mutual
    -- `buildMerkleNode`
    pub build_node : Str → Node → MerkleNode
    build_node path (node s h d cs) = make_directory path (build_children path cs)

    pub build_children : Str → Children → List (Str × MerkleNode)
    build_children path empty = []
    build_children path (entry k n cs) =
        (
          k,
          if not (is_dir_of n)
              then file (full_path path k) (stored_hash n)
              else build_node (full_path path k) n,
        )
        ∷ build_children path cs

  module _ (hex : Str → Str) where
    -- `computeRootDigest`
    unfoldable pub root_digest : MerkleNode → Str
    root_digest root =
        if str_eqb (hash_of root) [] then [] else codes "sha256:" ++ hex (hash_of root)

    -- `Finalize`. Leaves of one path keep their order, which sort.Slice leaves open.
    unfoldable pub finalize : MerkleTreeBuilder → MerkleTree
    unfolding root_digest build_node
    finalize b =
        let root_node = build_node [] b.root in
        record {
          vertex_id = b.vertex_id;
          layer_stack = b.layer_stack;
          root = root_digest root_node;
          root_node = root_node;
          leaves = sort_by (λ l. l.rel_path) b.leaves;
          leaf_count = length b.leaves;
          cache_hit_count = b.hit_count;
        }

-- `MerkleForest`
abbrev pub MerkleForest : Type 0
MerkleForest = List (VertexId × MerkleTree)

abbrev pub add_tree : MerkleForest → MerkleTree → MerkleForest
add_tree f t = Dict.insert t.vertex_id t f

abbrev pub get_tree : MerkleForest → VertexId → Option MerkleTree
get_tree f id = Dict.lookup id f

abbrev pub all_trees : MerkleForest → List MerkleTree
all_trees f = sort_by (λ t. t.vertex_id) (map (λ e. e.1) f)

abbrev pub tree_count : MerkleForest → ℕ
tree_count f = length f
