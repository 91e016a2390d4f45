-- ===== src/Layermerkle/Diff.antt =====
-- pkg/layermerkle/diff.go: the comparison of two forests, and of the leaves of two trees. A loop over a Go
-- map goes through the entries in the order of the list that stands for the map.
pub mod Loops
pub mod Laws
pub mod Numbers
pub mod Forests
use bons_ci.Base.{
  Str, str_key, str_eqb, ℕ, ◌+◌, ◌/◌, ◌%◌, zero, suc, Bool, true, false, ◌&&◌, List, [], ◌∷◌, ◌++◌,
  Option, none, some, if◌then◌else◌, ◌==◌, length, is_some, codes,
}
use bons_ci.Base.Dict.{lookup, insert}
use bons_ci.Base.Sort.{sort_by}
use bons_ci.Layermerkle.Types.{LayerId}
use bons_ci.Layermerkle.Merkle.{VertexId, MerkleTree, MerkleLeaf, MerkleForest, all_trees}

pub record FileChange : Type 0 where
  pub rel_path : Str
  pub before_hash : Str
  pub after_hash : Str
  pub owner_layer_id : LayerId

pub record FileDiff : Type 0 where
  pub added : List FileChange
  pub removed : List FileChange
  pub modified : List FileChange
  pub unchanged : List FileChange

-- `TreeChange`; its file diff is empty until it is asked for.
pub record TreeChange : Type 0 where
  pub vertex_id : VertexId
  pub before : MerkleTree
  pub after : MerkleTree
  pub file_diff : Option FileDiff

pub record ForestDiff : Type 0 where
  pub added : List MerkleTree
  pub removed : List MerkleTree
  pub changed : List TreeChange
  pub unchanged : List MerkleTree

abbrev pub is_nil {ℓ} : {A : Type ℓ} → List A → Bool
is_nil [] = true
is_nil (x ∷ xs) = false

unfoldable pub is_identical : ForestDiff → Bool
is_identical d = is_nil d.added && is_nil d.removed && is_nil d.changed

abbrev pub index_trees_from :
    List (VertexId × MerkleTree) → List MerkleTree → List (VertexId × MerkleTree)
index_trees_from m [] = m
index_trees_from m (t ∷ ts) = index_trees_from (insert t.vertex_id t m) ts

unfoldable pub index_trees : List MerkleTree → List (VertexId × MerkleTree)
index_trees ts = index_trees_from [] ts

abbrev pub index_leaves_from : List (Str × MerkleLeaf) → List MerkleLeaf → List (Str × MerkleLeaf)
index_leaves_from m [] = m
index_leaves_from m (l ∷ ls) = index_leaves_from (insert l.rel_path l m) ls

unfoldable pub index_leaves : List MerkleLeaf → List (Str × MerkleLeaf)
index_leaves ls = index_leaves_from [] ls

abbrev pub new_change : VertexId → MerkleTree → MerkleTree → TreeChange
new_change id a b = record { vertex_id = id; before = a; after = b; file_diff = none }

-- The loop over the trees of the second forest, and the one over those of the first.
unfoldable pub compare_tree :
    List (VertexId × MerkleTree) → VertexId → MerkleTree → ForestDiff → ForestDiff
compare_tree as_all id b d = elim (lookup id as_all) [
  | none ↦ record d { added = d.added ++ b ∷ [] }
  | some a ↦
      if str_eqb a.root b.root
      then record d { unchanged = d.unchanged ++ b ∷ [] }
      else record d { changed = d.changed ++ new_change id a b ∷ [] }
]

unfoldable pub compare_trees :
    List (VertexId × MerkleTree) → List (VertexId × MerkleTree) → ForestDiff → ForestDiff
unfolding compare_tree
compare_trees as_all [] d = d
compare_trees as_all ((id, b) ∷ bs) d = compare_trees as_all bs (compare_tree as_all id b d)

unfoldable pub collect_removed_tree :
    List (VertexId × MerkleTree) → VertexId → MerkleTree → ForestDiff → ForestDiff
collect_removed_tree bs_all id a d =
    if is_some (lookup id bs_all) then d else record d { removed = d.removed ++ a ∷ [] }

unfoldable pub collect_removed_trees :
    List (VertexId × MerkleTree) → List (VertexId × MerkleTree) → ForestDiff → ForestDiff
unfolding collect_removed_tree
collect_removed_trees bs_all [] d = d
collect_removed_trees bs_all ((id, a) ∷ rest) d =
    collect_removed_trees bs_all rest (collect_removed_tree bs_all id a d)

abbrev pub empty_forest_diff : ForestDiff
empty_forest_diff = record { added = []; removed = []; changed = []; unchanged = [] }

unfoldable pub diff : MerkleForest → MerkleForest → ForestDiff
unfolding index_trees compare_trees collect_removed_trees
diff a b =
    let as_all = index_trees (all_trees a) in
    let bs_all = index_trees (all_trees b) in
    let d = collect_removed_trees bs_all as_all (compare_trees as_all bs_all empty_forest_diff) in
    record {
      added = sort_by (λ t. t.vertex_id) d.added;
      removed = sort_by (λ t. t.vertex_id) d.removed;
      changed = sort_by (λ c. c.vertex_id) d.changed;
      unchanged = sort_by (λ t. t.vertex_id) d.unchanged;
    }

-- The loop over the leaves of the later tree, and the one over those of the earlier.
abbrev pub both_change : Str → MerkleLeaf → MerkleLeaf → FileChange
both_change path b a = record {
  rel_path = path;
  before_hash = b.hash;
  after_hash = a.hash;
  owner_layer_id = a.owner_layer_id;
}

abbrev pub added_change : Str → MerkleLeaf → FileChange
added_change path a = record {
  rel_path = path;
  before_hash = [];
  after_hash = a.hash;
  owner_layer_id = [];
}

abbrev pub removed_change : Str → MerkleLeaf → FileChange
removed_change path b = record {
  rel_path = path;
  before_hash = b.hash;
  after_hash = [];
  owner_layer_id = [];
}

unfoldable pub compare_leaf : List (Str × MerkleLeaf) → Str → MerkleLeaf → FileDiff → FileDiff
compare_leaf before path a d = elim (lookup path before) [
  | none ↦ record d { added = d.added ++ added_change path a ∷ [] }
  | some b ↦
      if str_eqb b.hash a.hash
      then record d { unchanged = d.unchanged ++ both_change path b a ∷ [] }
      else record d { modified = d.modified ++ both_change path b a ∷ [] }
]

unfoldable pub compare_leaves :
    List (Str × MerkleLeaf) → List (Str × MerkleLeaf) → FileDiff → FileDiff
unfolding compare_leaf
compare_leaves before [] d = d
compare_leaves before ((path, a) ∷ rest) d =
    compare_leaves before rest (compare_leaf before path a d)

unfoldable pub collect_removed_leaf :
    List (Str × MerkleLeaf) → Str → MerkleLeaf → FileDiff → FileDiff
collect_removed_leaf after path b d =
    if is_some (lookup path after)
    then d
    else record d { removed = d.removed ++ removed_change path b ∷ [] }

unfoldable pub collect_removed_leaves :
    List (Str × MerkleLeaf) → List (Str × MerkleLeaf) → FileDiff → FileDiff
unfolding collect_removed_leaf
collect_removed_leaves after [] d = d
collect_removed_leaves after ((path, b) ∷ rest) d =
    collect_removed_leaves after rest (collect_removed_leaf after path b d)

abbrev pub empty_file_diff : FileDiff
empty_file_diff = record { added = []; removed = []; modified = []; unchanged = [] }

abbrev pub sort_file_changes : List FileChange → List FileChange
sort_file_changes fc = sort_by (λ c. c.rel_path) fc

unfoldable pub diff_leaves : MerkleTree → MerkleTree → FileDiff
unfolding compare_leaves collect_removed_leaves index_leaves
diff_leaves before after =
    let old = index_leaves before.leaves in
    let new = index_leaves after.leaves in
    let d = collect_removed_leaves new old (compare_leaves old new empty_file_diff) in
    record {
      added = sort_file_changes d.added;
      removed = sort_file_changes d.removed;
      modified = sort_file_changes d.modified;
      unchanged = sort_file_changes d.unchanged;
    }

-- `ComputeFileDiff`: the change with its diff filled in, and the diff.
unfoldable pub compute_file_diff : TreeChange → TreeChange × FileDiff
unfolding diff_leaves
compute_file_diff tc = elim tc.file_diff [
  | some d ↦ (tc, d)
  | none ↦ let d = diff_leaves tc.before tc.after in (record tc { file_diff = some d }, d)
]

-- `itoa`: the digits are written from the last one on; the fuel bounds their number.
abbrev pub digits : ℕ → ℕ → Str → Str
digits zero n acc = acc
digits (suc fuel) n acc = if n == 0 then acc else digits fuel (n / 10) ((48 + n % 10) ∷ acc)

unfoldable pub itoa : ℕ → Str
itoa n = if n == 0 then codes "0" else digits n n []

unfoldable pub summary : ForestDiff → Str
unfolding itoa
summary d =
    codes "ForestDiff{added="
    ++ itoa (length d.added)
    ++ codes " removed="
    ++ itoa (length d.removed)
    ++ codes " changed="
    ++ itoa (length d.changed)
    ++ codes " unchanged="
    ++ itoa (length d.unchanged)
    ++ codes "}"
