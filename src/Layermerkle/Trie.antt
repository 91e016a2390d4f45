-- ===== src/Layermerkle/Trie.antt =====
-- pkg/layermerkle/internal/trie/trie.go: the tree of path segments in which the files of a vertex are
-- collected. path.Clean is a parameter.
pub mod Lookup
use bons_ci.Base.{
  Str, str_key, str_eqb, ℕ, ◌+◌, Bool, true, false, not, List, [], ◌∷◌, ◌++◌, if◌then◌else◌, codes,
}
use bons_ci.Base.Segments.{Segments, split}
use bons_ci.Base.Sort.{sort_by}

-- `Node`; the map from segments to children is a list with one entry for each key.
mutual
  pub data Node : Type 0 where
    node : (segment hash : Str) (is_dir : Bool) (children : Children) → Node

  pub data Children : Type 0 where
    empty : Children
    entry : (key : Str) → Node → Children → Children

unfoldable pub new_root : Node
new_root = node [] [] true empty

abbrev pub is_dir_of : Node → Bool
is_dir_of (node s h d cs) = d

-- `splitPath`
unfoldable pub split_path : Str → Segments
split_path p = if str_eqb p [] then [] else if str_eqb p (codes ".") then [] else split p

-- The child that `insert` makes for a segment that has none.
abbrev pub new_child : Str → Segments → Node
new_child seg [] = node seg [] false empty
new_child seg (s ∷ rest) = node seg [] true empty

abbrev pub set_file : Str → Node → Node
set_file hash (node s h d cs) = node s hash false cs

abbrev pub set_dir : Node → Node
set_dir (node s h d cs) = node s h true cs

-- The change of `n.children[seg]`, which is made first if there is none.
unfoldable pub put_child : Str → Node → (Node → Node) → Children → Children
put_child seg fresh change empty = entry seg (change fresh) empty
put_child seg fresh change (entry k n cs) =
    if str_eqb k seg then entry k (change n) cs else entry k n (put_child seg fresh change cs)

-- `insert`
unfoldable pub insert_at : Segments → Str → Node → Node
unfolding put_child
insert_at [] hash n = n
insert_at (seg ∷ []) hash (node s h d cs) =
    node s h d (put_child seg (new_child seg []) (set_file hash) cs)
insert_at (seg ∷ t ∷ rest) hash (node s h d cs) =
    let below = insert_at (t ∷ rest) hash in
    node s h d (put_child seg (new_child seg (t ∷ rest)) (λ c. below (set_dir c)) cs)

module _ (clean : Str → Str) where
  unfoldable pub insert : Node → Str → Str → Node
  unfolding insert_at split_path
  insert n file_path hash = insert_at (split_path (clean file_path)) hash n

unfoldable mutual
  pub len : Node → ℕ
  len (node s h d cs) = if not d then 1 else total cs

  pub total : Children → ℕ
  total empty = 0
  total (entry k n cs) = len n + total cs

-- What a walk is shown: the paths with their nodes, the children of a directory in the order of
-- their keys. The prefix is the path of the node, or empty at the root.
abbrev pub full_path : Str → Str → Str
full_path [] key = key
full_path (c ∷ prefix) key = (c ∷ prefix) ++ b'/' ∷ key

abbrev pub flatten {ℓ} : {A : Type ℓ} → List (Str × List A) → List A
flatten [] = []
flatten ((k, xs) ∷ rest) = xs ++ flatten rest

unfoldable mutual
  pub visits : Str → Node → List (Str × Node)
  visits prefix (node s h d cs) = flatten (sort_by (λ e. e.0) (child_visits prefix cs))

  pub child_visits : Str → Children → List (Str × List (Str × Node))
  child_visits prefix empty = []
  child_visits prefix (entry k n cs) =
      (k, (full_path prefix k, n) ∷ (if is_dir_of n then visits (full_path prefix k) n else []))
      ∷ child_visits prefix cs
