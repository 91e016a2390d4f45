-- ===== src/Layermerkle/Diff/Loops.antt =====
-- pkg/layermerkle/diff.go: what the loops of a diff put into its lists.
use bons_ci.Base.{
  Str, str_key, str_eqb, Bool, false, ◌&&◌, ◌||◌, List, [], ◌∷◌, Option, none, some, if◌then◌else◌,
  any, any-append, ◌≡◌, arith, Option-cases, inl, inr,
}
use bons_ci.Base.Dict.{lookup, insert, UniqueKeys, insert-UniqueKeys}
use bons_ci.Layermerkle.Merkle.{MerkleLeaf}
use bons_ci.Layermerkle.Diff.{
  FileChange, FileDiff, compare_leaf, compare_leaves, collect_removed_leaf, collect_removed_leaves,
  index_leaves_from, added_change, removed_change, both_change,
}

pub data FileClass : Type 0 where
  is_added is_removed is_modified is_unchanged : FileClass

abbrev pub of_class : FileClass → FileDiff → List FileChange
of_class is_added d = d.added
of_class is_removed d = d.removed
of_class is_modified d = d.modified
of_class is_unchanged d = d.unchanged

-- The change that a list should have for a path, by the leaves of the path before and after.
abbrev pub expected : FileClass → Str → Option MerkleLeaf → Option MerkleLeaf → Option FileChange
expected is_added p none (some a) = some (added_change p a)
expected is_removed p (some b) none = some (removed_change p b)
expected is_modified p (some b) (some a) =
    if str_eqb b.hash a.hash then none else some (both_change p b a)
expected is_unchanged p (some b) (some a) =
    if str_eqb b.hash a.hash then some (both_change p b a) else none
expected _ p b a = none

abbrev pub passes : (FileChange → Bool) → Option FileChange → Bool
passes q none = false
passes q (some c) = q c

-- Some change of the path in the list passes the test.
abbrev pub has_change : Str → (FileChange → Bool) → List FileChange → Bool
has_change p q cs = any (λ c. str_eqb p c.rel_path && q c) cs

pub index_leaves_from-UniqueKeys :
    (m : List (Str × MerkleLeaf)) (ls : List MerkleLeaf)
    → UniqueKeys m
    → UniqueKeys (index_leaves_from m ls)
index_leaves_from-UniqueKeys m [] u = u
index_leaves_from-UniqueKeys m (l ∷ ls) u =
    index_leaves_from-UniqueKeys (insert l.rel_path l m) ls (insert-UniqueKeys l.rel_path l m u)

-- What an entry of the later leaves, or one of the earlier, adds to a list.
abbrev pub adds :
    FileClass → List (Str × MerkleLeaf) → (FileChange → Bool) → Str × MerkleLeaf → Bool
adds c before t e = passes t (expected c e.0 (lookup e.0 before) (some e.1))

abbrev pub drops :
    FileClass → List (Str × MerkleLeaf) → (FileChange → Bool) → Str × MerkleLeaf → Bool
drops is_removed after t e = passes t (expected is_removed e.0 (some e.1) (lookup e.0 after))
drops _ after t e = false

compare_leaf-any :
    (c : FileClass) (before : List (Str × MerkleLeaf)) (p : Str) (a : MerkleLeaf) (d : FileDiff)
    (t : FileChange → Bool)
    → any t (of_class c (compare_leaf before p a d))
      ≡ (any t (of_class c d) || adds c before t (p, a))
unfolding compare_leaf
compare_leaf-any is_added before p a d t =
    ground (arith, any-append t d.added (added_change p a ∷ []))
compare_leaf-any is_removed before p a d t = ground arith
compare_leaf-any is_modified before p a d t = elim (Option-cases (lookup p before)) [
  | inl e ↦ ground arith
  | inr (b, e) ↦ ground (arith, any-append t d.modified (both_change p b a ∷ []))
]
compare_leaf-any is_unchanged before p a d t = elim (Option-cases (lookup p before)) [
  | inl e ↦ ground arith
  | inr (b, e) ↦ ground (arith, any-append t d.unchanged (both_change p b a ∷ []))
]

pub compare_leaves-any :
    (c : FileClass) (before es : List (Str × MerkleLeaf)) (d : FileDiff) (t : FileChange → Bool)
    → any t (of_class c (compare_leaves before es d))
      ≡ (any t (of_class c d) || any (adds c before t) es)
unfolding compare_leaves
compare_leaves-any c before [] d t = ground arith
compare_leaves-any c before ((p, a) ∷ es) d t = ground (
  arith,
  compare_leaf-any c before p a d t,
  compare_leaves-any c before es (compare_leaf before p a d) t,
)

collect_removed_leaf-any :
    (c : FileClass) (after : List (Str × MerkleLeaf)) (p : Str) (b : MerkleLeaf) (d : FileDiff)
    (t : FileChange → Bool)
    → any t (of_class c (collect_removed_leaf after p b d))
      ≡ (any t (of_class c d) || drops c after t (p, b))
unfolding collect_removed_leaf
collect_removed_leaf-any is_removed after p b d t =
    ground (arith, any-append t d.removed (removed_change p b ∷ []))
collect_removed_leaf-any is_added after p b d t = ground arith
collect_removed_leaf-any is_modified after p b d t = ground arith
collect_removed_leaf-any is_unchanged after p b d t = ground arith

pub collect_removed_leaves-any :
    (c : FileClass) (after es : List (Str × MerkleLeaf)) (d : FileDiff) (t : FileChange → Bool)
    → any t (of_class c (collect_removed_leaves after es d))
      ≡ (any t (of_class c d) || any (drops c after t) es)
unfolding collect_removed_leaves
collect_removed_leaves-any c after [] d t = ground arith
collect_removed_leaves-any c after ((p, b) ∷ es) d t = ground (
  arith,
  collect_removed_leaf-any c after p b d t,
  collect_removed_leaves-any c after es (collect_removed_leaf after p b d) t,
)
