-- ===== src/Layermerkle/Diff/Laws.antt =====
-- pkg/layermerkle/diff.go: which list of a diff each path is in.
use bons_ci.Base.{
  Str, str_key, str_eqb, str_eqb_iff, Bool, false, ◌&&◌, ◌||◌, List, [], ◌∷◌, Option, none, some,
  any, ◌≡◌, refl, ◌∙◌, arith, Bool-cases, inl, inr,
}
use bons_ci.Base.Dict.{lookup, UniqueKeys, any-lookup}
use bons_ci.Base.Sort.{sort_by, any-sort_by, IsSorted, sort_by-IsSorted}
use bons_ci.Layermerkle.Merkle.{MerkleTree, MerkleLeaf}
use bons_ci.Layermerkle.Diff.{
  FileChange, compare_leaves, collect_removed_leaves, index_leaves, diff_leaves, empty_file_diff,
}
use bons_ci.Layermerkle.Diff.Loops.{
  FileClass, of_class, expected, passes, has_change, is_added, is_removed, is_modified,
  is_unchanged, index_leaves_from-UniqueKeys, adds, drops, compare_leaves-any,
  collect_removed_leaves-any,
}

-- A change is for the path that it was made for.
expected-path :
    (c : FileClass) (p j : Str) (b a : Option MerkleLeaf) (q : FileChange → Bool)
    → passes (λ x. str_eqb p x.rel_path && q x) (expected c j b a)
      ≡ (str_eqb p j && passes q (expected c j b a))
expected-path is_added p j none none q = ground arith
expected-path is_added p j none (some a) q = refl
expected-path is_added p j (some b) a q = ground arith
expected-path is_removed p j none a q = ground arith
expected-path is_removed p j (some b) none q = refl
expected-path is_removed p j (some b) (some a) q = ground arith
expected-path is_modified p j (some b) (some a) q = ground arith
expected-path is_modified p j (some b) none q = ground arith
expected-path is_modified p j none a q = ground arith
expected-path is_unchanged p j (some b) (some a) q = ground arith
expected-path is_unchanged p j (some b) none q = ground arith
expected-path is_unchanged p j none a q = ground arith

guarded : (p j : Str) (f : Str → Bool) → (str_eqb p j && f j) ≡ (str_eqb p j && f p)
guarded p j f = elim (Bool-cases (str_eqb p j)) [
  | inl e ↦ let same : p ≡ j = (str_eqb_iff p j).0 e in rw same refl
  | inr e ↦ rw e refl
]

adds-lookup :
    (c : FileClass) (before after : List (Str × MerkleLeaf)) (p : Str) (q : FileChange → Bool)
    → UniqueKeys after
    → any (adds c before (λ x. str_eqb p x.rel_path && q x)) after ≡ elim (lookup p after) [
      | none ↦ false
      | some a ↦ passes q (expected c p (lookup p before) (some a))
    ]
adds-lookup c before after p q u =
    any-lookup p (λ a. passes q (expected c p (lookup p before) (some a)))
      (adds c before (λ x. str_eqb p x.rel_path && q x)) after
      (λ j a.
        expected-path c p j (lookup j before) (some a) q
        ∙ guarded p j (λ k. passes q (expected c k (lookup k before) (some a))))
      u

drops-lookup :
    (after before : List (Str × MerkleLeaf)) (p : Str) (q : FileChange → Bool)
    → UniqueKeys before
    → any (drops is_removed after (λ x. str_eqb p x.rel_path && q x)) before
      ≡ elim (lookup p before) [
        | none ↦ false
        | some b ↦ passes q (expected is_removed p (some b) (lookup p after))
      ]
drops-lookup after before p q u =
    any-lookup p (λ b. passes q (expected is_removed p (some b) (lookup p after)))
      (drops is_removed after (λ x. str_eqb p x.rel_path && q x)) before
      (λ j b.
        expected-path is_removed p j (some b) (lookup j after) q
        ∙ guarded p j (λ k. passes q (expected is_removed k (some b) (lookup k after))))
      u

any-false {ℓ} : {A : Type ℓ} (xs : List A) → any (λ x. false) xs ≡ false
any-false [] = refl
any-false (x ∷ xs) = any-false xs

sorted_class :
    (c : FileClass) (before after : MerkleTree)
    → of_class c (diff_leaves before after)
      ≡ sort_by
          (λ x. x.rel_path)
          (of_class c (
            collect_removed_leaves (index_leaves after.leaves) (index_leaves before.leaves) (
              compare_leaves
                (index_leaves before.leaves)
                (index_leaves after.leaves)
                empty_file_diff)))
unfolding diff_leaves
sorted_class is_added before after = refl
sorted_class is_removed before after = refl
sorted_class is_modified before after = refl
sorted_class is_unchanged before after = refl

abbrev from_removed : FileClass → Bool → Bool
from_removed is_removed b = b
from_removed _ b = false

drops-class :
    (c : FileClass) (after es : List (Str × MerkleLeaf)) (t : FileChange → Bool)
    → any (drops c after t) es ≡ from_removed c (any (drops is_removed after t) es)
drops-class is_removed after es t = refl
drops-class is_added after es t = any-false es
drops-class is_modified after es t = any-false es
drops-class is_unchanged after es t = any-false es

-- The verdict on the two leaves of a path, from what the two loops find.
both_loops :
    (c : FileClass) (p : Str) (q : FileChange → Bool) (b a : Option MerkleLeaf)
    → (elim a [ none ↦ false | some l ↦ passes q (expected c p b (some l)) ]
        || from_removed c
            (elim b [ none ↦ false | some l ↦ passes q (expected is_removed p (some l) a) ]))
      ≡ passes q (expected c p b a)
both_loops is_added p q none none = refl
both_loops is_added p q none (some a) = ground arith
both_loops is_added p q (some b) a = ground arith
both_loops is_removed p q none a = ground arith
both_loops is_removed p q (some b) none = refl
both_loops is_removed p q (some b) (some a) = ground arith
both_loops is_modified p q b none = ground arith
both_loops is_modified p q none (some a) = ground arith
both_loops is_modified p q (some b) (some a) = ground arith
both_loops is_unchanged p q b none = ground arith
both_loops is_unchanged p q none (some a) = ground arith
both_loops is_unchanged p q (some b) (some a) = ground arith

empty_class : (c : FileClass) → of_class c empty_file_diff ≡ []
empty_class is_added = refl
empty_class is_removed = refl
empty_class is_modified = refl
empty_class is_unchanged = refl

index_leaves-UniqueKeys : (ls : List MerkleLeaf) → UniqueKeys (index_leaves ls)
unfolding index_leaves
index_leaves-UniqueKeys ls = index_leaves_from-UniqueKeys [] ls tt

-- Each list of a diff of two trees is sorted by path, and what it holds for a path is decided by the last
-- leaves of the path: only an earlier one is removed, only a later one is added, and if there are both
-- the path is unchanged or modified as their hashes are equal or not.
pub diff_leaves_lem :
    (c : FileClass) (before after : MerkleTree) (p : Str) (q : FileChange → Bool)
    → (has_change p q (of_class c (diff_leaves before after))
        ≡ passes q (
            expected c p
              (lookup p (index_leaves before.leaves))
              (lookup p (index_leaves after.leaves))))
      × IsSorted (λ x. x.rel_path) (of_class c (diff_leaves before after))
diff_leaves_lem c before after p q =
    let old = index_leaves before.leaves in
    let new = index_leaves after.leaves in
    let t : FileChange → Bool = λ x. str_eqb p x.rel_path && q x in
    let later = compare_leaves old new empty_file_diff in
    let loops : any t (of_class c (collect_removed_leaves new old later))
        ≡ passes q (expected c p (lookup p old) (lookup p new)) =
      ground (
        arith,
        collect_removed_leaves-any c new old later t,
        compare_leaves-any c old new empty_file_diff t,
        empty_class c,
        drops-class c new old t,
        adds-lookup c old new p q (index_leaves-UniqueKeys after.leaves),
        drops-lookup new old p q (index_leaves-UniqueKeys before.leaves),
        both_loops c p q (lookup p old) (lookup p new),
      ) in
    rw (sorted_class c before after) (
      any-sort_by (λ x. x.rel_path) t (of_class c (collect_removed_leaves new old later)) ∙ loops,
      sort_by-IsSorted (λ x. x.rel_path) (of_class c (collect_removed_leaves new old later)),
    )
