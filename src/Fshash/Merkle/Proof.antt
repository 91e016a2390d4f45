-- ===== src/Fshash/Merkle/Proof.antt =====
-- pkg/fshash/merkle/proof.go: `Proof`. The hash function is a parameter.
pub mod Findings
use bons_ci.Base.{
  Str, str_eqb, ℕ, zero, suc, ◌+◌, ◌-◌, ◌*◌, ◌/◌, Bool, true, false, not, List, [], ◌∷◌, ◌++◌,
  Option, none, some, if◌then◌else◌, take, drop, length, get_elem?, ◌==◌, ltb, map,
}
use bons_ci.Fshash.Merkle.Tree.{Node, Tree, hash_of, path_of, next_level}

-- The siblings with their directions, as the pairs that the two slices of equal length are read as;
-- `true` is a sibling on the right.
pub record Proof : Type 0 where
  pub path : Str
  pub leaf_hash : Str
  pub siblings : List (Str × Bool)

-- The index of the first leaf with the path.
abbrev pub leaf_index : Str → List Node → Option ℕ
leaf_index p [] = none
leaf_index p (n ∷ ns) =
    let rest = leaf_index p ns in
    if str_eqb (path_of n) p then some 0 else elim rest [ none ↦ none | some i ↦ some (suc i) ]

-- The siblings in a group of the child at an index, which is counted from the group's start.
abbrev pub siblings_in : ℕ → ℕ → List Node → List (Str × Bool)
siblings_in i at [] = []
siblings_in i at (n ∷ ns) =
    let rest = siblings_in (suc i) at ns in if i == at then rest else (hash_of n, ltb at i) ∷ rest

-- The siblings in the group that the index falls in.
abbrev pub level_siblings : ℕ → ℕ → List Node → List (Str × Bool)
level_siblings bf idx ns =
    let start = idx / bf * bf in siblings_in 0 (idx - start) (take bf (drop start ns))

module _ (hasher : Str → Str) where
  -- The recomputation of the root.
  unfoldable pub replay : Str → List (Str × Bool) → Str
  replay current [] = current
  replay current ((s, true) ∷ ss) = replay (hasher (current ++ s)) ss
  replay current ((s, false) ∷ ss) = replay (hasher (s ++ current)) ss

  unfoldable pub verify_proof : Proof → Str → Bool
  unfolding replay
  verify_proof p root_hash = str_eqb (replay p.leaf_hash p.siblings) root_hash

  -- The walk up the levels.
  unfoldable pub collect : ℕ → ℕ → ℕ → List Node → List (Str × Bool)
  unfolding next_level
  collect fuel bf idx [] = []
  collect fuel bf idx (n ∷ []) = []
  collect zero bf idx (n ∷ m ∷ ns) = []
  collect (suc fuel) bf idx (n ∷ m ∷ ns) =
      level_siblings bf idx (n ∷ m ∷ ns)
      ++ collect fuel bf (idx / bf) (next_level hasher (length (n ∷ m ∷ ns)) bf 0 (n ∷ m ∷ ns))

  unfoldable pub generate_proof : Tree → Str → Option Proof
  unfolding collect
  generate_proof t path = elim t.root [
    | none ↦ none
    | some _ ↦ elim (leaf_index path t.leaves) [
      | none ↦ none
      | some i ↦ elim (get_elem? t.leaves i) [
        | none ↦ none
        | some n ↦ some (record {
          path = path;
          leaf_hash = hash_of n;
          siblings = collect (length t.leaves) t.branching_factor i t.leaves;
        })
      ]
    ]
  ]
