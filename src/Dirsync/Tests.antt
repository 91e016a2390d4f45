-- ===== src/Dirsync/Tests.antt =====
-- internal/dirsync: runs of the code on small inputs.
mod Batches
mod Hashes
use bons_ci.Base.{
  Str, codes, ℕ, Bool, true, false, List, [], ◌∷◌, ◌++◌, Option, none, some, if◌then◌else◌, ◌≡◌,
  refl, arith, str_eqb, Bool-cases, inl, inr,
}
use bons_ci.Dirsync.Types.{FileInfo, ExclusivePath, PathKind, directory, regular}
use bons_ci.Dirsync.Pruning.{empty, add}
use bons_ci.Dirsync.Pruning.Laws.{
  NonOverlapping, removes_any, add_all, add_all-removes, add-NonOverlapping,
}
use bons_ci.Dirsync.Filter.{noop_filter}
use bons_ci.Dirsync.Walker.{
  call_exclusive, call_common, Tree, failed, listing, ReadError, done, WalkFn, walk_both,
  join_rel_path,
}
use bons_ci.Dirsync.Walker.Merge.{walk_lookup, walk_both-walk_lookup, SortedTree}
use bons_ci.Dirsync.Walker.Fuel.{Shallow}
use bons_ci.Dirsync.Walker.Termination.{IsInFuel, CallsEnd, walk_both_total}

abbrev file_info : FileInfo
file_info = record { mode = regular; size = 4 }

abbrev dir_info : FileInfo
dir_info = record { mode = directory; size = 0 }

abbrev lower_file : ExclusivePath
lower_file = record {
  path = codes "a/b";
  kind = PathKind.file;
  info = file_info;
  collapsed = false;
}

abbrev lower_dir : ExclusivePath
lower_dir = record { path = codes "a"; kind = PathKind.dir; info = dir_info; collapsed = true }

abbrev arrivals : List ExclusivePath
arrivals = lower_file ∷ lower_dir ∷ lower_file ∷ []

add_all-removes_example :
    NonOverlapping (add_all empty arrivals).entries
    × (removes_any (add_all empty arrivals).entries (codes "a/b")
        ≡ removes_any arrivals (codes "a/b"))
add_all-removes_example = add_all-removes arrivals (codes "a/b")

-- A lower tree with a directory "a", which holds a file "b", and a file "c"; the upper tree has "c" only.
abbrev lower_tree : Tree
lower_tree p =
    if str_eqb p []
    then listing (
        record { name = codes "a"; info = some dir_info }
        ∷ record { name = codes "c"; info = some file_info }
        ∷ [])
    else if str_eqb p (codes "a")
    then listing (record { name = codes "b"; info = some file_info } ∷ [])
    else failed ReadError.not_exist

abbrev upper_tree : Tree
upper_tree p =
    if str_eqb p []
    then listing (record { name = codes "c"; info = some file_info } ∷ [])
    else failed ReadError.not_exist

-- The callbacks note the paths that they get.
abbrev Log : Type 0
Log = List (Str × Bool)

abbrev log_fn : WalkFn Log
log_fn = record {
  on_exclusive = some (λ e s. done (s ++ (e.path, e.collapsed) ∷ []));
  on_common = some (λ c s. done (s ++ (c.path, false) ∷ []));
}

abbrev never : Log → Option ℕ
never s = none

walk_run :
    walk_both never lower_tree upper_tree noop_filter log_fn 2 [] []
    ≡ done ((codes "a", true) ∷ (codes "c", false) ∷ [])
unfolding walk_both noop_filter
walk_run = refl

lower_tree-SortedTree : SortedTree lower_tree
lower_tree-SortedTree p = elim (Bool-cases (str_eqb p [])) [
  | inl e ↦ rw e ((refl, tt), (tt, tt))
  | inr e ↦ elim (Bool-cases (str_eqb p (codes "a"))) [
    | inl f ↦ rw (e, f) (tt, tt)
    | inr f ↦ rw (e, f) tt
  ]
]

upper_tree-SortedTree : SortedTree upper_tree
upper_tree-SortedTree p = elim (Bool-cases (str_eqb p [])) [
  | inl e ↦ rw e (tt, tt)
  | inr e ↦ rw e tt
]

walk_both-walk_lookup_example :
    walk_both never lower_tree upper_tree noop_filter log_fn 2 [] []
    ≡ walk_lookup never lower_tree upper_tree noop_filter log_fn 2 [] []
walk_both-walk_lookup_example =
    walk_both-walk_lookup never lower_tree upper_tree noop_filter log_fn 2 [] []
      lower_tree-SortedTree upper_tree-SortedTree

lower_tree-Shallow : Shallow 2 lower_tree []
unfolding join_rel_path
lower_tree-Shallow = ((tt, tt), (tt, tt))

log_fn-CallsEnd : CallsEnd log_fn
unfolding call_exclusive call_common
log_fn-CallsEnd = (λ e s. tt, λ c s. tt)

walk_both_total_example :
    IsInFuel (walk_both never lower_tree upper_tree noop_filter log_fn 2 [] [])
    × (walk_both never lower_tree upper_tree noop_filter log_fn 2 [] []
        ≡ walk_both never lower_tree upper_tree noop_filter log_fn 9 [] [])
walk_both_total_example =
    walk_both_total never lower_tree upper_tree noop_filter log_fn log_fn-CallsEnd 2 9 [] []
      (omega arith) lower_tree-Shallow
