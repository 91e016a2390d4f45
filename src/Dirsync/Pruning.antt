-- ===== src/Dirsync/Pruning.antt =====
-- internal/dirsync/pruning_set.go: `PruningSet`. Every method holds the mutex from its first to its
-- last access of the entries, so each is one step from state to state.
pub mod Laws
use bons_ci.Base.{
  Str, ℕ, Bool, true, false, not, ◌&&◌, List, [], ◌∷◌, ◌++◌, any, keep, length, if◌then◌else◌,
}
use bons_ci.Dirsync.Types.{ExclusivePath}
use bons_ci.Dirsync.Paths.{is_path_under}

pub record PruningSet : Type 0 where
  pub entries : List ExclusivePath

-- The zero value, ready to use.
abbrev pub empty : PruningSet
empty = record { entries = [] }

-- The test of the loops of `Add` and `Covered`.
abbrev pub covers : ExclusivePath → Str → Bool
covers e p = e.collapsed && is_path_under p e.path

unfoldable pub covered : PruningSet → Str → Bool
covered ps path = any (λ e. covers e path) ps.entries

unfoldable pub add : PruningSet → ExclusivePath → PruningSet × Bool
add ps ep =
    if any (λ e. covers e ep.path) ps.entries
    then (ps, false)
    else if ep.collapsed
    then (
      record { entries = keep (λ e. not (is_path_under e.path ep.path)) ps.entries ++ ep ∷ [] },
      true,
    )
    else (record { entries = ps.entries ++ ep ∷ [] }, true)

unfoldable pub len : PruningSet → ℕ
len ps = length ps.entries

-- `Drain` hands the entries out, in order, and leaves the set empty.
unfoldable pub drain : PruningSet → PruningSet × List ExclusivePath
drain ps = (empty, ps.entries)

unfoldable pub reset : PruningSet → PruningSet
reset ps = empty
