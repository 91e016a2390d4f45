-- ===== src/Dirsync/Pruning/Laws.antt =====
-- internal/dirsync/pruning_set.go: what the set guarantees.
use bons_ci.Base.{
  Str, str_eqb, str_eqb_iff, Bool, true, false, not, ◌||◌, List, [], ◌∷◌, ◌++◌, any, keep, All,
  All-append, All-keep, if◌then◌else◌, ◌≡◌, refl, arith, any-append,
}
use bons_ci.Dirsync.Types.{ExclusivePath}
use bons_ci.Dirsync.Paths.{is_path_under, is_path_under_trans}
use bons_ci.Dirsync.Pruning.{PruningSet, covers, covered, add, empty}

-- What a consumer deletes for an entry: the subtree of a collapsed one, else the path alone.
abbrev pub removes : ExclusivePath → Str → Bool
removes e p = if e.collapsed then is_path_under p e.path else str_eqb p e.path

abbrev pub removes_any : List ExclusivePath → Str → Bool
removes_any l p = any (λ e. removes e p) l

abbrev pub Separate : ExclusivePath → ExclusivePath → Type 0
Separate e f = (covers e f.path ≡ false) × (covers f e.path ≡ false)

-- No entry stands under another, collapsed one.
abbrev pub NonOverlapping : List ExclusivePath → Type 0
NonOverlapping [] = Unit
NonOverlapping (e ∷ l) = All (Separate e) l × NonOverlapping l

NonOverlapping-snoc :
    (l : List ExclusivePath) (ep : ExclusivePath)
    → NonOverlapping l
    → All (λ e. Separate e ep) l
    → NonOverlapping (l ++ ep ∷ [])
NonOverlapping-snoc [] ep h s = (tt, tt)
NonOverlapping-snoc (e ∷ l) ep h s =
    (All-append (Separate e) l (ep ∷ []) h.0 (s.0, tt), NonOverlapping-snoc l ep h.1 s.1)

NonOverlapping-keep :
    (p : ExclusivePath → Bool) (l : List ExclusivePath)
    → NonOverlapping l
    → NonOverlapping (keep p l)
NonOverlapping-keep p [] h = tt
NonOverlapping-keep p (e ∷ l) h =
    ground (arith, All-keep (Separate e) p l h.0, NonOverlapping-keep p l h.1)

module _ (ep : ExclusivePath) where
  -- What is not covered by the set, and covers nothing of it, is separate from it.
  Separate-uncollapsed :
      (l : List ExclusivePath)
      → any (λ e. covers e ep.path) l ≡ false
      → ep.collapsed ≡ false
      → All (λ e. Separate e ep) l
  Separate-uncollapsed [] u c = tt
  Separate-uncollapsed (e ∷ l) u c = ground (arith, Separate-uncollapsed l)

  Separate-collapsed :
      (l : List ExclusivePath)
      → any (λ e. covers e ep.path) l ≡ false
      → All (λ e. Separate e ep) (keep (λ e. not (is_path_under e.path ep.path)) l)
  Separate-collapsed [] u = tt
  Separate-collapsed (e ∷ l) u = ground (arith, Separate-collapsed l)

  -- Dropping what lies under a path changes nothing for whoever deletes that path.
  removes_any-keep :
      (l : List ExclusivePath) (p : Str)
      → (removes_any (keep (λ e. not (is_path_under e.path ep.path)) l) p
          || is_path_under p ep.path)
        ≡ (removes_any l p || is_path_under p ep.path)
  removes_any-keep [] p = refl
  removes_any-keep (e ∷ l) p =
      ground
        (arith, removes_any-keep l p, is_path_under_trans p e.path ep.path, str_eqb_iff p e.path)

  -- A covered entry deletes nothing new.
  covered-removes :
      (l : List ExclusivePath) (p : Str)
      → any (λ e. covers e ep.path) l ≡ true
      → (removes_any l p || removes ep p) ≡ removes_any l p
  covered-removes [] p h = ground arith
  covered-removes (e ∷ l) p h =
      ground
        (arith, covered-removes l p, is_path_under_trans p ep.path e.path, str_eqb_iff p ep.path)

  covers-any-keep :
      (l : List ExclusivePath) (p : Str)
      → (any (λ e. covers e p) (keep (λ e. not (is_path_under e.path ep.path)) l)
          || is_path_under p ep.path)
        ≡ (any (λ e. covers e p) l || is_path_under p ep.path)
  covers-any-keep [] p = refl
  covers-any-keep (e ∷ l) p =
      ground (arith, covers-any-keep l p, is_path_under_trans p e.path ep.path)

  covered-covers :
      (l : List ExclusivePath) (p : Str)
      → any (λ e. covers e ep.path) l ≡ true
      → (any (λ e. covers e p) l || covers ep p) ≡ any (λ e. covers e p) l
  covered-covers [] p h = ground arith
  covered-covers (e ∷ l) p h =
      ground (arith, covered-covers l p, is_path_under_trans p ep.path e.path)

-- `Add` keeps the entries free of overlap: none lies under another, collapsed one.
pub add-NonOverlapping :
    (ps : PruningSet) (ep : ExclusivePath)
    → NonOverlapping ps.entries
    → NonOverlapping (add ps ep).0.entries
unfolding add
add-NonOverlapping ps ep h = ground (
  arith,
  NonOverlapping-snoc ps.entries ep h,
  NonOverlapping-snoc (keep (λ e. not (is_path_under e.path ep.path)) ps.entries) ep,
  NonOverlapping-keep (λ e. not (is_path_under e.path ep.path)) ps.entries h,
  Separate-uncollapsed ep ps.entries,
  Separate-collapsed ep ps.entries,
)

-- Deleting what the entries stand for after an `Add` deletes exactly what they stood for before,
-- and what the added entry stands for: neither the refusal nor the pruning loses a path.
pub removes_any-add :
    (ps : PruningSet) (ep : ExclusivePath) (p : Str)
    → removes_any (add ps ep).0.entries p ≡ (removes_any ps.entries p || removes ep p)
unfolding add
removes_any-add ps ep p = ground (
  arith,
  covered-removes ep ps.entries p,
  removes_any-keep ep ps.entries p,
  any-append (λ e. removes e p) ps.entries (ep ∷ []),
  any-append (λ e. removes e p) (keep (λ e. not (is_path_under e.path ep.path)) ps.entries)
      (ep ∷ []),
)

-- A path counts as covered after an `Add` exactly if it did before, or the added entry is a
-- collapsed directory above it; `Add` answers whether the path of the entry was not covered
-- before, and a refused entry leaves the set as it was.
pub covered-add :
    (ps : PruningSet) (ep : ExclusivePath) (p : Str)
    → (covered (add ps ep).0 p ≡ (covered ps p || covers ep p))
      × ((add ps ep).1 ≡ not (covered ps ep.path))
      × ((add ps ep).0 ≡ (if (add ps ep).1 then (add ps ep).0 else ps))
unfolding add covered
covered-add ps ep p = (
  ground (
    arith,
    covered-covers ep ps.entries p,
    covers-any-keep ep ps.entries p,
    any-append (λ e. covers e p) ps.entries (ep ∷ []),
    any-append (λ e. covers e p) (keep (λ e. not (is_path_under e.path ep.path)) ps.entries)
        (ep ∷ []),
  ),
  ground arith,
  ground arith,
)

-- The entries of many calls of `Add`, in the order in which they got the lock.
unfoldable pub add_all : PruningSet → List ExclusivePath → PruningSet
add_all ps [] = ps
add_all ps (ep ∷ eps) = add_all (add ps ep).0 eps

add_all-from :
    (ps : PruningSet) (eps : List ExclusivePath)
    → NonOverlapping ps.entries
    → NonOverlapping (add_all ps eps).entries
      × ((p : Str)
          → removes_any (add_all ps eps).entries p
            ≡ (removes_any ps.entries p || removes_any eps p))
unfolding add_all
add_all-from ps [] h = (h, λ p. ground arith)
add_all-from ps (ep ∷ eps) h =
    let (n, r) = add_all-from (add ps ep).0 eps (add-NonOverlapping ps ep h) in
    (n, λ p. ground (arith, r p, removes_any-add ps ep p))

-- Whatever the order in which entries arrive at an empty set, what it holds in the end does not
-- overlap, and deletes exactly the paths that the entries stand for.
pub add_all-removes :
    (eps : List ExclusivePath) (p : Str)
    → NonOverlapping (add_all empty eps).entries
      × (removes_any (add_all empty eps).entries p ≡ removes_any eps p)
add_all-removes eps p = let (n, r) = add_all-from empty eps tt in (n, r p)
