-- ===== src/Dirsync/Walker.antt =====
-- internal/dirsync/walker.go: the recursive two-pointer merge walk of two directory trees.
--
-- A tree is what `securejoin` and `readDirResolved` show of each relative directory, and an entry
-- whose `Info()` fails carries no info. The callbacks of `WalkFn` act on a state of any type and may
-- stop the walk; `ctx.Err()` is read from the same state. The walk runs on fuel, one unit for each
-- level of directories.
pub mod Merge
pub mod Fuel
pub mod Termination
use bons_ci.Base.{
  Str, ℕ, zero, suc, Bool, true, false, not, List, [], ◌∷◌, ◌++◌, Option, none, some, if◌then◌else◌,
  str_eqb,
}
use bons_ci.Base.Order.{Ordering, compare_str}
use bons_ci.Dirsync.Types.{FileInfo, ExclusivePath, CommonPath, PathKind, is_dir, path_kind_of}
use bons_ci.Dirsync.Filter.{Filter}
use bons_ci.Dirsync.Paths.{slash}

pub record DirEntry : Type 0 where
  pub name : Str
  pub info : Option FileInfo

pub data ReadError : Type 0 where
  secure_join not_exist io : ReadError

-- What reading the directory at a relative path gives.
pub data Listing : Type 0 where
  failed : ReadError → Listing
  listing : List DirEntry → Listing

abbrev pub Tree : Type 0
Tree = Str → Listing

pub data WalkError : Type 0 where
  context callback : ℕ → WalkError
  secure_join_lower secure_join_upper secure_join_exclusive : Str → WalkError
  read_lower read_upper read_exclusive : Str → WalkError
  stat_lower stat_upper stat_exclusive : Str → WalkError
  out_of_fuel : WalkError

-- The state after a run, and the error that stopped it.
pub data Outcome (S : Type 0) : Type 0 where
  done : S → Outcome S
  stop : WalkError → S → Outcome S

abbrev pub M : Type 0 → Type 0
M S = S → Outcome S

infixl 5 ◌>>◌
abbrev pub ◌>>◌ : {S : Type 0} → M S → M S → M S
◌>>◌ m k s = elim (m s) [ done s' ↦ k s' | stop e s' ↦ stop e s' ]

-- `switch strings.Compare(…)`: the cases -1, 0 and 1.
abbrev pub switch : {S : Type 0} → Ordering → M S → M S → M S → M S
switch Ordering.lt a b c = a
switch Ordering.eq a b c = b
switch Ordering.gt a b c = c

pub record WalkFn (S : Type 0) : Type 0 where
  pub on_exclusive : Option (ExclusivePath → M S)
  pub on_common : Option (CommonPath → M S)

unfoldable pub join_rel_path : Str → Str → Str
join_rel_path [] name = name
join_rel_path (c ∷ rel_dir) name = (c ∷ rel_dir) ++ slash ∷ name

module _ {S : Type 0} (ctx_err : S → Option ℕ) where
  unfoldable pub check : M S
  check s = elim (ctx_err s) [ none ↦ done s | some e ↦ stop (WalkError.context e) s ]

  -- `emitAllExclusive`, and the last loop of `walkBoth`.
  unfoldable pub emit_all : (DirEntry → M S) → List DirEntry → M S
  emit_all emit [] s = done s
  emit_all emit (e ∷ es) s = (check >> (emit e >> emit_all emit es)) s

  -- The two-pointer loop of `walkBoth`, with the drain of what is left of the lower entries.
  unfoldable pub merge :
      (DirEntry → M S) → (DirEntry → DirEntry → M S) → List DirEntry → List DirEntry → M S
  merge on_lower on_both [] us s = done s
  merge on_lower on_both (l ∷ ls) [] s = emit_all on_lower (l ∷ ls) s
  merge on_lower on_both (l ∷ ls) (u ∷ us) s =
      (check
          >> switch (compare_str l.name u.name) (on_lower l >> merge on_lower on_both ls (u ∷ us))
              (on_both l u >> merge on_lower on_both ls us) (merge on_lower on_both (l ∷ ls) us))
        s

module _ {S : Type 0} (fn : WalkFn S) where
  unfoldable pub call_exclusive : ExclusivePath → M S
  call_exclusive ep s = elim fn.on_exclusive [ none ↦ done s | some f ↦ f ep s ]

  unfoldable pub call_common : CommonPath → M S
  call_common cp s = elim fn.on_common [ none ↦ done s | some f ↦ f cp s ]

abbrev pub exclusive_dir : Str → FileInfo → ExclusivePath
exclusive_dir rel_path info = record {
  path = rel_path;
  kind = PathKind.dir;
  info = info;
  collapsed = true;
}

abbrev pub exclusive_leaf : Str → FileInfo → ExclusivePath
exclusive_leaf rel_path info = record {
  path = rel_path;
  kind = path_kind_of info;
  info = info;
  collapsed = false;
}

abbrev pub common_entry : Str → FileInfo → FileInfo → CommonPath
common_entry rel_path l u = record {
  path = rel_path;
  kind = path_kind_of l;
  lower_info = some l;
  upper_info = some u;
  hash_equal = none;
}

abbrev pub read_exclusive_error : ReadError → Str → WalkError
read_exclusive_error ReadError.secure_join p = WalkError.secure_join_exclusive p
read_exclusive_error _ p = WalkError.read_exclusive p

-- The read of a lower-only directory that is not collapsed; `recurse` takes its entries.
abbrev pub emit_listing : {S : Type 0} → (List DirEntry → M S) → Str → Listing → M S
emit_listing recurse rel_path (failed e) s = stop (read_exclusive_error e rel_path) s
emit_listing recurse rel_path (listing es) s = recurse es s

-- `emitExclusive` behind its call of `Info()`; `descend` goes on below the directory.
abbrev pub emit_found : {S : Type 0} → Filter → WalkFn S → M S → Str → Option FileInfo → M S
emit_found filter fn descend rel_path none s = stop (WalkError.stat_exclusive rel_path) s
emit_found filter fn descend rel_path (some info) s =
    if not (filter.include rel_path (is_dir info))
    then done s
    else if is_dir info
    then (if filter.include rel_path false
        then call_exclusive fn (exclusive_dir rel_path info) s
        else descend s)
    else call_exclusive fn (exclusive_leaf rel_path info) s

module _ {S : Type 0} (ctx_err : S → Option ℕ) (lower : Tree) (filter : Filter)
    (fn : WalkFn S) where
  unfoldable pub emit_exclusive : ℕ → Str → DirEntry → M S
  unfolding check emit_all call_exclusive join_rel_path
  emit_exclusive zero rel_dir entry s = stop WalkError.out_of_fuel s
  emit_exclusive (suc fuel) rel_dir entry s =
      let rel_path = join_rel_path rel_dir entry.name in
      (check ctx_err
          >> emit_found filter fn
              (emit_listing (emit_all ctx_err (emit_exclusive fuel rel_path)) rel_path
                (lower rel_path))
              rel_path entry.info)
        s

-- `handleCommonEntry`; `recurse` is the call of `walkBoth` on the directory.
module _ {S : Type 0} (fn : WalkFn S) where
  unfoldable pub handle_common_entry : M S → Str → FileInfo → FileInfo → M S
  unfolding call_common call_exclusive
  handle_common_entry recurse rel_path l u s =
      if is_dir l
      then (if is_dir u
          then recurse s
          else (call_common fn (record (common_entry rel_path l u) { kind = PathKind.dir })
                >> call_exclusive fn (exclusive_dir rel_path l))
              s)
      else call_common fn (common_entry rel_path l u) s

  -- The case of `walkBoth` for an entry in both trees, behind the computation of its path.
  abbrev pub common_found : Filter → M S → Str → Option FileInfo → Option FileInfo → M S
  common_found filter recurse rel_path none u s = stop (WalkError.stat_lower rel_path) s
  common_found filter recurse rel_path (some l) none s = stop (WalkError.stat_upper rel_path) s
  common_found filter recurse rel_path (some l) (some u) s =
      if filter.include rel_path (is_dir l)
      then handle_common_entry recurse rel_path l u s
      else done s

  unfoldable pub on_common_pair : Filter → (Str → M S) → Str → DirEntry → DirEntry → M S
  unfolding handle_common_entry join_rel_path
  on_common_pair filter recurse rel_dir le ue =
      let rel_path = join_rel_path rel_dir le.name in
      common_found filter (recurse rel_path) rel_path le.info ue.info

-- The reads at the head of `walkBoth`: both joins come before both reads. The continuations get the
-- lower entries, and the upper ones where the upper directory exists.
abbrev pub read_both :
    {S : Type 0}
    → Listing
    → Listing
    → Str
    → (List DirEntry → M S)
    → (List DirEntry → List DirEntry → M S)
    → M S
read_both (failed ReadError.secure_join) _ rel all both s = stop (WalkError.secure_join_lower rel) s
read_both (failed _) (failed ReadError.secure_join) rel all both s =
    stop (WalkError.secure_join_upper rel) s
read_both (failed _) _ rel all both s = stop (WalkError.read_lower rel) s
read_both (listing ls) (failed ReadError.secure_join) rel all both s =
    stop (WalkError.secure_join_upper rel) s
read_both (listing ls) (failed ReadError.not_exist) rel all both s = all ls s
read_both (listing ls) (failed ReadError.io) rel all both s = stop (WalkError.read_upper rel) s
read_both (listing ls) (listing us) rel all both s = both ls us s

module _ {S : Type 0} (ctx_err : S → Option ℕ) (lower upper : Tree) (filter : Filter)
    (fn : WalkFn S) where
  unfoldable pub walk_both : ℕ → Str → M S
  unfolding merge emit_exclusive on_common_pair
  walk_both zero rel_dir s = stop WalkError.out_of_fuel s
  walk_both (suc fuel) rel_dir s =
      let on_lower = emit_exclusive ctx_err lower filter fn (suc fuel) rel_dir in
      (check ctx_err
          >> read_both (lower rel_dir) (upper rel_dir) rel_dir (emit_all ctx_err on_lower)
              (merge ctx_err on_lower (on_common_pair fn filter (walk_both fuel) rel_dir)))
        s
