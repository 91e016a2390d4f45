-- ===== src/Layermerkle/Whiteout.antt =====
-- pkg/layermerkle/whiteout.go: whiteouts by the OCI image specification, looked up in the file system
-- or in an index that is built once for each layer.
--
-- A path is a directory and a name, as `filepath.Split` gives them, and `lstat` says whether a path
-- exists below the diff directory of a layer.
pub mod Index
use bons_ci.Base.{
  Str, has_prefix, ℕ, Bool, true, false, not, ◌&&◌, ◌||◌, List, [], ◌∷◌, ◌++◌, map, any, drop,
  Option, none, some, if◌then◌else◌, length, reverse, codes, str_eqb, str_key, list_eqb, list_key,
  key_eq,
}
use bons_ci.Base.Segments.{Segments}
use bons_ci.Layermerkle.Layer.{LayerInfo, LayerRegistry, find_layer, whiteout_prefix, opaque_marker}
use bons_ci.Layermerkle.Resolver.{Owner, owner, failed}
use bons_ci.Layermerkle.Types.{LayerId, ResolveError}

abbrev pub Location : Type 0
Location = Segments × Str

-- The directories above a path, `strings.Join(segments[:depth], "/")` for each depth from 1.
unfoldable pub prefixes : Segments → List Segments
prefixes [] = []
prefixes (s ∷ ss) = (s ∷ []) ∷ map (◌∷◌ s) (prefixes ss)

module _ (lstat : Location → Bool) where
  unfoldable pub has_file_whiteout : Location → Bool
  has_file_whiteout (dir, name) = lstat (dir, whiteout_prefix ++ name)

  unfoldable pub ancestor_is_opaque : Location → Bool
  unfolding prefixes
  ancestor_is_opaque (dir, name) = any (λ a. lstat (a, opaque_marker)) (prefixes dir)

-- `FindOwnerLayer` of `OCICompliantResolver`, with `lstat` for each diff directory.
module _ (registry : LayerRegistry) (lstat : Str → Location → Bool) where
  unfoldable pub search_down : (ℕ → Bool) → List LayerId → Location → Owner
  unfolding has_file_whiteout ancestor_is_opaque
  search_down cancelled [] p = failed ResolveError.layer_not_found
  search_down cancelled (layer ∷ below) p =
      let rest = search_down cancelled below p in
      if cancelled (length below)
      then failed ResolveError.context
      else elim (find_layer registry layer) [
        | none ↦ rest
        | some info ↦
            if has_file_whiteout (lstat info.diff_path) p
            then failed ResolveError.whiteout
            else if ancestor_is_opaque (lstat info.diff_path) p
            then failed ResolveError.whiteout
            else if lstat info.diff_path p
            then owner layer
            else rest
      ]

  unfoldable pub find_owner_layer : (ℕ → Bool) → List LayerId → Location → Owner
  unfolding search_down
  find_owner_layer cancelled stack p = search_down cancelled (reverse stack) p

-- `WhiteoutIndex`: two sets.
pub record WhiteoutIndex : Type 0 where
  pub file_whiteouts : List Location
  pub opaque_directories : List Segments

abbrev pub same_location : Location → Location → Bool
same_location (d, n) (d', n') = list_eqb str_key d d' && str_eqb n n'

abbrev pub double_prefix : Str
double_prefix = codes ".wh..wh."

-- A whiteout of one file: neither an opaque marker nor another name of that family.
abbrev pub is_whiteout_name : Str → Bool
is_whiteout_name name = has_prefix name whiteout_prefix && not (has_prefix name double_prefix)

-- The callback of `filepath.Walk` for one entry that could be read.
unfoldable pub visit : WhiteoutIndex → Location → WhiteoutIndex
visit idx (dir, name) =
    if str_eqb name opaque_marker
    then record idx { opaque_directories = dir ∷ idx.opaque_directories }
    else if is_whiteout_name name
    then record idx { file_whiteouts = (dir, drop 4 name) ∷ idx.file_whiteouts }
    else idx

-- `BuildWhiteoutIndex` over the entries below the diff directory, in the order of the walk.
unfoldable pub build_from : WhiteoutIndex → List Location → WhiteoutIndex
unfolding visit
build_from idx [] = idx
build_from idx (e ∷ es) = build_from (visit idx e) es

unfoldable pub build_whiteout_index : List Location → WhiteoutIndex
unfolding build_from
build_whiteout_index es = build_from (record { file_whiteouts = []; opaque_directories = [] }) es

unfoldable pub is_masked : WhiteoutIndex → Location → Bool
unfolding prefixes
is_masked idx p =
    any (same_location p) idx.file_whiteouts
    || any (λ a. any (list_eqb str_key a) idx.opaque_directories) (prefixes p.0)
