-- ===== src/Layermerkle/Resolver.antt =====
-- pkg/layermerkle/resolver.go, and the resolver of ringcache.go: which layer owns a path.
--
-- `os.Lstat` is the parameter `lstat`: whether a path exists below a directory. Paths are clean and
-- relative, so `filepath.Join`, `Dir` and `Split` act on their segments. `ctx.Err()` is read once for
-- each layer of the stack; `cancelled` says at which.
pub mod MapCache
pub mod Caching
pub mod Findings
use bons_ci.Base.{
  Str, ℕ, zero, suc, Bool, true, false, List, [], ◌∷◌, ◌++◌, Option, none, some, if◌then◌else◌,
  length, reverse,
}
use bons_ci.Base.Segments.{Segments, split, parent, base}
use bons_ci.Layermerkle.Layer.{
  LayerInfo, LayerRegistry, find_layer, whiteout_name, opaque_whiteout_name,
}
use bons_ci.Layermerkle.StatCache.{StatCache}
use bons_ci.Layermerkle.Types.{LayerId, StatKey, StatResult, ResolveError}

abbrev pub Lstat : Type 0
Lstat = Str → Segments → Bool

unfoldable pub fs_stat : Lstat → LayerInfo → Str → StatResult
unfolding whiteout_name opaque_whiteout_name
fs_stat lstat info rel_path =
    let p = split rel_path in
    if lstat info.diff_path (opaque_whiteout_name (parent p))
    then StatResult.whiteout
    else if lstat info.diff_path (whiteout_name p)
    then StatResult.whiteout
    else if lstat info.diff_path p
    then StatResult.present
    else StatResult.absent

pub data Owner : Type 0 where
  owner : LayerId → Owner
  failed : ResolveError → Owner

-- `statInLayer` and `FindOwnerLayer` over any cache; `none` is a panic in the cache.
module _ (sc : StatCache) (registry : LayerRegistry) (lstat : Lstat) where
  open sc use {Cache, get, put}

  unfoldable pub stat_in_layer : Cache → LayerId → Str → Option (Cache × Option StatResult)
  unfolding fs_stat
  stat_in_layer c layer rel_path =
      let k : StatKey = (layer, rel_path) in
      let (c', cached) = get c k in
      elim cached [
        | some v ↦ some (c', some v)
        | none ↦ elim (find_layer registry layer) [
          | none ↦ some (c', none)
          | some info ↦
              let v = fs_stat lstat info rel_path in
              elim (put c' k v) [ none ↦ none | some c'' ↦ some (c'', some v) ]
        ]
      ]

  -- The `switch` on the result, `next` being the rest of the loop.
  abbrev pub by_result :
      LayerId
      → Option (Cache × Option StatResult)
      → (Cache → Option (Cache × Owner))
      → Option (Cache × Owner)
  by_result layer none next = none
  by_result layer (some (c, none)) next = next c
  by_result layer (some (c, some StatResult.present)) next = some (c, owner layer)
  by_result layer (some (c, some StatResult.whiteout)) next = some (c, failed ResolveError.whiteout)
  by_result layer (some (c, some _)) next = next c

  -- The loop, over the layers from the top of the stack down.
  unfoldable pub search_down : (ℕ → Bool) → List LayerId → Str → Cache → Option (Cache × Owner)
  unfolding stat_in_layer
  search_down cancelled [] rel_path c = some (c, failed ResolveError.layer_not_found)
  search_down cancelled (layer ∷ below) rel_path c =
      if cancelled (length below)
      then some (c, failed ResolveError.context)
      else by_result layer (stat_in_layer c layer rel_path) (search_down cancelled below rel_path)

  unfoldable pub find_owner_layer : (ℕ → Bool) → List LayerId → Str → Cache → Option (Cache × Owner)
  unfolding search_down
  find_owner_layer cancelled stack rel_path c = search_down cancelled (reverse stack) rel_path c

-- `DiffAbsPath` of `OverlayResolver`: a directory and a path below it, or an error.
pub data AbsPath : Type 0 where
  below : Str → Segments → AbsPath
  no_path : ResolveError → AbsPath

module _ (sc : StatCache) (registry : LayerRegistry) (lstat : Lstat) where
  open sc use {Cache}

  abbrev path_of : LayerInfo → Str → Option StatResult → AbsPath
  path_of info rel_path none = no_path ResolveError.layer_not_found
  path_of info rel_path (some StatResult.whiteout) = no_path ResolveError.whiteout
  path_of info rel_path (some StatResult.present) = below info.diff_path (split rel_path)
  path_of info rel_path (some _) = no_path ResolveError.layer_not_found

  unfoldable pub diff_abs_path : Cache → LayerId → Str → Option (Cache × AbsPath)
  unfolding stat_in_layer
  diff_abs_path c layer rel_path = elim (find_layer registry layer) [
    | none ↦ some (c, no_path ResolveError.layer_not_found)
    | some info ↦ elim (stat_in_layer sc registry lstat c layer rel_path) [
      | none ↦ none
      | some (c', r) ↦ some (c', path_of info rel_path r)
    ]
  ]
