-- ===== src/Layermerkle/Layer.antt =====
-- pkg/layermerkle/layer.go: layers and the registry of the known ones. `os.Lstat` is a parameter.
use bons_ci.Base.{
  Str, str_key, Bool, true, false, List, [], ◌∷◌, ◌++◌, Option, none, some, if◌then◌else◌, codes,
}
use bons_ci.Base.Dict.{lookup, insert, delete}
use bons_ci.Base.Segments.{Segments, parent, base}
use bons_ci.Layermerkle.Types.{LayerId}

-- `LayerInfo`, but for its labels, which nothing reads.
pub record LayerInfo : Type 0 where
  pub id : LayerId
  pub diff_path : Str
  pub chain_id : Str

abbrev pub LayerRegistry : Type 0
LayerRegistry = List (LayerId × LayerInfo)

abbrev pub is_empty : Str → Bool
is_empty [] = true
is_empty (c ∷ s) = false

pub data RegisterError : Type 0 where
  empty_id empty_diff_path : RegisterError

-- `Register`: the registry, or the error for which it is left alone. A nil info has no model.
unfoldable pub register : LayerRegistry → LayerInfo → LayerRegistry × Option RegisterError
register r info =
    if is_empty info.id
    then (r, some empty_id)
    else if is_empty info.diff_path
    then (r, some empty_diff_path)
    else (insert info.id info r, none)

unfoldable pub unregister : LayerRegistry → LayerId → LayerRegistry
unregister r id = delete id r

-- `Get`
abbrev pub find_layer : LayerRegistry → LayerId → Option LayerInfo
find_layer r id = lookup id r

-- `ResolveStack`: the infos of the registered layers, and the layers that are not registered.
unfoldable pub resolve_stack : LayerRegistry → List LayerId → List LayerInfo × List LayerId
resolve_stack r [] = ([], [])
resolve_stack r (id ∷ stack) =
    let (infos, errs) = resolve_stack r stack in
    elim (find_layer r id) [ none ↦ (infos, id ∷ errs) | some l ↦ (l ∷ infos, errs) ]

-- The names of the two kinds of whiteout files, beside the file and in the directory that they mask.
abbrev pub whiteout_prefix : Str
whiteout_prefix = codes ".wh."

abbrev pub opaque_marker : Str
opaque_marker = codes ".wh..wh..opq"

unfoldable pub whiteout_name : Segments → Segments
whiteout_name p = parent p ++ (whiteout_prefix ++ base p) ∷ []

unfoldable pub opaque_whiteout_name : Segments → Segments
opaque_whiteout_name dir = dir ++ opaque_marker ∷ []
