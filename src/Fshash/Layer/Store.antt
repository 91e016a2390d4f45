-- ===== src/Fshash/Layer/Store.antt =====
-- pkg/fshash/layer/store.go: `memStore`, what each layer modified, deleted and made opaque. A method
-- holds the store's lock or the manifest's for each access; here each is one step.
pub mod Laws
use bons_ci.Base.{
  Str, str_key, str_eqb, ℕ, Bool, true, false, List, [], ◌∷◌, Option, none, some, if◌then◌else◌,
  is_some, any, reverse, map,
}
use bons_ci.Base.Dict.{lookup, insert}
use bons_ci.Fshash.Layer.Chain.{LayerId, is_zero}

-- A set of paths: the keys of a map to the empty struct.
abbrev pub PathSet : Type 0
PathSet = List (Str × Unit {0})

pub record Manifest : Type 0 where
  pub parent_id : LayerId
  pub modified : PathSet
  pub deleted : PathSet
  pub opaque_dirs : PathSet

abbrev pub Store : Type 0
Store = List (LayerId × Manifest)

pub data StoreError : Type 0 where
  invalid_event layer_exists layer_not_found : StoreError

abbrev pub new_manifest : LayerId → Manifest
new_manifest parent_id = record {
  parent_id = parent_id;
  modified = [];
  deleted = [];
  opaque_dirs = [];
}

unfoldable pub register : Store → LayerId → LayerId → Store × Option StoreError
register s id parent_id =
    if is_zero id
    then (s, some invalid_event)
    else if is_some (lookup id s)
    then (s, some layer_exists)
    else if is_zero parent_id
    then (insert id (new_manifest parent_id) s, none)
    else if is_some (lookup parent_id s)
    then (insert id (new_manifest parent_id) s, none)
    else (s, some layer_not_found)

-- `getManifest`
abbrev pub find_manifest : Store → LayerId → Option Manifest
find_manifest s id = lookup id s

abbrev pub has_path : Str → PathSet → Bool
has_path p ps = is_some (lookup p ps)

-- A change of the manifest of a layer, which the map holds by a pointer.
unfoldable pub change : Store → LayerId → (Manifest → Manifest) → Store × Option StoreError
change s id f = elim (find_manifest s id) [
  | none ↦ (s, some layer_not_found)
  | some m ↦ (insert id (f m) s, none)
]

abbrev pub add_modified : Str → Manifest → Manifest
add_modified p m = record m { modified = insert p tt m.modified }

abbrev pub add_deleted : Str → Manifest → Manifest
add_deleted p m = record m { deleted = insert p tt m.deleted }

abbrev pub add_opaque : Str → Manifest → Manifest
add_opaque p m = record m { opaque_dirs = insert p tt m.opaque_dirs }

unfoldable pub mark_modified : Store → LayerId → Str → Store × Option StoreError
unfolding change
mark_modified s id path = change s id (add_modified path)

unfoldable pub mark_deleted : Store → LayerId → Str → Store × Option StoreError
unfolding change
mark_deleted s id path = change s id (add_deleted path)

unfoldable pub mark_opaque : Store → LayerId → Str → Store × Option StoreError
unfolding change
mark_opaque s id dir = change s id (add_opaque dir)

unfoldable pub is_modified : Store → LayerId → Str → Bool
is_modified s id path = elim (find_manifest s id) [
  | none ↦ false
  | some m ↦ has_path path m.modified
]

unfoldable pub is_deleted : Store → LayerId → Str → Bool
is_deleted s id path = elim (find_manifest s id) [ none ↦ false | some m ↦ has_path path m.deleted ]

unfoldable pub is_opaque : Store → LayerId → Str → Bool
is_opaque s id dir = elim (find_manifest s id) [
  | none ↦ false
  | some m ↦ has_path dir m.opaque_dirs
]

-- The first layer of a list that modified the path.
unfoldable pub first_modified : Store → Str → List LayerId → Option LayerId
first_modified s path [] = none
first_modified s path (l ∷ ls) = if is_modified s l path then some l else first_modified s path ls

-- `OwnerOf`: the topmost layer that modified the path, else the bottom of the chain.
unfoldable pub owner_of : Store → List LayerId → Str → LayerId × Bool
unfolding first_modified
owner_of s chain path = elim (first_modified s path (reverse chain)) [
  | some l ↦ (l, true)
  | none ↦ elim chain [ [] ↦ ([], false) | l ∷ ls ↦ (l, false) ]
]

unfoldable pub parent : Store → LayerId → Option LayerId
parent s id = elim (find_manifest s id) [ none ↦ none | some m ↦ some m.parent_id ]

unfoldable pub exists : Store → LayerId → Bool
exists s id = is_some (lookup id s)

-- The lists of `ModifiedPaths`, `DeletedPaths` and `OpaqueDirs`, up to the order of Go's maps.
unfoldable pub modified_paths : Store → LayerId → List Str
modified_paths s id = elim (find_manifest s id) [ none ↦ [] | some m ↦ map (λ e. e.0) m.modified ]

unfoldable pub deleted_paths : Store → LayerId → List Str
deleted_paths s id = elim (find_manifest s id) [ none ↦ [] | some m ↦ map (λ e. e.0) m.deleted ]

unfoldable pub opaque_paths : Store → LayerId → List Str
opaque_paths s id = elim (find_manifest s id) [ none ↦ [] | some m ↦ map (λ e. e.0) m.opaque_dirs ]
