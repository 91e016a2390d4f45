-- ===== src/Fshash/Access/Tracker.antt =====
-- pkg/fshash/access/tracker.go: `Tracker`, and the shared types of pkg/fshash/internal/core/types.go that
-- the deduplicator uses.
pub mod Laws
use bons_ci.Base.{
  Str, str_key, str_eqb, ℕ, ◌+◌, Bool, true, false, List, [], ◌∷◌, Option, none, some,
  if◌then◌else◌, is_some, map, length,
}
use bons_ci.Base.Dict.{lookup, insert, delete}
use bons_ci.Fshash.Layer.Chain.{LayerId}

pub record FileHash : Type 0 where
  pub path : Str
  pub hash : Str
  pub layer_id : LayerId

-- The manifests of the layers: for each path the hash last recorded.
abbrev pub Tracker : Type 0
Tracker = List (LayerId × List (Str × FileHash))

-- `getOrCreateManifest`
unfoldable pub get_or_create_manifest : Tracker → LayerId → List (Str × FileHash)
get_or_create_manifest t id = elim (lookup id t) [ none ↦ [] | some files ↦ files ]

unfoldable pub record_hash : Tracker → LayerId → FileHash → Tracker
unfolding get_or_create_manifest
record_hash t id h = insert id (insert h.path h (get_or_create_manifest t id)) t

-- The hashes of a layer, up to the order of Go's maps.
unfoldable pub file_hashes : Tracker → LayerId → List FileHash
file_hashes t id = elim (lookup id t) [ none ↦ [] | some files ↦ map (λ e. e.1) files ]

unfoldable pub count : Tracker → LayerId → ℕ
count t id = elim (lookup id t) [ none ↦ 0 | some files ↦ length files ]

unfoldable pub has_file : Tracker → LayerId → Str → Bool
has_file t id path = elim (lookup id t) [ none ↦ false | some files ↦ is_some (lookup path files) ]

unfoldable pub clear : Tracker → LayerId → Tracker
clear t id = delete id t

unfoldable pub clear_all : Tracker → Tracker
clear_all t = []
