-- ===== src/Fshash/Access/Tracker/Laws.antt =====
-- pkg/fshash/access/tracker.go: what a record changes.
use bons_ci.Base.{
  Str, str_key, str_eqb, str_eqb_iff, ◌+◌, ◌&&◌, ◌||◌, [], none, if◌then◌else◌, ◌≡◌, refl, arith,
  Option-cases, inl, inr,
}
use bons_ci.Base.Dict.{lookup, insert, lookup-insert, length-insert}
use bons_ci.Fshash.Layer.Chain.{LayerId}
use bons_ci.Fshash.Access.Tracker.{
  FileHash, Tracker, record_hash, get_or_create_manifest, count, has_file,
}

empty_lookup : (q : Str) → lookup {V = FileHash} q [] ≡ none
unfolding lookup
empty_lookup q = refl

-- Recording a hash tracks its path for that layer and no other; the count of the layer grows by one if
-- the path is new to it.
pub record_hash_lem :
    (t : Tracker) (id j : LayerId) (h : FileHash) (path : Str)
    → (has_file (record_hash t id h) j path
        ≡ (str_eqb id j && str_eqb h.path path || has_file t j path))
      × (count (record_hash t id h) id
          ≡ (if has_file t id h.path then count t id else count t id + 1))
unfolding record_hash has_file count get_or_create_manifest
record_hash_lem t id j h path =
    let files = get_or_create_manifest t id in
    let outer = lookup-insert id j (insert h.path h files) t in
    let own = lookup-insert id id (insert h.path h files) t in
    let inner = lookup-insert h.path path h files in
    let size = length-insert h.path h files in
    let same = str_eqb_iff id j in
    let refl_id = str_eqb_iff id id in
    elim (Option-cases (lookup id t)) [
      | inl e ↦
          let blank : files ≡ [] = rw (get_or_create_manifest, e) refl in
          ground (arith, empty_lookup path, empty_lookup h.path)
      | inr (fs, e) ↦ let old : files ≡ fs = rw (get_or_create_manifest, e) refl in ground arith
    ]
