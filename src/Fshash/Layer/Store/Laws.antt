-- ===== src/Fshash/Layer/Store/Laws.antt =====
-- pkg/fshash/layer/store.go: what a mark changes and what it leaves.
use bons_ci.Base.{
  Str, str_key, str_eqb, str_eqb_iff, true, false, ◌&&◌, ◌||◌, none, Option-cases, ◌≡◌, refl, arith,
  inl, inr,
}
use bons_ci.Base.Dict.{lookup, insert, lookup-insert}
use bons_ci.Fshash.Layer.Chain.{LayerId}
use bons_ci.Fshash.Layer.Store.{
  Store, register, change, mark_modified, mark_deleted, is_modified, is_deleted, is_opaque, exists,
  new_manifest, add_modified, add_deleted,
}

-- Marking a path modified on a registered layer makes that path of that layer modified, leaves every
-- other as it was, and changes no deletion and no opaque directory.
pub mark_modified_lem :
    (s : Store) (id j : LayerId) (p q : Str)
    → exists s id ≡ true
    → (is_modified (mark_modified s id p).0 j q
        ≡ (str_eqb id j && str_eqb p q || is_modified s j q))
      × (is_deleted (mark_modified s id p).0 j q ≡ is_deleted s j q)
      × (is_opaque (mark_modified s id p).0 j q ≡ is_opaque s j q)
unfolding exists mark_modified is_modified is_deleted is_opaque change
mark_modified_lem s id j p q h = elim (Option-cases (lookup id s)) [
  | inl e ↦ absurd (ground arith)
  | inr (m, e) ↦ ground (
    arith,
    lookup-insert id j (add_modified p m) s,
    str_eqb_iff id j,
    lookup-insert p q tt m.modified,
  )
]

-- Marking a path deleted on a registered layer makes that path of that layer deleted, leaves every other
-- as it was, and changes no modification and no opaque directory.
pub mark_deleted_lem :
    (s : Store) (id j : LayerId) (p q : Str)
    → exists s id ≡ true
    → (is_deleted (mark_deleted s id p).0 j q ≡ (str_eqb id j && str_eqb p q || is_deleted s j q))
      × (is_modified (mark_deleted s id p).0 j q ≡ is_modified s j q)
      × (is_opaque (mark_deleted s id p).0 j q ≡ is_opaque s j q)
unfolding exists mark_deleted is_modified is_deleted is_opaque change
mark_deleted_lem s id j p q h = elim (Option-cases (lookup id s)) [
  | inl e ↦ absurd (ground arith)
  | inr (m, e) ↦ ground (
    arith,
    lookup-insert id j (add_deleted p m) s,
    str_eqb_iff id j,
    lookup-insert p q tt m.deleted,
  )
]

new_manifest_blank :
    (p : LayerId) (q : Str)
    → (lookup q (new_manifest p).modified ≡ none)
      × (lookup q (new_manifest p).deleted ≡ none)
      × (lookup q (new_manifest p).opaque_dirs ≡ none)
unfolding lookup
new_manifest_blank p q = (refl, refl, refl)

registered :
    (s : Store) (id p : LayerId)
    → (register s id p).1 ≡ none
    → (exists s id ≡ false) × ((register s id p).0 ≡ insert id (new_manifest p) s)
unfolding exists register
registered s id p h = ground arith

-- A registration that reports no error was of a layer not yet known, which it makes known with no
-- path modified, deleted or opaque, and it leaves every other layer as it was.
pub register-none :
    (s : Store) (id p j : LayerId) (q : Str)
    → (register s id p).1 ≡ none
    → (exists s id ≡ false)
      × (exists (register s id p).0 j ≡ (str_eqb id j || exists s j))
      × (is_modified (register s id p).0 j q ≡ is_modified s j q)
      × (is_deleted (register s id p).0 j q ≡ is_deleted s j q)
      × (is_opaque (register s id p).0 j q ≡ is_opaque s j q)
unfolding exists is_modified is_deleted is_opaque
register-none s id p j q h =
    let (fresh, e) = registered s id p h in
    rw e (
      ground
        (arith, lookup-insert id j (new_manifest p) s, str_eqb_iff id j, new_manifest_blank p q))
