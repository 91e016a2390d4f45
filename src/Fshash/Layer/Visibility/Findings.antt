-- ===== src/Fshash/Layer/Visibility/Findings.antt =====
-- pkg/fshash/overlay/visibility.go: where the checker departs from `Resolver.IsFileVisible`.
use bons_ci.Base.{
  Str, str_key, ◌+◌, true, false, not, List, [], ◌∷◌, ◌++◌, any, any-append, take, length, reverse,
  ◌≡◌, refl, ap, ◌∙◌, arith, suc, str_eqb_iff, Option-cases, inl, inr, Bool-cases, sym,
}
use bons_ci.Base.Dict.{lookup, lookup-insert}
use bons_ci.Fshash.Layer.Chain.{LayerId, Chain, new_chain, position}
use bons_ci.Fshash.Layer.Chain.Laws.{position-new_chain}
use bons_ci.Fshash.Layer.Store.{
  Store, change, is_deleted, is_modified, is_opaque, mark_opaque, add_opaque,
}
use bons_ci.Fshash.Layer.Resolver.{is_file_visible}
use bons_ci.Fshash.Layer.Resolver.Laws.{any-reverse, visible_owned}
use bons_ci.Fshash.Layer.Visibility.{is_visible, visible_through, current_paths}
use bons_ci.Base.Segments.{split}

visible_through_lem :
    (s : Store) (path : Str) (ls : List LayerId)
    → visible_through s path ls ≡ not (any (λ l. is_deleted s l path) ls)
unfolding visible_through
visible_through_lem s path [] = refl
visible_through_lem s path (l ∷ ls) =
    let rest = visible_through_lem s path ls in
    elim (Bool-cases (any (is_opaque s l) (current_paths path [] (split path)))) [
      | inl e ↦ rw (visible_through, e) (ground arith)
      | inr e ↦ rw (visible_through, e) (ground arith)
    ]

is_deleted-mark_opaque :
    (s : Store) (id : LayerId) (dir : Str) (l : LayerId) (path : Str)
    → is_deleted (mark_opaque s id dir).0 l path ≡ is_deleted s l path
unfolding is_deleted mark_opaque change
is_deleted-mark_opaque s id dir l path = elim (Option-cases (lookup id s)) [
  | inl e ↦ ground arith
  | inr (m, e) ↦ ground (arith, lookup-insert id l (add_opaque dir m) s, str_eqb_iff id l)
]

any-mark_opaque :
    (s : Store) (id : LayerId) (dir path : Str) (ls : List LayerId)
    → any (λ l. is_deleted (mark_opaque s id dir).0 l path) ls ≡ any (λ l. is_deleted s l path) ls
any-mark_opaque s id dir path [] = refl
any-mark_opaque s id dir path (l ∷ ls) =
    ground (arith, is_deleted-mark_opaque s id dir l path, any-mark_opaque s id dir path ls)

-- Making a directory opaque changes no answer of the checker.
pub is_visible-mark_opaque :
    (s : Store) (id : LayerId) (dir : Str) (chain : Chain) (layer : LayerId) (path : Str)
    → is_visible (mark_opaque s id dir).0 chain layer path ≡ is_visible s chain layer path
unfolding is_visible
is_visible-mark_opaque s id dir chain layer path = elim (Option-cases (position chain layer)) [
  | inl e ↦ rw (is_visible, e) refl
  | inr (pos, e) ↦
      rw (is_visible, e)
        (let ls = reverse (take (pos + 1) chain.layers) in
          visible_through_lem (mark_opaque s id dir).0 path ls
          ∙ ap not (any-mark_opaque s id dir path ls)
          ∙ sym (visible_through_lem s path ls))
]

take_all : (ls : List LayerId) (o : LayerId) → take (length ls + 1) (ls ++ o ∷ []) ≡ ls ++ o ∷ []
take_all [] o = refl
take_all (l ∷ ls) o =
    let e : suc (length ls) + 1 ≡ suc (length ls + 1) = omega arith in
    rw e (ap (◌∷◌ l) (take_all ls o))

-- A path that a lower layer deleted and the top layer wrote again: the resolver shows it, the checker hides it.
pub is_visible_recreated :
    (s : Store) (below : List LayerId) (o : LayerId) (path : Str)
    → is_modified s o path ≡ true
    → any (λ l. is_deleted s l path) below ≡ true
    → (is_file_visible s (new_chain (below ++ o ∷ [])) path ≡ true)
      × (is_visible s (new_chain (below ++ o ∷ [])) o path ≡ false)
unfolding is_visible new_chain
is_visible_recreated s below o path h k = (
  visible_owned s path below [] o h refl,
  let hidden : any (λ l. is_deleted s l path) (reverse (below ++ o ∷ [])) ≡ true =
        any-reverse (λ l. is_deleted s l path) (below ++ o ∷ [])
        ∙ any-append (λ l. is_deleted s l path) below (o ∷ [])
        ∙ ground arith in
      rw (is_visible, position-new_chain below [] o refl, take_all below o)
        (visible_through_lem s path (reverse (below ++ o ∷ [])) ∙ ap not hidden),
)
