-- ===== src/Fshash/Layer/Resolver/Laws.antt =====
-- pkg/fshash/layer/resolver.go: which layers decide about a path.
use bons_ci.Base.{
  Str, ◌↔◌, inl, inr, Bool-cases, All, length, Bool, true, false, not, List, [], ◌∷◌, ◌++◌, none,
  any, any-append, reverse, ◌≡◌, refl, ◌∙◌, ap, arith, str_eqb_iff, append_assoc,
}
use mathlib.Core.List.{reverse-append, reverse-cons}
use bons_ci.Fshash.Layer.Ancestors.{any_ancestor}
use bons_ci.Fshash.Layer.Ancestors.Above.{IsAbove, any_ancestor_iff}
use bons_ci.Fshash.Layer.Chain.{LayerId, new_chain}
use bons_ci.Fshash.Layer.Chain.Laws.{
  among, position-new_chain, position_absent, above-new_chain, drop-append,
}
use bons_ci.Fshash.Layer.Store.{Store, is_modified, is_deleted, is_opaque, first_modified, owner_of}
use bons_ci.Fshash.Layer.Resolver.{needs_rehash, masks, is_file_visible}

pub any-reverse : (p : LayerId → Bool) (ls : List LayerId) → any p (reverse ls) ≡ any p ls
any-reverse p [] = refl
any-reverse p (l ∷ ls) =
    rw (reverse-cons l ls, any-append p (reverse ls) (l ∷ []), any-reverse p ls) (ground arith)

module _ (s : Store) (path : Str) where
  abbrev pub modifies : LayerId → Bool
  modifies l = is_modified s l path

  first_modified-append :
      (ls rest : List LayerId)
      → any modifies ls ≡ false
      → first_modified s path (ls ++ rest) ≡ first_modified s path rest
  unfolding first_modified
  first_modified-append [] rest h = refl
  first_modified-append (l ∷ ls) rest h = ground (arith, first_modified-append ls rest)

  first_modified-none :
      (ls : List LayerId) → any modifies ls ≡ false → first_modified s path ls ≡ none
  unfolding first_modified
  first_modified-none [] h = refl
  first_modified-none (l ∷ ls) h = ground (arith, first_modified-none ls)

  -- The layer that modified the path is not among layers that did not.
  not_among :
      (o : LayerId) (ls : List LayerId)
      → modifies o ≡ true
      → any modifies ls ≡ false
      → among o ls ≡ false
  not_among o [] h k = refl
  not_among o (l ∷ ls) h k = ground (arith, str_eqb_iff o l, not_among o ls)

  -- The owner of a path is the topmost layer that modified it.
  pub owner_of_topmost :
      (below over : List LayerId) (o : LayerId)
      → modifies o ≡ true
      → any modifies over ≡ false
      → owner_of s (below ++ o ∷ over) path ≡ (o, true)
  unfolding owner_of first_modified
  owner_of_topmost below over o h k =
      let turned : reverse (below ++ o ∷ over) ≡ reverse over ++ o ∷ reverse below =
        reverse-append below (o ∷ over)
        ∙ ap (λ z. z ++ reverse below) (reverse-cons o over)
        ∙ append_assoc (reverse over) (o ∷ []) (reverse below) in
      let skip =
        first_modified-append (reverse over) (o ∷ reverse below) (any-reverse modifies over ∙ k) in
      rw (owner_of, turned, skip, first_modified, h)

  -- Where no layer modified the path, its owner is the bottom layer.
  pub owner_of_bottom :
      (l : LayerId) (over : List LayerId)
      → any modifies (l ∷ over) ≡ false
      → owner_of s (l ∷ over) path ≡ (l, false)
  unfolding owner_of
  owner_of_bottom l over k =
      rw (owner_of, first_modified-none (reverse (l ∷ over)) (any-reverse modifies (l ∷ over) ∙ k))

  visible_above :
      (below over : List LayerId) (o : LayerId) (found : Bool)
      → owner_of s (below ++ o ∷ over) path ≡ (o, found)
      → among o over ≡ false
      → is_file_visible s (new_chain (below ++ o ∷ over)) path ≡ not (any (masks s path) over)
  unfolding is_file_visible new_chain
  visible_above [] over o found h k =
      rw (is_file_visible, h, position-new_chain [] over o k)
        (ap not (any-reverse (masks s path) over))
  visible_above (l ∷ below) over o found h k =
      rw
        (
          is_file_visible,
          h,
          position-new_chain (l ∷ below) over o k,
          drop-append (l ∷ below) over o,
        )
        (ap not (any-reverse (masks s path) over))

  -- The layer neither deletes the path nor makes a directory above it opaque.
  abbrev pub Spares : LayerId → Type 0
  Spares l =
      (is_deleted s l path ≡ false) × ((dir : Str) → IsAbove dir path → is_opaque s l dir ≡ false)

  masks-Spares : (l : LayerId) → (masks s path l ≡ false) ↔ Spares l
  unfolding masks
  masks-Spares l =
      let found = any_ancestor_iff (is_opaque s l) path in
      (
        λ h. (
          ground (arith, h),
          λ dir above. elim (Bool-cases (is_opaque s l dir)) [
            | inr clear ↦ clear
            | inl shut ↦ let met = found.1 (dir, above, shut) in absurd (ground (arith, h, met))
          ],
        ),
        λ h. elim (Bool-cases (any_ancestor (is_opaque s l) (length path) path)) [
          | inr clear ↦ ground (arith, h.0, clear)
          | inl met ↦ let (dir, above, shut) = found.0 met in cc (h.1 dir above, shut)
        ],
      )

  any-Spares : (ls : List LayerId) → (any (masks s path) ls ≡ false) ↔ All Spares ls
  any-Spares [] = (λ h. tt, λ h. refl)
  any-Spares (l ∷ ls) = (
    λ h. ((masks-Spares l).0 (ground (arith, h)), (any-Spares ls).0 (ground (arith, h))),
    λ h. ground (arith, (masks-Spares l).1 h.0, (any-Spares ls).1 h.1),
  )

  pub visible_owned :
      (below over : List LayerId) (o : LayerId)
      → modifies o ≡ true
      → any modifies over ≡ false
      → is_file_visible s (new_chain (below ++ o ∷ over)) path ≡ not (any (masks s path) over)
  visible_owned below over o h k =
      visible_above below over o true (owner_of_topmost below over o h k) (not_among o over h k)

  -- A path that a layer modified, and none above it, is visible exactly if every layer above that one neither deletes the
  -- path nor makes opaque a directory that stands above the path.
  pub is_file_visible-owned :
      (below over : List LayerId) (o : LayerId)
      → modifies o ≡ true
      → any modifies over ≡ false
      → (is_file_visible s (new_chain (below ++ o ∷ over)) path ≡ true) ↔ All Spares over
  is_file_visible-owned below over o h k =
      let e = visible_owned below over o h k in
      (λ v. (any-Spares over).0 (ground (arith, e, v)), λ a. e ∙ ap not ((any-Spares over).1 a))

  -- A path that no layer modified is visible exactly if no layer above the bottom one deletes it or makes
  -- a directory above it opaque.
  pub is_file_visible-unowned :
      (l : LayerId) (over : List LayerId)
      → any modifies (l ∷ over) ≡ false
      → among l over ≡ false
      → is_file_visible s (new_chain (l ∷ over)) path ≡ not (any (masks s path) over)
  is_file_visible-unowned l over h k = visible_above [] over l false (owner_of_bottom l over h) k

  -- A hash cached for a layer of the chain has to be computed again exactly if a layer above the last
  -- occurrence of that one modified the path.
  pub needs_rehash_above :
      (below over : List LayerId) (c : LayerId)
      → among c over ≡ false
      → needs_rehash s (new_chain (below ++ c ∷ over)) path c ≡ any modifies over
  unfolding needs_rehash
  needs_rehash_above below over c h =
      rw (needs_rehash, position-new_chain below over c h, above-new_chain below over c h)

  -- A hash cached for a layer outside the chain has to be computed again.
  pub needs_rehash_foreign :
      (ls : List LayerId) (c : LayerId)
      → among c ls ≡ false
      → needs_rehash s (new_chain ls) path c ≡ true
  unfolding needs_rehash
  needs_rehash_foreign ls c h = rw (needs_rehash, position_absent ls c h)
