-- ===== src/Fshash/Layer/Chain/Laws.antt =====
-- pkg/fshash/layer/chain.go: positions in a chain.
use bons_ci.Base.{
  str_key, str_eqb, str_eqb_iff, ℕ, suc, ◌+◌, ◌-◌, Bool, true, false, List, [], ◌∷◌, ◌++◌, none,
  some, length, drop, any, length-append, ◌≡◌, refl, ◌∙◌, arith, leb,
}
use bons_ci.Base.Dict.{lookup, insert, lookup-insert}
use bons_ci.Fshash.Layer.Chain.{LayerId, index_from, new_chain, position, above}

abbrev pub among : LayerId → List LayerId → Bool
among id ls = any (str_eqb id) ls

lookup-index_from_absent :
    (i : ℕ) (ls : List LayerId) (m : List (LayerId × ℕ)) (id : LayerId)
    → among id ls ≡ false
    → lookup id (index_from i ls m) ≡ lookup id m
unfolding index_from
lookup-index_from_absent i [] m id h = refl
lookup-index_from_absent i (l ∷ ls) m id h =
    lookup-index_from_absent (i + 1) ls (insert l i m) id (ground arith)
    ∙ ground (arith, lookup-insert l id i m, str_eqb_iff id l, str_eqb_iff l id)

lookup-index_from :
    (i : ℕ) (below above : List LayerId) (m : List (LayerId × ℕ)) (id : LayerId)
    → among id above ≡ false
    → lookup id (index_from i (below ++ id ∷ above) m) ≡ some (i + length below)
unfolding index_from
lookup-index_from i [] above m id h =
    lookup-index_from_absent (i + 1) above (insert id i m) id h
    ∙ ground (arith, lookup-insert id id i m, str_eqb_iff id id)
lookup-index_from i (l ∷ below) above m id h =
    lookup-index_from (i + 1) below above (insert l i m) id h ∙ ground arith

-- The position of a layer is that of its last occurrence.
pub position-new_chain :
    (below above : List LayerId) (id : LayerId)
    → among id above ≡ false
    → position (new_chain (below ++ id ∷ above)) id ≡ some (length below)
unfolding new_chain position
position-new_chain below above id h = lookup-index_from 0 below above [] id h ∙ ground arith

-- A layer that is not in the chain has no position.
pub position_absent :
    (ls : List LayerId) (id : LayerId) → among id ls ≡ false → position (new_chain ls) id ≡ none
unfolding new_chain position lookup
position_absent ls id h = lookup-index_from_absent 0 ls [] id h

pub drop-append :
    (below above : List LayerId) (id : LayerId)
    → drop (length below + 1) (below ++ id ∷ above) ≡ above
drop-append [] above id = refl
drop-append (l ∷ below) above id =
    let e : suc (length below) + 1 ≡ suc (length below + 1) = omega arith in
    rw e (drop-append below above id)

-- `Above` of a layer is what stands above its last occurrence.
pub above-new_chain :
    (below rest : List LayerId) (id : LayerId)
    → among id rest ≡ false
    → above (new_chain (below ++ id ∷ rest)) id ≡ rest
unfolding above new_chain
above-new_chain below [] id h =
    let short : leb (length (below ++ id ∷ []) - 1) (length below) ≡ true =
      ground (arith, length-append below (id ∷ [])) in
    rw (position-new_chain below [] id h, short, above)
above-new_chain below (r ∷ rest) id h =
    let long : leb (length (below ++ id ∷ r ∷ rest) - 1) (length below) ≡ false =
      ground (arith, length-append below (id ∷ r ∷ rest)) in
    rw (position-new_chain below (r ∷ rest) id h, long, above) (drop-append below (r ∷ rest) id)
