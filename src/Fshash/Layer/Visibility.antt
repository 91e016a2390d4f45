-- ===== src/Fshash/Layer/Visibility.antt =====
-- pkg/fshash/overlay/visibility.go: `ChainVisibilityChecker`.
pub mod Findings
use bons_ci.Base.{
  Str, codes, str_eqb, has_prefix, ℕ, ◌+◌, Bool, true, false, ◌&&◌, List, [], ◌∷◌, ◌++◌, Option,
  none, some, if◌then◌else◌, any, take, keep, reverse,
}
use bons_ci.Base.Segments.{split}
use bons_ci.Fshash.Layer.Chain.{LayerId, Chain, position}
use bons_ci.Fshash.Layer.Store.{Store, is_deleted, is_opaque}

-- One round of the loop over the parts of the path: the directory that it comes to.
abbrev pub next_path : Str → Str → Str → Str
next_path path [] part = if has_prefix path (codes "/") then codes "/" ++ part else part
next_path path (c ∷ current) part =
    if str_eqb (c ∷ current) (codes "/")
    then codes "/" ++ part
    else (c ∷ current) ++ codes "/" ++ part

-- The directories above the path that the loop comes to, from the top.
abbrev pub current_paths : Str → Str → List Str → List Str
current_paths path current [] = []
current_paths path current (part ∷ []) = []
current_paths path current (part ∷ next ∷ parts) =
    let dir = next_path path current part in
    let skipped = current_paths path current (next ∷ parts) in
    let rest = current_paths path dir (next ∷ parts) in
    if str_eqb part [] && str_eqb current [] then skipped else dir ∷ rest

-- The loop over the layers. The test for an opaque directory has a body of comments only.
unfoldable pub visible_through : Store → Str → List LayerId → Bool
visible_through s path [] = true
visible_through s path (l ∷ ls) =
    let rest = visible_through s path ls in
    if is_deleted s l path
    then false
    else if any (is_opaque s l) (current_paths path [] (split path))
    then rest
    else rest

-- `IsVisible`: the loop runs from the given layer down to the bottom.
unfoldable pub is_visible : Store → Chain → LayerId → Str → Bool
unfolding visible_through
is_visible s chain layer path = elim (position chain layer) [
  | none ↦ false
  | some pos ↦ visible_through s path (reverse (take (pos + 1) chain.layers))
]

unfoldable pub visible_paths : Store → Chain → LayerId → List Str → List Str
visible_paths s chain layer paths = keep (is_visible s chain layer) paths
