-- ===== src/Fshash/Processor/Finalize.antt =====
-- pkg/fshash/processor.go: Finalize, and events that are drained after Close.
use mathlib.Core.List.{Permᴰ}
use mathlib.Core.List.Permᴰ
use bons_ci.Base.{
  Str, suc, map, length-map, append-nil, append_assoc, sym, subst, ◌∙◌, true, false, List, [], ◌∷◌,
  ◌++◌, none, some, length, ◌≡◌, refl, ap, arith, inr,
}
use bons_ci.Base.Perm.{sort_by-list}
use bons_ci.Base.Sort.{sort_by, sort_by-Permᴰ, Distinct, length-sort_by}
use bons_ci.Fshash.Layer.Chain.{LayerId, Chain}
use bons_ci.Fshash.Overlay.Interpreter.{Mutation, deleted, interpret}
use bons_ci.Fshash.Access.Tracker.{FileHash}
use bons_ci.Fshash.Access.Dedup.{hashes_of, reset_session}
use bons_ci.Fshash.Merkle.Tree.{Node, leaf, Tree, new_tree, build}
use bons_ci.Fshash.Merkle.Tree
use bons_ci.Fshash.Merkle.Tree.Leaves.{
  build_total, leaves_of, all_leaves, all_leaves-Permᴰ, all_leaves_nil, all_leaves_cons,
}
use bons_ci.Fshash.Processor.{
  Processor, AccessEvent, chain_of, process_event, apply_mutations, apply_mutation, mark_deleted,
  root_over, insert_hashes, finalize, names_of,
}

-- The leaf of a hash.
abbrev pub leaf_of : FileHash → Node
leaf_of h = leaf h.hash h.path h.layer_id

insert_hashes_lem :
    (t : Tree) (hs : List FileHash)
    → ((insert_hashes t hs).leaves ≡ t.leaves ++ map leaf_of hs)
      × ((insert_hashes t hs).branching_factor ≡ t.branching_factor)
unfolding Tree.insert
insert_hashes_lem t [] = (sym (append-nil t.leaves), refl)
insert_hashes_lem t (h ∷ hs) =
    let (leaves, factor) = insert_hashes_lem (Tree.insert t h.path h.hash h.layer_id) hs in
    (leaves ∙ append_assoc t.leaves (leaf_of h ∷ []) (map leaf_of hs), factor)

all_leaves-leaf_of : (hs : List FileHash) → all_leaves (map leaf_of hs) ≡ map leaf_of hs
all_leaves-leaf_of [] = all_leaves_nil
all_leaves-leaf_of (h ∷ hs) =
    all_leaves_cons h.hash h.path h.layer_id (map leaf_of hs)
    ∙ ap (λ l. leaf_of h ∷ l) (all_leaves-leaf_of hs)

-- Hashes of different paths give one root, in whatever order the map of the tracker lists them.
pub root_over-order :
    (hasher : Str → Str) (xs ys : List FileHash)
    → Permᴰ xs ys
    → Distinct (λ h. h.path) xs
    → root_over hasher xs ≡ root_over hasher ys
unfolding root_over
root_over-order hasher xs ys p h =
    ap (λ sorted. (build hasher (insert_hashes (new_tree []) sorted)).1)
      (sort_by-Permᴰ (λ x. x.path) xs ys p h)

root_over_total :
    (hasher : Str → Str) (h : FileHash) (hs : List FileHash)
    → (root : Node) × (root_over hasher (h ∷ hs) ≡ some root)
      × Permᴰ (leaves_of root) (map leaf_of (h ∷ hs))
unfolding root_over new_tree
root_over_total hasher h hs =
    let sorted = sort_by (λ x. x.path) (h ∷ hs) in
    let (leaves, factor) = insert_hashes_lem (new_tree []) sorted in
    let same : length (map leaf_of sorted) ≡ suc (length hs) =
      length-map leaf_of sorted ∙ length-sort_by (λ x. x.path) (h ∷ hs) in
    let size = ap (λ l. length l) leaves in
    let (root, ns, e, below, listed, _) =
      build_total hasher (insert_hashes (new_tree []) sorted) (omega (arith, size, same))
        (omega (arith, factor)) in
    (
      root,
      e,
      subst (λ l. Permᴰ l (map leaf_of (h ∷ hs))) (sym below)
          (Permᴰ.trans (all_leaves-Permᴰ ns (map leaf_of sorted) (subst (Permᴰ ns) leaves listed)) (
            subst (λ l. Permᴰ l (map leaf_of (h ∷ hs))) (sym (all_leaves-leaf_of sorted))
              (Permᴰ.map leaf_of (sort_by-list (λ x. x.path) (h ∷ hs))))),
    )

-- On an open processor, a layer with hashes is finalized: the answer is a root whose leaves are one for each hash, with its
-- path, its hash and its layer, and the session of the deduplicator starts again.
pub finalize_total :
    (hasher : Str → Str) (p : Processor) (id : LayerId) (h : FileHash) (hs : List FileHash)
    → p.closed ≡ false
    → hashes_of p.dedup id ≡ h ∷ hs
    → (root : Node) × (finalize hasher p id
        ≡ (record p { dedup = reset_session p.dedup }, inr root))
      × Permᴰ (leaves_of root) (map leaf_of (h ∷ hs))
unfolding finalize
finalize_total hasher p id h hs c e =
    let (root, built, n) = root_over_total hasher h hs in (root, ground (arith, c, e, built), n)

-- A whiteout that waits in the channel when the processor is closed is dropped: its event is drained
-- without an error, and nothing is marked as deleted.
pub drained_whiteout_lost :
    (hasher : Str → Str) (p : Processor) (e : AccessEvent) (chain : Chain) (m : Mutation)
    → p.closed ≡ true
    → chain_of p e.layer_id ≡ some chain
    → interpret p.parser (names_of e.path) e.layer_id ≡ m ∷ []
    → m.kind ≡ deleted
    → process_event hasher p e ≡ some (p, none)
unfolding process_event apply_mutations apply_mutation mark_deleted
drained_whiteout_lost hasher p e chain m c found only kind = ground (arith, c, found, only, kind)
