-- ===== src/Layermerkle/Dedup/Vertices.antt =====
-- pkg/layermerkle/deduplicator.go: the vertices of a processor do not disturb one another.
use bons_ci.Base.{
  Str, str_key, str_eqb, str_eqb_iff, List, [], ◌∷◌, Option, none, some, if◌then◌else◌, ◌≡◌, refl,
  ap, ◌∙◌, arith,
}
use bons_ci.Base.Dict.{lookup, delete, lookup-insert, lookup-delete}
use bons_ci.Layermerkle.HashCache.{HashCache}
use bons_ci.Layermerkle.Merkle.{VertexId, MerkleTreeBuilder, new_builder, add, finalize, add_tree}
use bons_ci.Layermerkle.Dedup.{
  LayerFileResolver, FileHasher, Resolved, found, failed, resolve, AccessEvent, hash_result,
  VertexProcessor, get_or_create_builder, record_result, process, finalize_vertex,
}

abbrev Trace : Type 0
Trace = List (AccessEvent × Resolved)

module _ (clean : Str → Str) where
  -- What a result does to the builder of its vertex, where there may be none yet.
  abbrev add_result : Option MerkleTreeBuilder → AccessEvent → Resolved → Option MerkleTreeBuilder
  add_result o ev (failed e) = o
  add_result o ev (found h l f) = some (
      add clean (elim o [ some b ↦ b | none ↦ new_builder ev.vertex_id ev.layer_stack ])
        (hash_result ev.rel_path (found h l f)))

  -- The builder of a vertex from the results for that vertex alone.
  abbrev pub builder_of : VertexId → Option MerkleTreeBuilder → Trace → Option MerkleTreeBuilder
  builder_of v o [] = o
  builder_of v o ((ev, a) ∷ t) =
      builder_of v (if str_eqb ev.vertex_id v then add_result o ev a else o) t

  lookup-record_result :
      {S : Type 0}
      → (vp : VertexProcessor S) (ev : AccessEvent) (s : S) (a : Resolved) (v : VertexId)
      → lookup v (record_result clean vp ev (s, a)).builders ≡ (
          if str_eqb ev.vertex_id v
          then add_result (lookup v vp.builders) ev a
          else lookup v vp.builders)
  lookup-record_result vp ev s (failed e) v = ground arith
  lookup-record_result vp ev s (found h o f) v = ground (
    arith,
    str_eqb_iff ev.vertex_id v,
    lookup-insert ev.vertex_id v
        (add clean (get_or_create_builder vp.builders ev.vertex_id ev.layer_stack)
          (hash_result ev.rel_path (found h o f)))
        vp.builders,
  )

  module _ {S : Type 0} (c : HashCache S) (r : LayerFileResolver) (hasher : FileHasher) where
    -- The events one after the other, and their results.
    abbrev pub process_all : VertexProcessor S → List AccessEvent → VertexProcessor S × Trace
    process_all vp [] = (vp, [])
    process_all vp (ev ∷ evs) =
        let (vp', a) = process c r hasher clean vp ev in
        let (vp'', t) = process_all vp' evs in (vp'', (ev, a) ∷ t)

    lookup-process :
        (vp : VertexProcessor S) (ev : AccessEvent) (v : VertexId)
        → lookup v (process c r hasher clean vp ev).0.builders ≡ (
            if str_eqb ev.vertex_id v
            then add_result (lookup v vp.builders) ev (process c r hasher clean vp ev).1
            else lookup v vp.builders)
    unfolding process
    lookup-process vp ev v =
        let res = resolve c r hasher vp.cache ev.layer_stack ev.rel_path in
        lookup-record_result vp ev res.0 res.1 v

    builders-process_all :
        (vp : VertexProcessor S) (evs : List AccessEvent) (v : VertexId)
        → lookup v (process_all vp evs).0.builders
          ≡ builder_of v (lookup v vp.builders) (process_all vp evs).1
    builders-process_all vp [] v = refl
    builders-process_all vp (ev ∷ evs) v =
        builders-process_all (process c r hasher clean vp ev).0 evs v
        ∙ ap (λ o. builder_of v o (process_all (process c r hasher clean vp ev).0 evs).1)
            (lookup-process vp ev v)

    finalize_vertex_lem :
        (sha256 hex : Str → Str) (vp : VertexProcessor S) (v : VertexId)
        (b : Option MerkleTreeBuilder)
        → lookup v vp.builders ≡ b
        → let sealed = finalize_vertex sha256 hex vp v in
          (sealed.1 ≡ elim b [ none ↦ none | some x ↦ some (finalize sha256 hex x) ])
          × (sealed.0.forest
              ≡ elim b [ none ↦ vp.forest | some x ↦ add_tree vp.forest (finalize sha256 hex x) ])
          × ((finalize_vertex sha256 hex sealed.0 v).1 ≡ none)
    unfolding finalize_vertex
    finalize_vertex_lem sha256 hex vp v none e =
        rw (e, finalize_vertex) (refl, refl, rw (e, finalize_vertex))
    finalize_vertex_lem sha256 hex vp v (some b) e =
        let gone : lookup v (delete v vp.builders) ≡ none =
          lookup-delete v v vp.builders ∙ (rw ((str_eqb_iff v v).1 refl)) in
        rw (e, finalize_vertex) (refl, refl, rw (gone, finalize_vertex))

    -- After any events, a vertex that has a builder, from before or from a result of its own, is finalized into the
    -- tree of that builder and of the results for the vertex alone, in the order in which they came, and this tree is
    -- added to the forest; a vertex that has none gives no tree and leaves the forest. Finalized once more, the
    -- vertex gives no tree.
    pub finalize_vertex-process_all :
        (sha256 hex : Str → Str) (vp : VertexProcessor S) (evs : List AccessEvent) (v : VertexId)
        → let done = process_all vp evs in
          let b = builder_of v (lookup v vp.builders) done.1 in
          let sealed = finalize_vertex sha256 hex done.0 v in
          (sealed.1 ≡ elim b [ none ↦ none | some x ↦ some (finalize sha256 hex x) ])
          × (sealed.0.forest ≡ elim b [
            | none ↦ done.0.forest
            | some x ↦ add_tree done.0.forest (finalize sha256 hex x)
          ])
          × ((finalize_vertex sha256 hex sealed.0 v).1 ≡ none)
    finalize_vertex-process_all sha256 hex vp evs v =
        let done = process_all vp evs in
        let e = builders-process_all vp evs v in
        finalize_vertex_lem sha256 hex done.0 v (builder_of v (lookup v vp.builders) done.1) e
