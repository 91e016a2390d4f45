-- ===== src/Fshash/Processor/Laws.antt =====
-- pkg/fshash/processor.go: registration, events and what a closed processor answers.
use bons_ci.Base.{
  Str, str_key, str_eqb, true, List, [], ◌∷◌, ◌++◌, Option, none, some, is_some, if◌then◌else◌, ◌≡◌,
  refl, sym, ◌∙◌, ap, subst, arith, Option-cases, Bool-cases, inl, inr, append-nil, append_assoc,
}
use bons_ci.Base.Dict.{lookup, insert, lookup-insert}
use bons_ci.Fshash.Layer.Chain.{LayerId, Chain, is_zero, push, build, new_chain}
use bons_ci.Fshash.Layer.Store.{Store, StoreError, register, exists, new_manifest}
use bons_ci.Fshash.Layer.Store
use bons_ci.Fshash.Layer.Store.Laws.{register-none}
use bons_ci.Fshash.Cache.Sharded.Laws.{sharded_put_total}
use bons_ci.Fshash.Overlay.Interpreter.{Mutation, MutationKind, interpret}
use bons_ci.Fshash.Access.Tracker.{FileHash, record_hash}
use bons_ci.Fshash.Access.Dedup.{Deduplicator, Action, process, record_computed}
use bons_ci.Fshash.Access.Dedup.Laws.{IsValid, process_total}
use bons_ci.Fshash.Processor.{
  Processor, AccessEvent, Failure, is_closed, layer_not_found, register_layer, mark_modified,
  mark_deleted, mark_opaque, submit, finalize, close, chain_of, parent_layers, push_all,
  process_event, apply_action, process_modified, apply_mutation, apply_mutations, file_hash,
  with_layers, names_of, text_of,
}

-- A closed processor refuses every operation with the same error and stays as it is, and closing it again
-- changes nothing.
pub closed_lem :
    (hasher : Str → Str) (p : Processor) (id parent_id : LayerId) (path : Str) (e : AccessEvent)
    → p.closed ≡ true
    → (register_layer p id parent_id ≡ (p, some is_closed))
      × (mark_modified p id path ≡ (p, some is_closed))
      × (mark_deleted p id path ≡ (p, some is_closed))
      × (mark_opaque p id path ≡ (p, some is_closed))
      × (submit hasher p e ≡ some (p, some is_closed))
      × (finalize hasher p id ≡ (p, inl is_closed))
      × (close p ≡ p)
unfolding register_layer mark_modified mark_deleted mark_opaque submit finalize close
closed_lem hasher p id parent_id path e h =
    (rw h refl, rw h refl, rw h refl, rw h refl, rw h refl, rw h refl, rw h refl)

push_all_append : (b ls : List LayerId) → push_all b ls ≡ b ++ ls
unfolding push
push_all_append b [] = sym (append-nil b)
push_all_append b (l ∷ ls) = push_all_append (b ++ l ∷ []) ls ∙ append_assoc b (l ∷ []) ls

-- The layers of the chain of the parent, if it has one.
abbrev pub ancestry : Option Chain → List LayerId
ancestry none = []
ancestry (some c) = c.layers

registered_chain :
    (p : Processor) (id parent_id : LayerId)
    → (register_layer p id parent_id).1 ≡ none
    → ((register_layer p id parent_id).0.chains
        ≡ insert id (build (push (parent_layers p parent_id) id)) p.chains)
      × ((register p.dedup.layers id parent_id).1 ≡ none)
      × ((register_layer p id parent_id).0.dedup.layers ≡ (register p.dedup.layers id parent_id).0)
unfolding register_layer
registered_chain p id parent_id h = ground arith

parent_layers-ancestry :
    (p : Processor) (parent_id : LayerId)
    → parent_layers p parent_id
      ≡ ancestry (if is_zero parent_id then none else chain_of p parent_id)
parent_layers-ancestry p parent_id = elim (Bool-cases (is_zero parent_id)) [
  | inl z ↦ rw z refl
  | inr z ↦ elim (Option-cases (chain_of p parent_id)) [
    | inl e ↦ rw (z, e) refl
    | inr (c, e) ↦ rw (z, e) (push_all_append [] c.layers)
  ]
]

-- A registration without an error gives the layer the chain of its parent, if it has one, with the layer on
-- top, and leaves the chains of the other layers.
pub register_layer_lem :
    (p : Processor) (id parent_id j : LayerId)
    → (register_layer p id parent_id).1 ≡ none
    → chain_of (register_layer p id parent_id).0 j ≡ (
        if str_eqb id j
        then some (
            new_chain
              (ancestry (if is_zero parent_id then none else chain_of p parent_id) ++ id ∷ []))
        else chain_of p j)
unfolding push build
register_layer_lem p id parent_id j h =
    let chain = build (push (parent_layers p parent_id) id) in
    let (chains, _, _) = registered_chain p id parent_id h in
    ap (λ m. lookup j m) chains
    ∙ lookup-insert id j chain p.chains
    ∙ ap (λ ls. if str_eqb id j then some (new_chain (ls ++ id ∷ [])) else chain_of p j)
        (parent_layers-ancestry p parent_id)

register-failed :
    (s : Store) (id parent_id : LayerId) (e : StoreError)
    → (register s id parent_id).1 ≡ some e
    → (register s id parent_id).0 ≡ s
unfolding register
register-failed s id parent_id e h = ground arith

-- A registration with an error changes nothing.
pub register_layer-failed :
    (p : Processor) (id parent_id : LayerId) (f : Failure)
    → (register_layer p id parent_id).1 ≡ some f
    → (register_layer p id parent_id).0 ≡ p
unfolding register_layer
register_layer-failed p id parent_id f h =
    let r = register p.dedup.layers id parent_id in
    elim (Option-cases r.1) [
      | inl e ↦ ground arith
      | inr (x, e) ↦
          let same : with_layers p r.0 ≡ p =
            ap (with_layers p) (register-failed p.dedup.layers id parent_id x e) in
          ground arith
    ]

-- Exactly the registered layers have a chain.
abbrev pub IsCoherent : Processor → Type 0
IsCoherent p = (id : LayerId) → exists p.dedup.layers id ≡ is_some (chain_of p id)

-- A registration keeps the registered layers and the layers with a chain the same, whether it fails or not.
pub register_layer-IsCoherent :
    (p : Processor) (id parent_id : LayerId)
    → IsCoherent p
    → IsCoherent (register_layer p id parent_id).0
register_layer-IsCoherent p id parent_id c = elim (Option-cases (register_layer p id parent_id).1) [
  | inr (f, e) ↦ subst IsCoherent (sym (register_layer-failed p id parent_id f e)) c
  | inl e ↦
      let (_, ok, layers) = registered_chain p id parent_id e in
      λ j.
        let (_, known, _, _, _) = register-none p.dedup.layers id parent_id j [] ok in
        ap (λ s. exists s j) layers
        ∙ ground (arith, known, register_layer_lem p id parent_id j e, c j)
]

pub record_computed_total :
    (d : Deduplicator) (h : FileHash)
    → IsValid d
    → (next : Deduplicator) × (record_computed d h ≡ some next) × IsValid next
unfolding record_computed
record_computed_total d h v =
    let (cache, e, valid, _) = sharded_put_total d.cache h.layer_id h.path h v.1 in
    (
      record d { cache = cache; tracker = record_hash d.tracker h.layer_id h },
      rw (record_computed, e) refl,
      (v.0, valid, v.2),
    )

apply_action_total :
    (hasher : Str → Str) (d : Deduplicator) (e : AccessEvent) (path : Str) (a : Action)
    → IsValid d
    → (next : Deduplicator) × (apply_action hasher d e path a ≡ some next) × IsValid next
unfolding apply_action
apply_action_total hasher d e path Action.compute v =
    record_computed_total d (file_hash hasher e path) v
apply_action_total hasher d e path (Action.reuse h) v = (d, refl, v)
apply_action_total hasher d e path Action.skip v = (d, refl, v)
apply_action_total hasher d e path Action.exclude v = (d, refl, v)

-- What a step on an event leaves of the processor.
abbrev Follows : Processor → Option Processor → Type 0
Follows p r =
    (next : Processor) × (r ≡ some next)
    × IsValid next.dedup
    × (next.chains ≡ p.chains)
    × (next.closed ≡ p.closed)

process_runs :
    (d : Deduplicator) (id : LayerId) (path : Str) (chain : Chain)
    → IsValid d
    → (next : Deduplicator) × (a : Action) × (process d id path chain ≡ some (next, a))
      × IsValid next
process_runs d id path chain v =
    let (next, _, _, step, valid) = process_total d id path chain v in (next, _, step, valid)

process_modified_total :
    (hasher : Str → Str) (p : Processor) (e : AccessEvent) (chain : Chain) (path : Str)
    → IsValid p.dedup
    → Follows p (process_modified hasher p e chain path)
unfolding process_modified
process_modified_total hasher p e chain path v =
    let (d, a, step, valid) = process_runs p.dedup e.layer_id path chain v in
    let (next, done, valid') = apply_action_total hasher d e path a valid in
    (record p { dedup = next }, rw (process_modified, step, done) refl, valid', refl, refl)

mark_deleted_layers :
    (p : Processor) (id : LayerId) (path : Str)
    → (s : Store) × ((mark_deleted p id path).0 ≡ with_layers p s)
unfolding mark_deleted
mark_deleted_layers p id path = elim (Bool-cases p.closed) [
  | inl c ↦ (p.dedup.layers, ground arith)
  | inr c ↦ ((Store.mark_deleted p.dedup.layers id path).0, ground arith)
]

mark_opaque_layers :
    (p : Processor) (id : LayerId) (path : Str)
    → (s : Store) × ((mark_opaque p id path).0 ≡ with_layers p s)
unfolding mark_opaque
mark_opaque_layers p id path = elim (Bool-cases p.closed) [
  | inl c ↦ (p.dedup.layers, ground arith)
  | inr c ↦ ((Store.mark_opaque p.dedup.layers id path).0, ground arith)
]

kept_valid :
    (p next : Processor) (s : Store)
    → IsValid p.dedup
    → next ≡ with_layers p s
    → Follows p (some next)
kept_valid p next s v e = rw e (with_layers p s, refl, v, refl, refl)

apply_mutation_kind :
    (hasher : Str → Str) (p : Processor) (e : AccessEvent) (chain : Chain) (m : Mutation)
    (k : MutationKind)
    → m.kind ≡ k
    → IsValid p.dedup
    → Follows p (apply_mutation hasher p e chain m)
unfolding apply_mutation
apply_mutation_kind hasher p e chain m MutationKind.deleted h v =
    let (s, same) = mark_deleted_layers p m.layer_id (text_of m.path) in
    rw (apply_mutation, h) (kept_valid p _ s v same)
apply_mutation_kind hasher p e chain m MutationKind.opaqued h v =
    let (s, same) = mark_opaque_layers p m.layer_id (text_of m.path) in
    rw (apply_mutation, h) (kept_valid p _ s v same)
apply_mutation_kind hasher p e chain m MutationKind.modified h v =
    rw (apply_mutation, h) (process_modified_total hasher p e chain (text_of m.path) v)
apply_mutation_kind hasher p e chain m MutationKind.renamed h v =
    rw (apply_mutation, h) (p, refl, v, refl, refl)

apply_mutations_total :
    (hasher : Str → Str) (p : Processor) (e : AccessEvent) (chain : Chain) (ms : List Mutation)
    → IsValid p.dedup
    → Follows p (apply_mutations hasher p e chain ms)
unfolding apply_mutations
apply_mutations_total hasher p e chain [] v = (p, refl, v, refl, refl)
apply_mutations_total hasher p e chain (m ∷ ms) v =
    let (q, step, valid, chains, closed) = apply_mutation_kind hasher p e chain m m.kind refl v in
    let (r, rest, valid', chains', closed') = apply_mutations_total hasher q e chain ms valid in
    (r, rw (apply_mutations, step) rest, valid', chains' ∙ chains, closed' ∙ closed)

-- On a valid processor an event is processed without a panic, keeps it valid, open and with its chains, and
-- its only error is that of a layer without a chain.
pub process_event_total :
    (hasher : Str → Str) (p : Processor) (e : AccessEvent)
    → IsValid p.dedup
    → (next : Processor) × (process_event hasher p e
        ≡ some (next, if is_some (chain_of p e.layer_id) then none else some layer_not_found))
      × IsValid next.dedup
      × (next.chains ≡ p.chains)
      × (next.closed ≡ p.closed)
unfolding process_event
process_event_total hasher p e v = elim (Option-cases (chain_of p e.layer_id)) [
  | inl none_found ↦ (p, rw (process_event, none_found) refl, v, refl, refl)
  | inr (chain, found) ↦
      let ms = interpret p.parser (names_of e.path) e.layer_id in
      let (next, steps, valid, chains, closed) = apply_mutations_total hasher p e chain ms v in
      (next, rw (process_event, found, steps) refl, valid, chains, closed)
]
