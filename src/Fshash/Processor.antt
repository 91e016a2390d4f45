-- ===== src/Fshash/Processor.antt =====
-- pkg/fshash/processor.go, and `AccessEvent.Validate` of internal/core/types.go: the processor over the
-- store, the deduplicator and the chains of the layers. The store of the processor is the deduplicator's.
-- The hash function of package chunk is a parameter, hooks only observe, an event is one step of a worker,
-- and `none` is a panic. Paths are absolute and clean.
pub mod Laws
pub mod Finalize
use bons_ci.Base.{
  Str, str_key, ℕ, Bool, true, false, not, List, [], ◌∷◌, Option, none, some, if◌then◌else◌, ◌==◌,
  ◌⊎◌, inl, inr, keep, codes,
}
use bons_ci.Base.Dict.{lookup, insert}
use bons_ci.Base.Sort.{sort_by}
use bons_ci.Base.Segments.{Segments, split, join}
use bons_ci.Fshash.Layer.Chain.{LayerId, Chain, is_zero, push, build}
use bons_ci.Fshash.Layer.Store.{Store, StoreError, register}
use bons_ci.Fshash.Layer.Store
use bons_ci.Fshash.Overlay.Parser.{Parser}
use bons_ci.Fshash.Overlay.Interpreter.{Mutation, MutationKind, interpret}
use bons_ci.Fshash.Access.Tracker.{FileHash}
use bons_ci.Fshash.Access.Dedup.{
  Deduplicator, Action, process, record_computed, hashes_of, reset_session,
}
use bons_ci.Fshash.Merkle.Tree.{Node, Tree, new_tree}
use bons_ci.Fshash.Merkle.Tree

pub record AccessEvent : Type 0 where
  pub layer_id : LayerId
  pub path : Str
  pub op : ℕ
  pub content : Option Str

pub data Failure : Type 0 where
  is_closed missing_layer_id missing_path missing_op layer_not_found tree_empty : Failure
  of_store : StoreError → Failure

pub record Processor : Type 0 where
  pub dedup : Deduplicator
  pub parser : Parser
  pub chains : List (LayerId × Chain)
  pub closed : Bool

-- The names of a path, and the path of the names.
abbrev pub names_of : Str → Segments
names_of p = keep (λ s. not (is_zero s)) (split p)

abbrev pub text_of : Segments → Str
text_of [] = codes "/"
text_of (s ∷ ss) = b'/' ∷ join (s ∷ ss)

-- `Validate`
unfoldable pub validate : AccessEvent → Option Failure
validate e =
    if is_zero e.layer_id
    then some missing_layer_id
    else if is_zero e.path
    then some missing_path
    else if e.op == 0
    then some missing_op
    else none

abbrev pub with_layers : Processor → Store → Processor
with_layers p layers = record p { dedup = record p.dedup { layers = layers } }

-- `Chain`: the chain of a layer, `none` for nil.
abbrev pub chain_of : Processor → LayerId → Option Chain
chain_of p id = lookup id p.chains

-- The pushes of the layers of the parent's chain.
abbrev pub push_all : List LayerId → List LayerId → List LayerId
push_all b [] = b
push_all b (l ∷ ls) = push_all (push b l) ls

abbrev pub parent_layers : Processor → LayerId → List LayerId
parent_layers p parent_id =
    if is_zero parent_id
    then []
    else elim (lookup parent_id p.chains) [ none ↦ [] | some c ↦ push_all [] c.layers ]

unfoldable pub register_layer : Processor → LayerId → LayerId → Processor × Option Failure
register_layer p id parent_id =
    if p.closed
    then (p, some is_closed)
    else let r = register p.dedup.layers id parent_id in
      elim r.1 [
        | some e ↦ (with_layers p r.0, some (of_store e))
        | none ↦
            let chain = build (push (parent_layers p parent_id) id) in
            (record (with_layers p r.0) { chains = insert id chain p.chains }, none)
      ]

abbrev pub failure_of : Option StoreError → Option Failure
failure_of none = none
failure_of (some e) = some (of_store e)

abbrev pub after_mark : Processor → Store × Option StoreError → Processor × Option Failure
after_mark p (layers, e) = (with_layers p layers, failure_of e)

unfoldable pub mark_modified : Processor → LayerId → Str → Processor × Option Failure
mark_modified p id path =
    if p.closed
    then (p, some is_closed)
    else after_mark p (Store.mark_modified p.dedup.layers id path)

unfoldable pub mark_deleted : Processor → LayerId → Str → Processor × Option Failure
mark_deleted p id path =
    if p.closed
    then (p, some is_closed)
    else after_mark p (Store.mark_deleted p.dedup.layers id path)

unfoldable pub mark_opaque : Processor → LayerId → Str → Processor × Option Failure
mark_opaque p id path =
    if p.closed
    then (p, some is_closed)
    else after_mark p (Store.mark_opaque p.dedup.layers id path)

-- The loop that inserts the hashes.
abbrev pub insert_hashes : Tree → List FileHash → Tree
insert_hashes t [] = t
insert_hashes t (h ∷ hs) = insert_hashes (Tree.insert t h.path h.hash h.layer_id) hs

module _ (hasher : Str → Str) where
  -- The hash of the data of the event, or of its path if it has none.
  abbrev pub hash_event : AccessEvent → Str → Str
  hash_event e path = elim e.content [ none ↦ hasher path | some bytes ↦ hasher bytes ]

  abbrev pub file_hash : AccessEvent → Str → FileHash
  file_hash e path = record { path = path; hash = hash_event e path; layer_id = e.layer_id }

  -- What follows an answer of the deduplicator.
  unfoldable pub apply_action : Deduplicator → AccessEvent → Str → Action → Option Deduplicator
  apply_action d e path Action.compute = record_computed d (file_hash e path)
  apply_action d e path (Action.reuse h) = some d
  apply_action d e path Action.skip = some d
  apply_action d e path Action.exclude = some d

  unfoldable pub process_modified : Processor → AccessEvent → Chain → Str → Option Processor
  unfolding apply_action
  process_modified p e chain path = elim (process p.dedup e.layer_id path chain) [
    | none ↦ none
    | some (d, action) ↦ elim (apply_action d e path action) [
      | none ↦ none
      | some d' ↦ some (record p { dedup = d' })
    ]
  ]

  -- The switch on the kind of a mutation; the errors of the marks are dropped.
  unfoldable pub apply_mutation : Processor → AccessEvent → Chain → Mutation → Option Processor
  unfolding process_modified mark_deleted mark_opaque
  apply_mutation p e chain m = elim m.kind [
    | MutationKind.deleted ↦ some (mark_deleted p m.layer_id (text_of m.path)).0
    | MutationKind.opaqued ↦ some (mark_opaque p m.layer_id (text_of m.path)).0
    | MutationKind.modified ↦ process_modified p e chain (text_of m.path)
    | MutationKind.renamed ↦ some p
  ]

  unfoldable pub apply_mutations :
      Processor → AccessEvent → Chain → List Mutation → Option Processor
  unfolding apply_mutation
  apply_mutations p e chain [] = some p
  apply_mutations p e chain (m ∷ ms) = elim (apply_mutation p e chain m) [
    | none ↦ none
    | some p' ↦ apply_mutations p' e chain ms
  ]

  unfoldable pub process_event : Processor → AccessEvent → Option (Processor × Option Failure)
  unfolding apply_mutations
  process_event p e = elim (chain_of p e.layer_id) [
    | none ↦ some (p, some layer_not_found)
    | some chain ↦
        elim (apply_mutations p e chain (interpret p.parser (names_of e.path) e.layer_id)) [
          | none ↦ none
          | some p' ↦ some (p', none)
        ]
  ]

  -- `Submit` whose event is taken by a worker before its context ends.
  unfoldable pub submit : Processor → AccessEvent → Option (Processor × Option Failure)
  unfolding validate process_event
  submit p e =
      if p.closed
      then some (p, some is_closed)
      else elim (validate e) [ some failure ↦ some (p, some failure) | none ↦ process_event p e ]

  -- The tree over the hashes in the order of their paths: its root, `none` for the error of `Build`.
  unfoldable pub root_over : List FileHash → Option Node
  root_over hashes =
      (Tree.build hasher (insert_hashes (new_tree []) (sort_by (λ h. h.path) hashes))).1

  unfoldable pub finalize : Processor → LayerId → Processor × (Failure ⊎ Node)
  unfolding root_over
  finalize p id = if p.closed then (p, inl is_closed) else elim (hashes_of p.dedup id) [
    | [] ↦ (p, inl tree_empty)
    | h ∷ hs ↦ elim (root_over (h ∷ hs)) [
      | none ↦ (p, inl tree_empty)
      | some root ↦ (record p { dedup = reset_session p.dedup }, inr root)
    ]
  ]

-- `Close`: a second call changes nothing.
unfoldable pub close : Processor → Processor
close p = if p.closed then p else record p { closed = true }
