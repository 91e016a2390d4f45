-- ===== src/Fshash/Tests/Processors.antt =====
-- pkg/fshash/processor.go: a processor of one layer, open and closed.
use bons_ci.Base.{
  map, Str, codes, str_key, true, false, [], ◌∷◌, none, some, is_some, if◌then◌else◌, ◌≡◌, refl,
  arith, inr,
}
use bons_ci.Base.Dict.{lookup, insert}
use bons_ci.Base.Segments.{split}
use bons_ci.Fshash.Layer.Chain.{Chain, new_chain}
use bons_ci.Fshash.Layer.Store.{register, exists}
use bons_ci.Fshash.Overlay.Parser.{default_parser, parse, file_base, trim_prefix, join_name}
use bons_ci.Fshash.Overlay.Interpreter.{Mutation, MutationKind, interpret, mutations_of}
use bons_ci.Fshash.Access.Tracker.{FileHash, record_hash, file_hashes, get_or_create_manifest}
use bons_ci.Fshash.Access.Dedup.{Deduplicator, hashes_of, reset_session}
use bons_ci.Fshash.Access.Dedup.Laws.{IsValid}
use bons_ci.Fshash.Merkle.Tree.{Node}
use bons_ci.Fshash.Processor.{
  Processor, AccessEvent, layer_not_found, register_layer, finalize, chain_of, process_event,
  names_of,
}
use bons_ci.Fshash.Processor.Laws.{IsCoherent, process_event_total}
use mathlib.Core.List.{Permᴰ}
use bons_ci.Fshash.Merkle.Tree.Leaves.{leaves_of}
use bons_ci.Fshash.Processor.Finalize.{finalize_total, leaf_of, drained_whiteout_lost}
use bons_ci.Fshash.Tests.{l1, l2, file, bare, cache, cache-IsValidStore, hash_1}
use bons_ci.Fshash.Tests.Accesses.{filter, filter-IsValidFilter}

-- Not a hash function of use, but injective and without a fixed point.
abbrev longer : Str → Str
longer s = 0 ∷ s

abbrev dedup : Deduplicator
dedup = record {
  layers = bare;
  cache = cache;
  filter = filter;
  tracker = record_hash [] l1 hash_1;
  received = 0;
  computed = 0;
  reused = 0;
  skipped = 0;
  excluded = 0;
}

abbrev chain : Chain
chain = new_chain (l1 ∷ [])

abbrev processor : Processor
processor = record {
  dedup = dedup;
  parser = default_parser;
  chains = (l1, chain) ∷ [];
  closed = false;
}

abbrev closed_processor : Processor
closed_processor = record processor { closed = true }

abbrev event : AccessEvent
event = record { layer_id = l1; path = file; op = 1; content = none }

abbrev whiteout_event : AccessEvent
whiteout_event = record event { path = codes "/d/.wh.f" }

process_event_total_example :
    (next : Processor) × (process_event longer processor event
      ≡ some (next, if is_some (chain_of processor l1) then none else some layer_not_found))
    × IsValid next.dedup
    × (next.chains ≡ processor.chains)
    × (next.closed ≡ processor.closed)
process_event_total_example =
    process_event_total longer processor event (filter-IsValidFilter, cache-IsValidStore, refl)

l2_registered : (register_layer processor l2 l1).1 ≡ none
unfolding register_layer register lookup
l2_registered = refl

processor-IsCoherent : IsCoherent processor
unfolding exists lookup
processor-IsCoherent id = ground arith

l1_hashes : hashes_of dedup l1 ≡ hash_1 ∷ []
unfolding hashes_of file_hashes record_hash get_or_create_manifest lookup insert
l1_hashes = refl

finalize_total_example :
    (root : Node) × (finalize longer processor l1
      ≡ (record processor { dedup = reset_session dedup }, inr root))
    × Permᴰ (leaves_of root) (map leaf_of (hash_1 ∷ []))
finalize_total_example = finalize_total longer processor l1 hash_1 [] refl l1_hashes

abbrev hash_2 : FileHash
hash_2 = record { path = codes "/d/g"; hash = codes "h2"; layer_id = l1 }

abbrev deletion : Mutation
deletion = record { kind = MutationKind.deleted; path = codes "d" ∷ codes "f" ∷ []; layer_id = l1 }

l1_found : chain_of closed_processor l1 ≡ some chain
unfolding lookup
l1_found = refl

one_deletion : interpret closed_processor.parser (names_of (codes "/d/.wh.f")) l1 ≡ deletion ∷ []
unfolding interpret mutations_of parse file_base trim_prefix join_name split
one_deletion = refl

drained_whiteout_lost_example :
    process_event longer closed_processor whiteout_event ≡ some (closed_processor, none)
drained_whiteout_lost_example =
    drained_whiteout_lost longer closed_processor whiteout_event chain deletion refl l1_found
      one_deletion refl
