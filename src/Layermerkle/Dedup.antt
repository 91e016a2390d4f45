-- ===== src/Layermerkle/Dedup.antt =====
-- pkg/layermerkle/deduplicator.go: the hash of a file for a request, behind a hash cache, and the builders
-- of the vertices. `LayerFileResolver` and `FileHasher` are parameters, functions of their arguments: what
-- they read does not change meanwhile. Hooks only observe. A call of `group.Do` runs its function.
pub mod Laws
pub mod Findings
pub mod Keys
pub mod Vertices
use bons_ci.Base.{
  Str, str_key, str_eqb, Bool, true, false, not, List, [], ◌∷◌, ◌++◌, Option, none, some,
  if◌then◌else◌,
}
use bons_ci.Base.Dict.{lookup, insert, delete}
use bons_ci.Layermerkle.Types.{LayerId, ResolveError}
use bons_ci.Layermerkle.Resolver.{Owner, owner, AbsPath, below, no_path}
use bons_ci.Layermerkle.Resolver as Resolver
use bons_ci.Layermerkle.HashCache.{HashCache}
use bons_ci.Layermerkle.Merkle.{
  VertexId, HashResult, MerkleTreeBuilder, MerkleTree, MerkleForest, new_builder, add, finalize,
  add_tree,
}

-- The results of `FindOwnerLayer` and `DiffAbsPath`.
pub record LayerFileResolver : Type 0 where
  pub find_owner_layer : List LayerId → Str → Owner
  pub diff_abs_path : LayerId → Str → AbsPath

-- `Hash`: nothing if it fails.
abbrev pub FileHasher : Type 0
FileHasher = AbsPath → Option Str

pub data DedupError : Type 0 where
  invalid_layer_stack whiteout hash_failed : DedupError
  no_owner path_failed : ResolveError → DedupError

pub data Resolved : Type 0 where
  found : (hash : Str) (owner_layer_id : LayerId) (from_cache : Bool) → Resolved
  failed : DedupError → Resolved

-- `Top`, or the empty digest.
abbrev pub top : List LayerId → LayerId
top [] = []
top (l ∷ []) = l
top (l ∷ m ∷ ls) = top (m ∷ ls)

module _ {S : Type 0} (c : HashCache S) (r : LayerFileResolver) (hasher : FileHasher) where
  -- The entry of the top layer, if the owner is another.
  abbrev pub propagate : S → List LayerId → LayerId → Str → Str → S
  propagate s stack o rel_path h =
      if str_eqb (top stack) o then s else c.set s (top stack) rel_path h

  -- From `Slow path: compute the hash` on.
  abbrev pub compute_hash : S → List LayerId → LayerId → Str → S × Resolved
  compute_hash s stack o rel_path = elim (r.diff_abs_path o rel_path) [
    | no_path e ↦ (s, failed (path_failed e))
    | below dir p ↦ elim (hasher (below dir p)) [
      | none ↦ (s, failed hash_failed)
      | some h ↦ (propagate (c.set s o rel_path h) stack o rel_path h, found h o false)
    ]
  ]

  -- `resolve`
  unfoldable pub resolve_slow : S → List LayerId → Str → S × Resolved
  resolve_slow s stack rel_path = elim (r.find_owner_layer stack rel_path) [
    | Resolver.failed ResolveError.whiteout ↦ (s, failed whiteout)
    | Resolver.failed e ↦ (s, failed (no_owner e))
    | owner o ↦
        let g = c.get s o rel_path in
        elim g.1 [
          | some h ↦ (propagate g.0 stack o rel_path h, found h o true)
          | none ↦ compute_hash g.0 stack o rel_path
        ]
  ]

  -- The body of `Resolve`, from the read of the top layer's entry on.
  abbrev pub resolve_from : LayerId → S → List LayerId → Str → S × Resolved
  resolve_from top_layer s stack rel_path =
      let g = c.get s top_layer rel_path in
      elim g.1 [ some h ↦ (g.0, found h top_layer true) | none ↦ resolve_slow g.0 stack rel_path ]

  -- `Resolve`
  unfoldable pub resolve : S → List LayerId → Str → S × Resolved
  unfolding resolve_slow
  resolve s [] rel_path = (s, failed invalid_layer_stack)
  resolve s (l ∷ ls) rel_path = resolve_from (top (l ∷ ls)) s (l ∷ ls) rel_path

-- `NewLayerStackKey` and `singleflightKey`
abbrev pub layer_stack_key : List LayerId → Str
layer_stack_key [] = []
layer_stack_key (l ∷ []) = l
layer_stack_key (l ∷ m ∷ ls) = l ++ 124 ∷ layer_stack_key (m ∷ ls)

abbrev pub singleflight_key : List LayerId → Str → Str
singleflight_key stack rel_path = layer_stack_key stack ++ 0 ∷ rel_path

-- What `Process` reads of an event.
pub record AccessEvent : Type 0 where
  pub vertex_id : VertexId
  pub layer_stack : List LayerId
  pub rel_path : Str

abbrev pub hash_result : Str → Resolved → HashResult
hash_result p (found h o f) = record {
  rel_path = p;
  hash = h;
  owner_layer_id = o;
  from_cache = f;
  failed = false;
}
hash_result p (failed e) = record {
  rel_path = p;
  hash = [];
  owner_layer_id = [];
  from_cache = false;
  failed = true;
}

-- `VertexProcessor`, the state of its engine being that of the cache.
pub record VertexProcessor (S : Type 0) : Type 0 where
  pub cache : S
  pub forest : MerkleForest
  pub builders : List (VertexId × MerkleTreeBuilder)

abbrev pub get_or_create_builder :
    List (VertexId × MerkleTreeBuilder) → VertexId → List LayerId → MerkleTreeBuilder
get_or_create_builder bs id stack = elim (lookup id bs) [ some b ↦ b | none ↦ new_builder id stack ]

abbrev pub active_vertex_ids : List (VertexId × MerkleTreeBuilder) → List VertexId
active_vertex_ids [] = []
active_vertex_ids ((id, b) ∷ bs) = id ∷ active_vertex_ids bs

-- A result without an error goes to the builder of the event's vertex.
abbrev pub record_result :
    {S : Type 0} → (Str → Str) → VertexProcessor S → AccessEvent → S × Resolved → VertexProcessor S
record_result clean vp ev (s, failed e) = record vp { cache = s }
record_result clean vp ev (s, found h o f) =
    let b = get_or_create_builder vp.builders ev.vertex_id ev.layer_stack in
    record vp {
      cache = s;
      builders =
          insert ev.vertex_id (add clean b (hash_result ev.rel_path (found h o f))) vp.builders;
    }

module _ {S : Type 0} (c : HashCache S) (r : LayerFileResolver) (hasher : FileHasher)
    (clean : Str → Str) where
  unfoldable pub process : VertexProcessor S → AccessEvent → VertexProcessor S × Resolved
  process vp ev =
      let res = resolve c r hasher vp.cache ev.layer_stack ev.rel_path in
      (record_result clean vp ev res, res.1)

-- `FinalizeVertex`; `none` is `ErrVertexClosed`.
unfoldable pub finalize_vertex :
    {S : Type 0}
    → (Str → Str)
    → (Str → Str)
    → VertexProcessor S
    → VertexId
    → VertexProcessor S × Option MerkleTree
finalize_vertex sha256 hex vp id = elim (lookup id vp.builders) [
  | none ↦ (vp, none)
  | some b ↦
      let tree = finalize sha256 hex b in
      (record vp { builders = delete id vp.builders; forest = add_tree vp.forest tree }, some tree)
]
