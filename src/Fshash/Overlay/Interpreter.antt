-- ===== src/Fshash/Overlay/Interpreter.antt =====
-- pkg/fshash/overlay/interpreter.go: from access events to mutations. The hooks only observe.
use bons_ci.Base.{List, [], ◌∷◌}
use bons_ci.Base.Segments.{Segments}
use bons_ci.Fshash.Layer.Chain.{LayerId}
use bons_ci.Fshash.Overlay.Parser.{
  OverlayEntry, Parser, parse, regular, whiteout, opaque_dir, copy_up,
}

pub data MutationKind : Type 0 where
  modified deleted opaqued renamed : MutationKind

pub record Mutation : Type 0 where
  pub kind : MutationKind
  pub path : Segments
  pub layer_id : LayerId

-- The switch on the kind of the entry; nothing is emitted for a copy-up.
unfoldable pub mutations_of : OverlayEntry → List Mutation
mutations_of e = elim e.kind [
  | whiteout ↦ record { kind = deleted; path = e.target_path; layer_id = e.layer_id } ∷ []
  | opaque_dir ↦ record { kind = opaqued; path = e.target_path; layer_id = e.layer_id } ∷ []
  | regular ↦ record { kind = modified; path = e.target_path; layer_id = e.layer_id } ∷ []
  | copy_up ↦ []
]

unfoldable pub interpret : Parser → Segments → LayerId → List Mutation
unfolding mutations_of parse
interpret p path id = mutations_of (parse p path id)
