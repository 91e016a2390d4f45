-- ===== src/Llb/Marshal.antt =====
-- client/llb/state.go and marshal.go: how a graph becomes a definition, and strategy.go, which does the same
-- without the last entry. What a vertex marshals to is a parameter, and so is the coding of the last entry, a protobuf
-- message that has one input. Locations in sources are left out.
pub mod Entries
pub mod Laws
use bons_ci.Base.{
  Str, str_key, ℕ_key, str_eqb, ℕ, List, [], ◌∷◌, ◌++◌, Option, none, some, ◌⊎◌, inl, inr, any,
  if◌then◌else◌,
}
use bons_ci.Base.Dict.{insert, lookup}
use bons_ci.Llb.Graph.{Graph, Visitor, Walk, Outcome, done, out_of_fuel, failed, walk}

-- What `Marshal` of a vertex gives: digest, bytes and metadata.
pub record Marshalled : Type 0 where
  pub digest : Str
  pub bytes : Str
  pub metadata : Option Str

-- `Definition`, with the digests of its entries; sources are left out.
pub record Definition : Type 0 where
  pub def : List Str
  pub metadata : List (Str × Str)
  pub digests : List Str

abbrev pub empty_definition : Definition
empty_definition = record { def = []; metadata = []; digests = [] }

abbrev pub add_metadata : List (Str × Str) → Str → Option Str → List (Str × Str)
add_metadata m digest none = m
add_metadata m digest (some md) = insert digest md m

abbrev pub add_marshalled : Definition → Marshalled → Definition
add_marshalled d m = if any (str_eqb m.digest) d.digests then d else record {
  def = d.def ++ m.bytes ∷ [];
  metadata = add_metadata d.metadata m.digest m.metadata;
  digests = m.digest ∷ d.digests;
}

-- The part of `marshalVertex` after the inputs.
abbrev pub emit_vertex : {E : Type 0} → (ℕ → E ⊎ Marshalled) → Visitor Definition E
emit_vertex marshal d v depth = elim (marshal v) [
  | inl e ↦ (d, some e)
  | inr m ↦ (add_marshalled d m, none)
]

-- `marshalVertex` marks a vertex and goes into its inputs as `walk` does, then emits it.
unfoldable pub marshal_vertex :
    {E : Type 0}
    → Graph
    → (ℕ → E ⊎ Marshalled)
    → ℕ
    → Option ℕ
    → Walk Definition
    → Walk Definition × Outcome E
marshal_vertex g marshal fuel out w = walk g (emit_vertex marshal) fuel out 0 w

-- The outcome of a marshalling: nothing if the fuel is too small.
abbrev pub Marshalling : Type 0 → Type 0
Marshalling E = Option (E ⊎ Definition)

module _ {E : Type 0} (g : Graph) (marshal : ℕ → E ⊎ Marshalled) (fuel : ℕ) where
  abbrev pub marshal_root : Option ℕ → (ℕ → Definition → E ⊎ Definition) → Marshalling E
  marshal_root none last = some (inr empty_definition)
  marshal_root (some v) last =
      let r =
        marshal_vertex g marshal fuel (some v)
          (record { visited = []; state = empty_definition }) in
      elim r.1 [ done ↦ some (last v r.0.state) | failed e ↦ some (inl e) | out_of_fuel ↦ none ]

  -- `MarshalGraph` of `DefaultMarshalStrategy`
  unfoldable pub marshal_graph : Option ℕ → Marshalling E
  marshal_graph out = marshal_root out (λ v d. inr d)

  -- `ToInput`: the digest of the vertex and the index of the output.
  abbrev pub to_input : E ⊎ ℕ → ℕ → E ⊎ (Str × ℕ)
  to_input index v = elim index [
    | inl e ↦ inl e
    | inr i ↦ elim (marshal v) [ inl e ↦ inl e | inr m ↦ inr (m.digest, i) ]
  ]

  -- `Marshal` of a state: the last entry is an operation whose only input is the root.
  unfoldable pub marshal_state : (Str → ℕ → Str) → E ⊎ ℕ → Option ℕ → Marshalling E
  marshal_state terminal index out = marshal_root out (λ v d. elim (to_input index v) [
    | inl e ↦ inl e
    | inr (digest, i) ↦ inr (record d { def = d.def ++ terminal digest i ∷ [] })
  ])

abbrev pub last_entry : List Str → Option Str
last_entry [] = none
last_entry (b ∷ []) = some b
last_entry (b ∷ c ∷ bs) = last_entry (c ∷ bs)

-- `Head`, by the digests of the inputs that the last entry decodes to.
abbrev pub head : {E : Type 0} → (Str → E ⊎ List Str) → Definition → E ⊎ Str
head inputs_of d = elim (last_entry d.def) [
  | none ↦ inr []
  | some b ↦ elim (inputs_of b) [ inl e ↦ inl e | inr [] ↦ inr [] | inr (x ∷ xs) ↦ inr x ]
]

-- `MarshalCache`: constraints are compared by identity, a number.
abbrev pub MarshalCache : Type 0
MarshalCache = List (ℕ × Marshalled)

abbrev pub load : MarshalCache → ℕ → Option Marshalled
load mc c = lookup c mc

-- The digest is that of the bytes.
abbrev pub store : (Str → Str) → MarshalCache → ℕ → Str → Option Str → MarshalCache × Marshalled
store digest_of mc c bytes md =
    let res : Marshalled = record { digest = digest_of bytes; bytes = bytes; metadata = md } in
    (insert c res mc, res)
