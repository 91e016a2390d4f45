-- ===== src/Llb/Graph.antt =====
-- client/llb/visitor.go: the walk of the graph of vertices in depth-first order.
-- A vertex is a number, its identity; the inputs of a vertex are the vertices of its outputs, `none` for an
-- output or a vertex that is nil. The walk runs on fuel, a unit for each level.
pub mod Reach
pub mod Order
pub mod Walked
pub mod Calls
pub mod Laws
use bons_ci.Base.{
  Str, str_key, ℕ, zero, suc, ◌+◌, Bool, true, false, List, [], ◌∷◌, ◌++◌, Option, none, some, ◌⊎◌,
  inl, inr, if◌then◌else◌, ◌==◌, any, str_eqb,
}
use bons_ci.Base.Dict.{insert}

-- The inputs of each vertex.
abbrev pub Graph : Type 0
Graph = ℕ → List (Option ℕ)

abbrev pub has : List ℕ → ℕ → Bool
has vs v = any (λ u. u == v) vs

pub data Outcome (E : Type 0) : Type 0 where
  done out_of_fuel : Outcome E
  failed : E → Outcome E

-- What the visitor has made, and the vertices that are marked.
pub record Walk (T : Type 0) : Type 0 where
  pub visited : List ℕ
  pub state : T

abbrev pub outcome_of : {E : Type 0} → Option E → Outcome E
outcome_of none = done
outcome_of (some e) = failed e

-- `VertexVisitor`, with its state.
abbrev pub Visitor : (T E : Type 0) → Type 0
Visitor T E = T → ℕ → ℕ → T × Option E

module _ {T E : Type 0} where
  -- `if err != nil { return err }`
  abbrev pub and_then : Walk T × Outcome E → (Walk T → Walk T × Outcome E) → Walk T × Outcome E
  and_then (w, done) next = next w
  and_then (w, out_of_fuel) next = (w, out_of_fuel)
  and_then (w, failed e) next = (w, failed e)

  -- The loop over the inputs.
  abbrev pub walk_inputs :
      (Option ℕ → Walk T → Walk T × Outcome E) → List (Option ℕ) → Walk T → Walk T × Outcome E
  walk_inputs rec [] w = (w, done)
  walk_inputs rec (i ∷ is) w = and_then (rec i w) (walk_inputs rec is)

  abbrev pub finish : Visitor T E → ℕ → ℕ → Walk T → Walk T × Outcome E
  finish visit v depth w =
      let (t, e) = visit w.state v depth in (record w { state = t }, outcome_of e)

  module _ (g : Graph) (visit : Visitor T E) where
    unfoldable pub walk : ℕ → Option ℕ → ℕ → Walk T → Walk T × Outcome E
    walk zero out depth w = (w, out_of_fuel)
    walk (suc fuel) none depth w = (w, done)
    walk (suc fuel) (some v) depth w =
        let below =
          walk_inputs (λ i. walk fuel i (depth + 1)) (g v) (record w { visited = v ∷ w.visited }) in
        if has w.visited v then (w, done) else and_then below (finish visit v depth)

    -- `Walk`
    abbrev pub walk_graph : ℕ → Option ℕ → T → Walk T × Outcome E
    walk_graph fuel out t = walk fuel out 0 (record { visited = []; state = t })

  -- `ChainVisitor` and `MultiVisitor`, `NoopVisitor` and `PredicateVisitor`
  abbrev pub noop_visitor : Visitor T E
  noop_visitor t v depth = (t, none)

  abbrev pub chain_visitor : List (Visitor T E) → Visitor T E
  chain_visitor [] t v depth = (t, none)
  chain_visitor (x ∷ xs) t v depth =
      let (t', e) = x t v depth in
      let rest = chain_visitor xs t' v depth in elim e [ none ↦ rest | some err ↦ (t', some err) ]

  abbrev pub multi_visitor : List (Visitor T E) → T → ℕ → ℕ → T × List E
  multi_visitor [] t v depth = (t, [])
  multi_visitor (x ∷ xs) t v depth =
      let (t', e) = x t v depth in
      let (t'', es) = multi_visitor xs t' v depth in
      (t'', elim e [ none ↦ es | some err ↦ err ∷ es ])

  abbrev pub predicate_visitor : (ℕ → Bool) → Visitor T E → Visitor T E
  predicate_visitor p x t v depth = if p v then x t v depth else (t, none)

-- `OnlyLeafVertices` and `OnlyBranchVertices`
abbrev pub only_leaf_vertices : Graph → ℕ → Bool
only_leaf_vertices g v = elim (g v) [ [] ↦ true | _ ∷ _ ↦ false ]

abbrev pub only_branch_vertices : Graph → ℕ → Bool
only_branch_vertices g v = elim (g v) [ [] ↦ false | _ ∷ _ ↦ true ]

-- `CountingVisitor`
abbrev pub counting_visitor : {E : Type 0} → Visitor ℕ E
counting_visitor n v depth = (n + 1, none)
