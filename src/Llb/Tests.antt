-- ===== src/Llb/Tests.antt =====
-- client/llb: runs of the code on small graphs.
use bons_ci.Base.Dict.{lookup}
use bons_ci.Base.{
  map, reverse, str_key, Str, codes, ℕ, ◌+◌, ◌==◌, true, List, [], ◌∷◌, ◌++◌, Option, none, some,
  ◌≡◌, ◌⊎◌, inl, inr, ◌↔◌, refl, arith, any, str_eqb, length, if◌then◌else◌,
}
use bons_ci.Llb.Graph.{
  Graph, walk, has, out_of_fuel, outcome_of, Visitor, walk_graph, chain_visitor, predicate_visitor,
  only_leaf_vertices, counting_visitor, noop_visitor,
}
use bons_ci.Llb.Graph.Reach.{Reach, IsRank}
use bons_ci.Llb.Graph.Order.{IsTopological}
use bons_ci.Llb.Graph.Calls.{log, run_calls}
use bons_ci.Llb.Graph.Laws.{walk_graph_lem, latest_first}
use bons_ci.Llb.Marshal.{
  Marshalled, Definition, marshal_state, marshal_graph, marshal_vertex, last_entry, head,
}
use bons_ci.Llb.Marshal.Laws.{marshal_state_lem, head-marshal_state, IsUnique}
use bons_ci.Llb.Matrix.{Axis, cartesian_product, cell_key, validate, no_value}
use bons_ci.Llb.Matrix.Laws.{cartesian_product_lem, cell_count, is_picked}

-- Vertex 3 has the inputs 1 and 2, which share the input 0.
abbrev diamond : Graph
diamond v =
    if v == 3
    then some 1 ∷ none ∷ some 2 ∷ []
    else if v == 2
    then some 0 ∷ []
    else if v == 1
    then some 0 ∷ []
    else []

abbrev rank : ℕ → ℕ
rank v = v

diamond-IsRank : IsRank diamond rank
diamond-IsRank u v h = ground arith

abbrev texts : ℕ → Marshalled
texts v = record { digest = v ∷ []; bytes = 98 ∷ v ∷ []; metadata = none }

abbrev terminal : Str → ℕ → Str
terminal d i = 116 ∷ i ∷ d

-- The input of an entry that ends a definition.
abbrev inputs_of : Str → Unit {0} ⊎ List Str
inputs_of [] = inr []
inputs_of (c ∷ []) = inr []
inputs_of (c ∷ i ∷ ds) = if c == 116 then inr (ds ∷ []) else inr []

walk_count :
    (walk_graph diamond
      (chain_visitor {E = Unit} (counting_visitor ∷ noop_visitor ∷ []))
      5
      (some 3)
      0).0.state
    ≡ 4
unfolding walk
walk_count = refl

walk_leaves :
    (walk_graph diamond
      (predicate_visitor {E = Unit} (only_leaf_vertices diamond) counting_visitor)
      5
      (some 3)
      0).0.state
    ≡ 1
unfolding walk
walk_leaves = refl

walk_cut : (walk_graph {E = Unit} diamond counting_visitor 2 (some 3) 0).1 ≡ out_of_fuel
unfolding walk
walk_cut = refl

abbrev stop_at : ℕ → Visitor ℕ ℕ
stop_at u n v depth = (n + 1, if u == v then some v else none)

walk_graph_lem_example :
    let calls = (walk_graph {E = ℕ} diamond log 5 (some 3) []).0.state in
    let r = walk_graph diamond (stop_at 1) 5 (some 3) 0 in
    (r.1 ≡ outcome_of (run_calls (stop_at 1) 0 calls).1)
    × (r.0.state ≡ (run_calls (stop_at 1) 0 calls).0)
    × IsTopological diamond (latest_first calls [])
    × ((v : ℕ) → (has (latest_first calls []) v ≡ true) ↔ Reach diamond 3 v)
walk_graph_lem_example = walk_graph_lem diamond rank 5 3 (stop_at 1) 0 diamond-IsRank (omega arith)

marshal_state_lem_example :
    (d : Definition) × (marshal_state {E = Unit} diamond
        (λ v. inr (texts v))
        5
        terminal
        (inr 0)
        (some 3)
      ≡ some (inr (record d { def = d.def ++ terminal (texts 3).digest 0 ∷ [] })))
    × IsUnique d.digests
    × ((v : ℕ) → Reach diamond 3 v → any (str_eqb (texts v).digest) d.digests ≡ true)
    × (vs : List ℕ) × ((v : ℕ) → has vs v ≡ true → Reach diamond 3 v)
    × (d.digests ≡ map (λ v. (texts v).digest) vs)
    × (d.def ≡ reverse (map (λ v. (texts v).bytes) vs))
    × ((v : ℕ) → has vs v ≡ true → lookup (texts v).digest d.metadata ≡ (texts v).metadata)
marshal_state_lem_example =
    marshal_state_lem texts Unit diamond rank 5 3 diamond-IsRank (omega arith) terminal 0

head-marshal_state_example :
    (d : Definition) × (marshal_state {E = Unit} diamond
        (λ v. inr (texts v))
        5
        terminal
        (inr 0)
        (some 3)
      ≡ some (inr d))
    × (head inputs_of d ≡ inr (texts 3).digest)
head-marshal_state_example =
    head-marshal_state texts Unit diamond rank 5 3 diamond-IsRank (omega arith) terminal inputs_of 0
      (λ x j. refl)

abbrev last_of : Option (Unit {0} ⊎ Definition) → Option Str
last_of none = none
last_of (some (inl e)) = none
last_of (some (inr d)) = last_entry d.def

-- The definition of a strategy ends with the root itself, so that its head is an input of the root.
marshal_graph_last :
    last_of (marshal_graph diamond (λ v. inr (texts v)) 5 (some 3)) ≡ some (texts 3).bytes
unfolding walk marshal_vertex marshal_graph
marshal_graph_last = refl

marshal_state_last :
    last_of (marshal_state diamond (λ v. inr (texts v)) 5 terminal (inr 0) (some 3))
    ≡ some (terminal (texts 3).digest 0)
unfolding walk marshal_vertex marshal_state
marshal_state_last = refl

abbrev os : Axis
os = record { name = codes "os"; values = codes "a" ∷ codes "b" ∷ [] }

abbrev arch : Axis
arch = record { name = codes "arch"; values = codes "x" ∷ codes "y" ∷ [] }

abbrev second : Axis → Str
second a = if str_eqb a.name (codes "os") then codes "b" else codes "x"

cartesian_product_lem_example :
    (length (cartesian_product (os ∷ arch ∷ [])) ≡ cell_count (os ∷ arch ∷ []))
    × (any (is_picked second (os ∷ arch ∷ [])) (cartesian_product (os ∷ arch ∷ [])) ≡ true)
cartesian_product_lem_example = cartesian_product_lem second os (arch ∷ []) (refl, (refl, tt)) refl

-- Different cells can have one key.
cell_key_collision :
    cell_key ((codes "a", codes "1,b=2") ∷ [])
    ≡ cell_key ((codes "a", codes "1") ∷ (codes "b", codes "2") ∷ [])
unfolding cell_key
cell_key_collision = refl

validate_empty :
    validate (os ∷ record { name = codes "z"; values = [] } ∷ []) ≡ some (no_value (codes "z"))
validate_empty = refl
