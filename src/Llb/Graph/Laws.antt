-- ===== src/Llb/Graph/Laws.antt =====
-- client/llb/visitor.go: the walk with any visitor, over a graph without cycles.
use bons_ci.Base.{
  ℕ, zero, suc, ◌+◌, ◌<◌, true, List, [], ◌∷◌, Option, none, some, ◌≡◌, ◌↔◌, inl, inr, refl, ◌∙◌,
  ap, subst, arith, Bool-cases,
}
use bons_ci.Llb.Graph.{
  Graph, has, Outcome, done, outcome_of, Walk, Visitor, walk, walk_graph, walk_inputs, finish,
}
use bons_ci.Llb.Graph.Reach.{Reach, takes, IsRank}
use bons_ci.Llb.Graph.Order.{note, IsTopological, takes_head, takes_tail}
use bons_ci.Llb.Graph.Walked.{walk_graph-IsTopological, walk_marked, takes_self, takes_one}
use bons_ci.Llb.Graph.Calls.{
  Calls, log, run_calls, walk_graph-run_calls, walk_unmarked, and_then_ok,
}

module _ {T E : Type 0} (g : Graph) (rank : ℕ → ℕ) (acyclic : IsRank g rank) (visit : Visitor T E)
    (quiet : (t : T) (v depth : ℕ) → (visit t v depth).1 ≡ none) where
  inputs_end :
      (n : ℕ) (rec : Option ℕ → Walk T → Walk T × Outcome E)
      → ((i : Option ℕ) (w : Walk T)
          → ((v : ℕ) → takes (i ∷ []) v ≡ true → rank v < n)
          → (rec i w).1 ≡ done)
      → (is : List (Option ℕ)) (w : Walk T) → ((v : ℕ) → takes is v ≡ true → rank v < n)
      → (walk_inputs rec is w).1 ≡ done
  inputs_end n rec ends [] w lt = refl
  inputs_end n rec ends (i ∷ is) w lt =
      let first = ends i w (λ v h. lt v (takes_head i is v h)) in
      ap (λ a. a.1) (and_then_ok (rec i w) (walk_inputs rec is) first)
      ∙ inputs_end n rec ends is (rec i w).0 (λ v h. lt v (takes_tail i is v h))

  walk_ends :
      (fuel depth n : ℕ) (out : Option ℕ) (w : Walk T)
      → n < fuel
      → ((v : ℕ) → takes (out ∷ []) v ≡ true → rank v < n)
      → (walk g visit fuel out depth w).1 ≡ done
  unfolding walk
  walk_ends zero depth n out w f lt = absurd (omega arith)
  walk_ends (suc fuel) depth n none w f lt = refl
  walk_ends (suc fuel) depth n (some v) w f lt = elim (Bool-cases (has w.visited v)) [
    | inl old ↦ ap (λ a. a.1) (walk_marked g visit fuel v depth w old)
    | inr new ↦
        let rec = λ (i : Option ℕ) (x : Walk T). walk g visit fuel i (depth + 1) x in
        let mark : Walk T = record w { visited = v ∷ w.visited } in
        let below =
          inputs_end (rank v) rec
            (λ i x lt'.
              walk_ends fuel (depth + 1) (rank v) i x (omega (arith, lt v (takes_self v))) lt')
            (g v) mark (acyclic v) in
        ap (λ a. a.1) (walk_unmarked g visit fuel v depth w new)
        ∙ ap (λ a. a.1) (and_then_ok (walk_inputs rec (g v) mark) (finish visit v depth) below)
        ∙ ap outcome_of (quiet (walk_inputs rec (g v) mark).0.state v depth)
  ]

-- The vertices of the calls, the last first.
abbrev pub latest_first : Calls → List ℕ → List ℕ
latest_first [] vs = vs
latest_first (c ∷ cs) vs = latest_first cs (c.0 ∷ vs)

run_calls-note :
    (E : Type 0) (vs : List ℕ) (cs : Calls) → (run_calls {E = E} note vs cs).0 ≡ latest_first cs vs
run_calls-note E vs [] = refl
run_calls-note E vs (c ∷ cs) = run_calls-note E (c.0 ∷ vs) cs

-- In a graph without cycles and with more fuel than one above the rank of the root, the walk with any visitor is a
-- run of the visitor over the calls that a visitor logs which never fails, up to the first error; these calls are
-- for exactly the vertices that the root reaches, each once and after all its inputs.
pub walk_graph_lem :
    {T E : Type 0}
    → (g : Graph) (rank : ℕ → ℕ) (fuel root : ℕ) (visit : Visitor T E) (t : T) → IsRank g rank
    → suc (rank root) < fuel
    → let calls = (walk_graph {E = E} g log fuel (some root) []).0.state in
      let r = walk_graph g visit fuel (some root) t in
      (r.1 ≡ outcome_of (run_calls visit t calls).1)
      × (r.0.state ≡ (run_calls visit t calls).0)
      × IsTopological g (latest_first calls [])
      × ((v : ℕ) → (has (latest_first calls []) v ≡ true) ↔ Reach g root v)
walk_graph_lem {E} g rank fuel root visit t acyclic f =
    let calls = (walk_graph {E = E} g log fuel (some root) []).0.state in
    let start : Walk Calls = record { visited = []; state = [] } in
    let ends =
      walk_ends {E = E} g rank acyclic log (λ cs v depth. refl) fuel 0 (suc (rank root)) (some root)
        start f (λ v h. omega (arith, ap rank (takes_one root v h))) in
    let any_visit = walk_graph-run_calls visit g fuel (some root) t ends in
    let notes = walk_graph-run_calls {E = E} note g fuel (some root) [] ends in
    let (d, order, reach) = walk_graph-IsTopological {E = E} g rank fuel root acyclic f in
    let same = notes.1 ∙ run_calls-note E [] calls in
    (
      any_visit.0,
      any_visit.1,
      subst (IsTopological g) same order,
      subst (λ vs. (v : ℕ) → (has vs v ≡ true) ↔ Reach g root v) same reach,
    )
