-- ===== src/Llb/Graph/Calls.antt =====
-- client/llb/visitor.go: the calls of a visitor do not depend on the visitor, up to its first error.
use bons_ci.Base.{
  ℕ, zero, suc, ◌+◌, true, false, List, [], ◌∷◌, ◌++◌, append-nil, append_assoc, Option, none, some,
  ◌≡◌, inl, inr, refl, sym, ◌∙◌, ap, arith, Bool-cases, Option-cases,
}
use bons_ci.Llb.Graph.{
  Graph, has, Outcome, done, out_of_fuel, failed, outcome_of, Walk, Visitor, walk, walk_graph,
  walk_inputs, finish, and_then,
}

-- Vertices with their depths, in the order of the calls.
abbrev pub Calls : Type 0
Calls = List (ℕ × ℕ)

abbrev pub log : {E : Type 0} → Visitor Calls E
log cs v depth = (cs ++ (v, depth) ∷ [], none)

pub walk_unmarked :
    {T E : Type 0}
    → (g : Graph) (visit : Visitor T E) (fuel v depth : ℕ) (w : Walk T) → has w.visited v ≡ false
    → walk g visit (suc fuel) (some v) depth w
      ≡ and_then
          (walk_inputs
            (λ i. walk g visit fuel i (depth + 1))
            (g v)
            (record w { visited = v ∷ w.visited }))
          (finish visit v depth)
unfolding walk
walk_unmarked g visit fuel v depth w h = rw (h, walk)

pub and_then_ok :
    {A E : Type 0}
    → (r : Walk A × Outcome E) (next : Walk A → Walk A × Outcome E) → r.1 ≡ done
    → and_then r next ≡ next r.0
and_then_ok r next h = rw (h, and_then)

module _ {T E : Type 0} (visit : Visitor T E) where
  -- The calls one after the other, up to the first error.
  abbrev pub run_calls : T → Calls → T × Option E
  run_calls t [] = (t, none)
  run_calls t ((v, depth) ∷ cs) =
      let (t', e) = visit t v depth in
      let rest = run_calls t' cs in elim e [ none ↦ rest | some x ↦ (t', some x) ]

  run_calls-append :
      (t : T) (xs ys : Calls)
      → (run_calls t xs).1 ≡ none
      → run_calls t (xs ++ ys) ≡ run_calls (run_calls t xs).0 ys
  run_calls-append t [] ys h = refl
  run_calls-append t ((v, depth) ∷ xs) ys h =
      ground (arith, run_calls-append (visit t v depth).0 xs ys)

  run_calls-stop :
      (t : T) (xs ys : Calls) (e : E)
      → (run_calls t xs).1 ≡ some e
      → run_calls t (xs ++ ys) ≡ run_calls t xs
  run_calls-stop t [] ys e h = cc
  run_calls-stop t ((v, depth) ∷ xs) ys e h =
      ground (arith, run_calls-stop (visit t v depth).0 xs ys e)

  -- What a call adds to the log is what the visitor is called for.
  Agrees : Walk T → Walk Calls → Walk T × Outcome E → Walk Calls × Outcome E → Type 0
  Agrees w u r c =
      (new : Calls) × (c.0.state ≡ u.state ++ new)
      × (r.1 ≡ outcome_of (run_calls w.state new).1)
      × (r.0.state ≡ (run_calls w.state new).0)
      × ((run_calls w.state new).1 ≡ none → r.0.visited ≡ c.0.visited)

  and_then_failed :
      {A : Type 0}
      → (r : Walk A × Outcome E) (next : Walk A → Walk A × Outcome E) (e : E) → r.1 ≡ failed e
      → and_then r next ≡ (r.0, failed e)
  and_then_failed r next e h = rw (h, and_then)

  and_then-inv :
      {A : Type 0}
      → (r : Walk A × Outcome E) (next : Walk A → Walk A × Outcome E) → (and_then r next).1 ≡ done
      → r.1 ≡ done
  and_then-inv (w, done) next h = refl
  and_then-inv (w, out_of_fuel) next h = h
  and_then-inv (w, failed e) next h = h

  and_then-Agrees :
      (w : Walk T) (u : Walk Calls) (r : Walk T × Outcome E) (c : Walk Calls × Outcome E)
      → (next : Walk T → Walk T × Outcome E) (next' : Walk Calls → Walk Calls × Outcome E)
      → Agrees w u r c
      → ((w' : Walk T) (u' : Walk Calls)
          → w'.visited ≡ u'.visited
          → (next' u').1 ≡ done
          → Agrees w' u' (next w') (next' u'))
      → (and_then c next').1 ≡ done
      → Agrees w u (and_then r next) (and_then c next')
  unfolding Agrees
  and_then-Agrees w u r c next next' (new, e1, e2, e3, e4) step d =
      let ends = and_then-inv c next' d in
      elim (Option-cases (run_calls w.state new).1) [
        | inl ok ↦
            let rest = and_then_ok c next' ends in
            let mine = and_then_ok r next (e2 ∙ ap outcome_of ok) in
            let (new', f1, f2, f3, f4) = step r.0 c.0 (e4 ok) (ap (λ a. a.1) (sym rest) ∙ d) in
            let run : run_calls w.state (new ++ new') ≡ run_calls r.0.state new' =
              run_calls-append w.state new new' ok ∙ ap (λ t. run_calls t new') (sym e3) in
            rw (rest, mine)
              (
                new ++ new',
                f1 ∙ ap (λ a. a ++ new') e1 ∙ append_assoc u.state new new',
                f2 ∙ ap (λ a. outcome_of a.1) (sym run),
                f3 ∙ ap (λ a. a.0) (sym run),
                λ k. f4 (ap (λ a. a.1) (sym run) ∙ k),
              )
        | inr (e, bad) ↦
            let rest = and_then_ok c next' ends in
            let idle : Walk T = record { visited = c.0.visited; state = w.state } in
            let (new', f1, f2, f3, f4) = step idle c.0 refl (ap (λ a. a.1) (sym rest) ∙ d) in
            let run = run_calls-stop w.state new new' e bad in
            let stop = and_then_failed r next e (e2 ∙ ap outcome_of bad) in
            rw (rest, stop)
              (
                new ++ new',
                f1 ∙ ap (λ a. a ++ new') e1 ∙ append_assoc u.state new new',
                sym (ap (λ a. outcome_of a.1) run ∙ ap outcome_of bad),
                e3 ∙ ap (λ a. a.0) (sym run),
                λ k. cc (k, ap (λ a. a.1) run, bad),
              )
      ]

  module _ (rec : Option ℕ → Walk T → Walk T × Outcome E)
      (rec' : Option ℕ → Walk Calls → Walk Calls × Outcome E)
      (agrees : (i : Option ℕ) (w : Walk T) (u : Walk Calls)
        → w.visited ≡ u.visited
        → (rec' i u).1 ≡ done
        → Agrees w u (rec i w) (rec' i u)) where
    walk_inputs-Agrees :
        (is : List (Option ℕ)) (w : Walk T) (u : Walk Calls)
        → w.visited ≡ u.visited
        → (walk_inputs rec' is u).1 ≡ done
        → Agrees w u (walk_inputs rec is w) (walk_inputs rec' is u)
    unfolding Agrees
    walk_inputs-Agrees [] w u e d = ([], sym (append-nil u.state), refl, refl, λ k. e)
    walk_inputs-Agrees (i ∷ is) w u e d =
        and_then-Agrees w u (rec i w) (rec' i u) (walk_inputs rec is) (walk_inputs rec' is)
          (agrees i w u e (and_then-inv (rec' i u) (walk_inputs rec' is) d)) (walk_inputs-Agrees is)
          d

  finish-Agrees :
      (v depth : ℕ) (w : Walk T) (u : Walk Calls)
      → w.visited ≡ u.visited
      → Agrees w u (finish visit v depth w) (finish log v depth u)
  unfolding Agrees
  finish-Agrees v depth w u e = elim (Option-cases (visit w.state v depth).1) [
    | inl ok ↦ ((v, depth) ∷ [], refl, rw (ok, outcome_of), rw (ok, run_calls), λ k. e)
    | inr (x, bad) ↦ ((v, depth) ∷ [], refl, rw (bad, outcome_of), rw (bad, run_calls), λ k. e)
  ]

  walk-Agrees :
      (g : Graph) (fuel depth : ℕ) (out : Option ℕ) (w : Walk T) (u : Walk Calls)
      → w.visited ≡ u.visited
      → (walk {E = E} g log fuel out depth u).1 ≡ done
      → Agrees w u (walk g visit fuel out depth w) (walk g log fuel out depth u)
  unfolding Agrees walk
  walk-Agrees g zero depth out w u e d = cc
  walk-Agrees g (suc fuel) depth none w u e d = ([], sym (append-nil u.state), refl, refl, λ k. e)
  walk-Agrees g (suc fuel) depth (some v) w u e d = elim (Bool-cases (has u.visited v)) [
    | inl old ↦
        let old_w : has w.visited v ≡ true = ap (λ a. has a v) e ∙ old in
        rw (old, old_w) ([], sym (append-nil u.state), refl, refl, λ k. e)
    | inr new ↦
        let new_w : has w.visited v ≡ false = ap (λ a. has a v) e ∙ new in
        let mark : Walk T = record w { visited = v ∷ w.visited } in
        let mark' : Walk Calls = record u { visited = v ∷ u.visited } in
        let d' = ap (λ a. a.1) (sym (walk_unmarked g log fuel v depth u new)) ∙ d in
        let rec = λ (i : Option ℕ) (x : Walk T). walk g visit fuel i (depth + 1) x in
        let rec' = λ (i : Option ℕ) (x : Walk Calls). walk {E = E} g log fuel i (depth + 1) x in
        rw (new, new_w)
          (and_then-Agrees mark mark' (walk_inputs rec (g v) mark) (walk_inputs rec' (g v) mark')
            (finish visit v depth) (finish log v depth)
            (walk_inputs-Agrees rec rec'
              (λ i w' u' e' k. walk-Agrees g fuel (depth + 1) i w' u' e' k) (g v) mark mark'
              (ap (λ a. v ∷ a) e)
              (and_then-inv (walk_inputs rec' (g v) mark') (finish log v depth) d'))
            (λ w' u' e' k. finish-Agrees v depth w' u' e') d')
  ]

  -- Where the walk that only logs its calls ends without running out of fuel, the walk with any visitor ends with what the logged calls
  -- make one after the other up to the first error, and with that error if there is one.
  pub walk_graph-run_calls :
      (g : Graph) (fuel : ℕ) (out : Option ℕ) (t : T)
      → (walk_graph {E = E} g log fuel out []).1 ≡ done
      → let calls = (walk_graph {E = E} g log fuel out []).0.state in
        let r = walk_graph g visit fuel out t in
        (r.1 ≡ outcome_of (run_calls t calls).1) × (r.0.state ≡ (run_calls t calls).0)
  unfolding Agrees
  walk_graph-run_calls g fuel out t d =
      let u : Walk Calls = record { visited = []; state = [] } in
      let (new, e1, e2, e3, e4) =
        walk-Agrees g fuel 0 out (record { visited = []; state = t }) u refl d in
      rw e1 (e2, e3)
