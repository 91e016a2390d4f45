-- ===== src/Llb/Graph/Walked.antt =====
-- client/llb/visitor.go: in a graph without cycles the walk notes what is below a vertex, inputs first.
use bons_ci.Base.{
  ℕ, zero, suc, ◌+◌, ◌<◌, true, false, List, [], ◌∷◌, Option, none, some, ◌≡◌, ◌⊎◌, inl, inr, ◌↔◌,
  refl, sym, ap, subst, arith, Bool-cases,
}
use bons_ci.Llb.Graph.{
  Graph, has, Outcome, done, Walk, Visitor, walk, walk_graph, walk_inputs, finish, and_then,
}
use bons_ci.Llb.Graph.Reach.{Reach, here, input, takes, IsRank, Reach-trans, Reach-rank}
use bons_ci.Llb.Graph.Order.{
  note, IsTopological, Noted, IsOrdered, Grows-refl, Settled, IsWalked, Below, walk_inputs-IsWalked,
}

module _ {T E : Type 0} (g : Graph) (visit : Visitor T E) (fuel v depth : ℕ) (w : Walk T) where
  -- The calls for the inputs, from the mark of the vertex on.
  abbrev pub inner : Walk T × Outcome E
  inner =
      walk_inputs (λ i. walk g visit fuel i (depth + 1)) (g v)
        (record w { visited = v ∷ w.visited })

  pub walk_marked : has w.visited v ≡ true → walk g visit (suc fuel) (some v) depth w ≡ (w, done)
  unfolding walk
  walk_marked h = rw (h, walk)

  pub walk_open :
      has w.visited v ≡ false
      → inner.1 ≡ done
      → walk g visit (suc fuel) (some v) depth w ≡ finish visit v depth inner.0
  unfolding walk
  walk_open h e = rw (h, walk) (rw (e, and_then))

pub takes_one : (v u : ℕ) → takes (some v ∷ []) u ≡ true → v ≡ u
takes_one v u h = ground arith

pub takes_self : (v : ℕ) → takes (some v ∷ []) v ≡ true
takes_self v = ground arith

pub has_one : (v u : ℕ) (vs : List ℕ) → has (v ∷ vs) u ≡ true → (v ≡ u) ⊎ (has vs u ≡ true)
has_one v u vs h = ground arith

has_self : (v : ℕ) (vs : List ℕ) → has (v ∷ vs) v ≡ true
has_self v vs = ground arith

has_tail : (v u : ℕ) (vs : List ℕ) → has vs u ≡ true → has (v ∷ vs) u ≡ true
has_tail v u vs h = ground arith

Reach-input : (g : Graph) (v c : ℕ) {u : ℕ} → takes (g v) c ≡ true → Reach g c u → Reach g v u
Reach-input g v c e p = Reach-trans g v c (input here e) p

-- The state in which the inputs are walked.
abbrev mark : Noted → ℕ → Noted
mark w v = record w { visited = v ∷ w.visited }

mark-IsOrdered : (g : Graph) (w : Noted) (v : ℕ) → IsOrdered g w → IsOrdered g (mark w v)
mark-IsOrdered g w v o = record {
  order = o.order;
  marked = λ u h. has_tail v u w.visited (o.marked u h);
}

mark-Settled :
    (g : Graph) (rank : ℕ → ℕ) (w : Noted) (v n : ℕ)
    → rank v < n
    → Settled g rank n w
    → Settled g rank (rank v) (mark w v)
mark-Settled g rank w v n lt s u below h = elim (has_one v u w.visited h) [
  | inl e ↦ absurd (omega (arith, ap rank e))
  | inr k ↦ s u (omega arith) k
]

module _ {E : Type 0} (g : Graph) (rank : ℕ → ℕ) (acyclic : IsRank g rank) where
  -- No input leads back to the vertex.
  fresh :
      (w w' : Noted) (v : ℕ)
      → IsOrdered g w
      → has w.visited v ≡ false
      → IsWalked {E = E} g (g v) (mark w v) (w', done)
      → has w'.state v ≡ false
  fresh w w' v o unmarked x = elim (Bool-cases (has w'.state v)) [
    | inr k ↦ k
    | inl k ↦ elim (x.grows.reached v k) [
      | inl m ↦ cc (o.marked v m, unmarked)
      | inr (c, t, p) ↦ absurd (omega (arith, Reach-rank g rank c acyclic p, acyclic v c t))
    ]
  ]

  -- The vertex is noted after its inputs.
  note-IsWalked :
      (w w' : Noted) (v : ℕ)
      → IsOrdered g w
      → has w.visited v ≡ false
      → IsWalked {E = E} g (g v) (mark w v) (w', done)
      → IsWalked {E = E} g (some v ∷ []) w (record w' { state = v ∷ w'.state }, done)
  note-IsWalked w w' v o unmarked x = record {
    ends = refl;
    ordered = record {
      order = (fresh w w' v o unmarked x, x.has_all, x.ordered.order);
      marked = λ u h. elim (has_one v u w'.state h) [
        | inl e ↦ subst (λ a. has w'.visited a ≡ true) e (x.grows.marks v (has_self v w.visited))
        | inr k ↦ x.ordered.marked u k
      ];
    };
    grows = record {
      marks = λ u h. x.grows.marks u (has_tail v u w.visited h);
      kept = λ u h. has_tail v u w'.state (x.grows.kept u h);
      noted = λ u h. elim (x.grows.noted u h) [
        | inr k ↦ inr (has_tail v u w'.state k)
        | inl k ↦ elim (has_one v u w.visited k) [
          | inl e ↦ inr (subst (λ a. has (v ∷ w'.state) a ≡ true) e (has_self v w'.state))
          | inr m ↦ inl m
        ]
      ];
      reached = λ u h. elim (has_one v u w'.state h) [
        | inl e ↦ inr (v, takes_self v, subst (Reach g v) e here)
        | inr k ↦ elim (x.grows.reached u k) [
          | inl m ↦ inl m
          | inr (c, t, p) ↦ inr (v, takes_self v, Reach-input g v c t p)
        ]
      ];
    };
    has_all =
        λ u h. subst (λ a. has (v ∷ w'.state) a ≡ true) (takes_one v u h) (has_self v w'.state);
  }

  plain :
      (is : List (Option ℕ)) (w : Noted) (r : Noted × Outcome E)
      → IsWalked {E = E} g is w r
      → IsWalked {E = E} g is w (r.0, done)
  plain is w r x = record { ends = refl; ordered = x.ordered; grows = x.grows; has_all = x.has_all }

  pub walk-IsWalked :
      (fuel depth n : ℕ) (out : Option ℕ) (w : Noted)
      → n < fuel
      → ((v : ℕ) → takes (out ∷ []) v ≡ true → rank v < n)
      → IsOrdered g w
      → Settled g rank n w
      → IsWalked {E = E} g (out ∷ []) w (walk g note fuel out depth w)
  unfolding walk
  walk-IsWalked zero depth n out w f lt o s = absurd (omega arith)
  walk-IsWalked (suc fuel) depth n none w f lt o s = record {
    ends = refl;
    ordered = o;
    grows = Grows-refl (Below g (none ∷ [])) w;
    has_all = λ v h. cc;
  }
  walk-IsWalked (suc fuel) depth n (some v) w f lt o s = elim (Bool-cases (has w.visited v)) [
    | inl old ↦ rw (walk_marked g note fuel v depth w old) (record {
      ends = refl;
      ordered = o;
      grows = Grows-refl (Below g (some v ∷ [])) w;
      has_all = λ u h.
          subst (λ a. has w.state a ≡ true) (takes_one v u h) (s v (lt v (takes_self v)) old);
    })
    | inr new ↦
        let x =
          walk_inputs-IsWalked g rank (rank v) (λ i. walk g note fuel i (depth + 1))
            (λ i w' below o' s'.
              walk-IsWalked fuel (depth + 1) (rank v) i w' (omega (arith, lt v (takes_self v)))
                below o' s')
            (g v) (mark w v) (acyclic v) (mark-IsOrdered g w v o)
            (mark-Settled g rank w v n (lt v (takes_self v)) s) in
        rw (walk_open g note fuel v depth w new x.ends) (
          note-IsWalked w (inner g note fuel v depth w).0 v o new
            (plain (g v) (mark w v) (inner g note fuel v depth w) x))
  ]

topological_closed :
    (g : Graph) (vs : List ℕ) (u v : ℕ)
    → IsTopological g vs
    → has vs u ≡ true
    → takes (g u) v ≡ true
    → has vs v ≡ true
topological_closed g [] u v o h t = cc
topological_closed g (x ∷ vs) u v o h t = elim (has_one x u vs h) [
  | inl e ↦ has_tail x v vs (o.1 v (subst (λ a. takes (g a) v ≡ true) (sym e) t))
  | inr k ↦ has_tail x v vs (topological_closed g vs u v o.2 k t)
]

topological_Reach :
    (g : Graph) (vs : List ℕ) (src : ℕ) {v : ℕ}
    → IsTopological g vs
    → has vs src ≡ true
    → Reach g src v
    → has vs v ≡ true
topological_Reach g vs src o h here = h
topological_Reach g vs src o h (input {u} {v} p t) =
    topological_closed g vs u v o (topological_Reach g vs src o h p) t

-- In a graph without cycles, with more fuel than one above the rank of the root, the walk ends without an error, and has
-- visited exactly the vertices that the root reaches, each once and after all its inputs.
pub walk_graph-IsTopological :
    {E : Type 0}
    → (g : Graph) (rank : ℕ → ℕ) (fuel root : ℕ) → IsRank g rank
    → suc (rank root) < fuel
    → let r = walk_graph {E = E} g note fuel (some root) [] in
      (r.1 ≡ done)
      × IsTopological g r.0.state
      × ((v : ℕ) → (has r.0.state v ≡ true) ↔ Reach g root v)
walk_graph-IsTopological {E} g rank fuel root acyclic f =
    let w : Noted = record { visited = []; state = [] } in
    let x =
      walk-IsWalked {E = E} g rank acyclic fuel 0 (suc (rank root)) (some root) w f
        (λ v h. omega (arith, ap rank (takes_one root v h)))
        (record { order = tt; marked = λ u h. h }) (λ u lt h. h) in
    let vs = (walk {E = E} g note fuel (some root) 0 w).0.state in
    (
      x.ends,
      x.ordered.order,
      λ v. (
        λ h. elim (x.grows.reached v h) [
          | inl k ↦ cc
          | inr (c, t, p) ↦ subst (λ a. Reach g a v) (sym (takes_one root c t)) p
        ],
        λ p. topological_Reach g vs root x.ordered.order (x.has_all root (takes_self root)) p,
      ),
    )
