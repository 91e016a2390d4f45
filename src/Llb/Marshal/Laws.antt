-- ===== src/Llb/Marshal/Laws.antt =====
-- client/llb/state.go: what stands in a definition.
use bons_ci.Base.{
  Str, str_key, str_eqb, str_eqb_iff, ℕ, suc, ◌<◌, Bool, true, false, ◌||◌, List, [], ◌∷◌, ◌++◌,
  none, some, ◌≡◌, ◌⊎◌, inl, inr, refl, sym, ◌∙◌, ap, arith, Bool-cases, any, map, reverse,
}
use bons_ci.Base.Dict.{lookup}
use bons_ci.Llb.Graph.{Graph, has, outcome_of, walk_graph}
use bons_ci.Llb.Graph.Reach.{Reach, IsRank}
use bons_ci.Llb.Graph.Walked.{has_one}
use bons_ci.Llb.Graph.Calls.{Calls, log, run_calls}
use bons_ci.Llb.Graph.Laws.{walk_graph_lem, latest_first}
use bons_ci.Llb.Marshal.Entries.{emit_all, emit_all-Emitted, empty-Emitted}
use bons_ci.Llb.Marshal.{
  Marshalled, Definition, empty_definition, add_marshalled, emit_vertex, marshal_vertex,
  marshal_state, marshal_root, last_entry, head,
}

-- No digest stands twice.
abbrev pub IsUnique : List Str → Type 0
IsUnique [] = Unit
IsUnique (x ∷ xs) = (any (str_eqb x) xs ≡ false) × IsUnique xs

last_entry-append : (bs : List Str) (b : Str) → last_entry (bs ++ b ∷ []) ≡ some b
last_entry-append [] b = refl
last_entry-append (c ∷ []) b = refl
last_entry-append (c ∷ e ∷ bs) b = last_entry-append (e ∷ bs) b

head_last :
    {E : Type 0}
    → (inputs_of : Str → E ⊎ List Str) (d : Definition) (b x : Str) → inputs_of b ≡ inr (x ∷ [])
    → head inputs_of (record d { def = d.def ++ b ∷ [] }) ≡ inr x
head_last inputs_of d b x h = rw (last_entry-append d.def b, head) (rw (h, head))

or_false : (b : Bool) → b ≡ (b || false)
or_false b = ground arith

module _ (m : ℕ → Marshalled) where
  run_calls-emit :
      (E : Type 0) (cs : Calls) (d : Definition)
      → run_calls {E = E} (emit_vertex (λ v. inr (m v))) d cs ≡ (emit_all m cs d, none)
  run_calls-emit E [] d = refl
  run_calls-emit E (c ∷ cs) d = run_calls-emit E cs (add_marshalled d (m c.0))

  emit_all-IsUnique :
      (cs : Calls) (d : Definition) → IsUnique d.digests → IsUnique (emit_all m cs d).digests
  emit_all-IsUnique [] d u = u
  emit_all-IsUnique (c ∷ cs) d u =
      emit_all-IsUnique cs (add_marshalled d (m c.0))
        (elim (Bool-cases (any (str_eqb (m c.0).digest) d.digests)) [
          | inl old ↦ rw old u
          | inr new ↦ rw new (new, u)
        ])

  add_marshalled-any :
      (x : Str) (d : Definition) (e : Marshalled)
      → any (str_eqb x) (add_marshalled d e).digests
        ≡ (str_eqb x e.digest || any (str_eqb x) d.digests)
  add_marshalled-any x d e = elim (Bool-cases (any (str_eqb e.digest) d.digests)) [
    | inr new ↦ rw new
    | inl old ↦ rw old (elim (Bool-cases (str_eqb x e.digest)) [
      | inr other ↦ rw other
      | inl same ↦ rw same (rw ((str_eqb_iff x e.digest).0 same) old)
    ])
  ]

  emit_all-any :
      (x : Str) (cs : Calls) (d : Definition)
      → any (str_eqb x) (emit_all m cs d).digests
        ≡ (any (λ c. str_eqb x (m c.0).digest) cs || any (str_eqb x) d.digests)
  emit_all-any x [] d = refl
  emit_all-any x (c ∷ cs) d =
      ground (arith, emit_all-any x cs (add_marshalled d (m c.0)), add_marshalled-any x d (m c.0))

  any-latest_first :
      (v : ℕ) (cs : Calls) (vs : List ℕ)
      → has (latest_first cs vs) v ≡ true
      → (has vs v ≡ true) ⊎ (any (λ c. str_eqb (m v).digest (m c.0).digest) cs ≡ true)
  any-latest_first v [] vs h = inl h
  any-latest_first v (c ∷ cs) vs h = elim (any-latest_first v cs (c.0 ∷ vs) h) [
    | inr k ↦ inr (ground (arith, k))
    | inl k ↦ elim (has_one c.0 v vs k) [
      | inr old ↦ inl old
      | inl e ↦
          let same = (str_eqb_iff (m v).digest (m c.0).digest).1 (ap (λ a. (m a).digest) (sym e)) in
          inr (ground (arith, same))
    ]
  ]

  module _ (E : Type 0) (g : Graph) (rank : ℕ → ℕ) (fuel root : ℕ) (acyclic : IsRank g rank)
      (enough : suc (rank root) < fuel) where
    logged : Calls
    logged = (walk_graph {E = E} g log fuel (some root) []).0.state

    -- The definition of a graph, without the last entry.
    emitted : Definition
    unfolding logged
    emitted = emit_all m logged empty_definition

    marshal_root_lem :
        (last : ℕ → Definition → E ⊎ Definition)
        → marshal_root g (λ v. inr (m v)) fuel (some root) last ≡ some (last root emitted)
    unfolding marshal_vertex emitted logged
    marshal_root_lem last =
        let (e, s, order, reach) =
          walk_graph_lem {E = E} g rank fuel root (emit_vertex (λ v. inr (m v))) empty_definition
            acyclic enough in
        let run = run_calls-emit E logged empty_definition in
        let ends = e ∙ ap (λ a. outcome_of a.1) run in
        let made = s ∙ ap (λ a. a.0) run in
        rw (ends, marshal_root) (ap (λ d. some (last root d)) made)

    -- In a graph without cycles, with more fuel than one above the rank of the root, where every vertex marshals, a
    -- state marshals to the bytes of vertices that the root reaches, one after the other, and a last entry that
    -- names the digest of the root. The digests of these vertices are distinct, every vertex that the root reaches has one of
    -- them, and the metadata under each is that of its vertex.
    pub marshal_state_lem :
        (terminal : Str → ℕ → Str) (i : ℕ)
        → (d : Definition) × (marshal_state {E = E} g
              (λ v. inr (m v))
              fuel
              terminal
              (inr i)
              (some root)
            ≡ some (inr (record d { def = d.def ++ terminal (m root).digest i ∷ [] })))
          × IsUnique d.digests
          × ((v : ℕ) → Reach g root v → any (str_eqb (m v).digest) d.digests ≡ true)
          × (vs : List ℕ) × ((v : ℕ) → has vs v ≡ true → Reach g root v)
          × (d.digests ≡ map (λ v. (m v).digest) vs)
          × (d.def ≡ reverse (map (λ v. (m v).bytes) vs))
          × ((v : ℕ) → has vs v ≡ true → lookup (m v).digest d.metadata ≡ (m v).metadata)
    unfolding marshal_state emitted logged
    marshal_state_lem terminal i =
        let (e, s, order, reach) =
          walk_graph_lem {E = E} g rank fuel root (emit_vertex (λ v. inr (m v))) empty_definition
            acyclic enough in
        let (vs, x, from) =
          emit_all-Emitted m logged empty_definition [] [] (empty-Emitted m) (λ v h. cc) in
        (
          emitted,
          marshal_root_lem (λ v d. inr (record d { def = d.def ++ terminal (m v).digest i ∷ [] })),
          emit_all-IsUnique logged empty_definition tt,
          λ v p. elim (any-latest_first v logged [] ((reach v).1 p)) [
            | inl k ↦ cc
            | inr k ↦ emit_all-any (m v).digest logged empty_definition ∙ ap (λ b. b || false) k
          ],
          vs,
          λ v h. (reach v).0 (from v h),
          x.digests,
          x.entries,
          x.metadata,
        )

    -- Under the same conditions, where the last entry decodes to its input, Head of the definition is the digest of
    -- the root.
    pub head-marshal_state :
        (terminal : Str → ℕ → Str) (inputs_of : Str → E ⊎ List Str) (i : ℕ)
        → ((x : Str) (j : ℕ) → inputs_of (terminal x j) ≡ inr (x ∷ []))
        → (d : Definition) × (marshal_state {E = E} g
              (λ v. inr (m v))
              fuel
              terminal
              (inr i)
              (some root)
            ≡ some (inr d))
          × (head inputs_of d ≡ inr (m root).digest)
    head-marshal_state terminal inputs_of i decodes =
        let (d, e, u, r, vs, w, a, b, c) = marshal_state_lem terminal i in
        (
          record d { def = d.def ++ terminal (m root).digest i ∷ [] },
          e,
          head_last inputs_of d (terminal (m root).digest i) (m root).digest
              (decodes (m root).digest i),
        )
