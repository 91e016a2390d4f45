-- ===== src/Llb/Marshal/Entries.antt =====
-- client/llb/state.go: the entries and the metadata of the vertices that were emitted.
use mathlib.Core.List.{reverse-cons}
use bons_ci.Base.{
  Str, str_key, str_eqb, str_eqb_iff, key_eq_sym, ℕ, true, false, List, [], ◌∷◌, ◌++◌, map, reverse,
  Option, none, some, ◌≡◌, inl, inr, refl, sym, ◌∙◌, ap, arith, Bool-cases, any, if◌then◌else◌,
  if_true, if_false, ◌⊎◌,
}
use bons_ci.Base.Dict.{lookup, lookup-insert}
use bons_ci.Llb.Graph.{has}
use bons_ci.Llb.Graph.Walked.{has_one}
use bons_ci.Llb.Graph.Calls.{Calls}
use bons_ci.Llb.Graph.Laws.{latest_first}
use bons_ci.Llb.Marshal.{Marshalled, Definition, empty_definition, add_marshalled, add_metadata}

lookup-add_metadata :
    (x : Str) (mm : List (Str × Str)) (d : Str) (md : Option Str)
    → lookup x (add_metadata mm d md)
      ≡ (if str_eqb d x then (elim md [ none ↦ lookup x mm | some y ↦ some y ]) else lookup x mm)
lookup-add_metadata x mm d none = ground arith
lookup-add_metadata x mm d (some y) = lookup-insert d x y mm

-- A vertex without metadata leaves what was there, nothing.
or_absent : (md old : Option Str) → old ≡ none → (elim md [ none ↦ old | some y ↦ some y ]) ≡ md
or_absent none old h = h
or_absent (some y) old h = refl

module _ (m : ℕ → Marshalled) where
  abbrev pub emit_all : Calls → Definition → Definition
  emit_all [] d = d
  emit_all (c ∷ cs) d = emit_all cs (add_marshalled d (m c.0))

  -- The definition has the entries, the digests and the metadata of these vertices, the last one first.
  pub record Emitted (d : Definition) (vs : List ℕ) : Type 0 where
    pub digests : d.digests ≡ map (λ v. (m v).digest) vs
    pub entries : d.def ≡ reverse (map (λ v. (m v).bytes) vs)
    pub metadata : (v : ℕ) → has vs v ≡ true → lookup (m v).digest d.metadata ≡ (m v).metadata
    pub absent : (x : Str) → any (str_eqb x) d.digests ≡ false → lookup x d.metadata ≡ none

  any-digest :
      (x : Str) (v : ℕ) (vs : List ℕ)
      → has vs v ≡ true
      → str_eqb x (m v).digest ≡ true
      → any (str_eqb x) (map (λ u. (m u).digest) vs) ≡ true
  any-digest x v [] h e = cc
  any-digest x v (u ∷ vs) h e = elim (has_one u v vs h) [
    | inl q ↦
        let same : str_eqb x (m u).digest ≡ true = ap (λ a. str_eqb x (m a).digest) q ∙ e in
        ground (arith, same)
    | inr k ↦ ground (arith, any-digest x v vs k e)
  ]

  -- A new digest adds its vertex.
  abbrev added : Definition → ℕ → Definition
  added d v = record {
    def = d.def ++ (m v).bytes ∷ [];
    metadata = add_metadata d.metadata (m v).digest (m v).metadata;
    digests = (m v).digest ∷ d.digests;
  }

  own_or_old :
      (d : Definition) (v : ℕ) (vs : List ℕ) (u : ℕ)
      → any (str_eqb (m v).digest) d.digests ≡ false
      → Emitted d vs
      → (v ≡ u) ⊎ (has vs u ≡ true)
      → (if str_eqb (m v).digest (m u).digest
          then (elim (m v).metadata [ none ↦ lookup (m u).digest d.metadata | some y ↦ some y ])
          else lookup (m u).digest d.metadata)
        ≡ (m u).metadata
  own_or_old d v vs u new x (inl q) =
      let same : (m v).digest ≡ (m u).digest = ap (λ a. (m a).digest) q in
      if_true _ _ ((str_eqb_iff (m v).digest (m u).digest).1 same)
      ∙ or_absent (m v).metadata (lookup (m u).digest d.metadata)
          (ap (λ y. lookup y d.metadata) (sym same) ∙ x.absent (m v).digest new)
      ∙ ap (λ a. (m a).metadata) q
  own_or_old d v vs u new x (inr k) = elim (Bool-cases (str_eqb (m v).digest (m u).digest)) [
    | inl e ↦ cc (any-digest (m v).digest u vs k e, ap (any (str_eqb (m v).digest)) x.digests, new)
    | inr n ↦ if_false _ _ n ∙ x.metadata u k
  ]

  added-Emitted :
      (d : Definition) (v : ℕ) (vs : List ℕ)
      → any (str_eqb (m v).digest) d.digests ≡ false
      → Emitted d vs
      → Emitted (added d v) (v ∷ vs)
  added-Emitted d v vs new x = record {
    digests = ap (λ l. (m v).digest ∷ l) x.digests;
    entries =
        ap (λ l. l ++ (m v).bytes ∷ []) x.entries
        ∙ sym (reverse-cons (m v).bytes (map (λ u. (m u).bytes) vs));
    metadata = λ u h.
        lookup-add_metadata (m u).digest d.metadata (m v).digest (m v).metadata
        ∙ own_or_old d v vs u new x (has_one v u vs h);
    absent = λ y h. ground (
      arith,
      lookup-add_metadata y d.metadata (m v).digest (m v).metadata,
      key_eq_sym y (m v).digest,
      h,
      x.absent y,
    );
  }

  emit-Emitted :
      (d : Definition) (v : ℕ) (vs : List ℕ)
      → Emitted d vs
      → (vs' : List ℕ) × Emitted (add_marshalled d (m v)) vs'
        × ((u : ℕ) → has vs' u ≡ true → has (v ∷ vs) u ≡ true)
  emit-Emitted d v vs x = elim (Bool-cases (any (str_eqb (m v).digest) d.digests)) [
    | inl old ↦ (vs, rw old x, λ u h. ground (arith, h))
    | inr new ↦ (v ∷ vs, rw new (added-Emitted d v vs new x), λ u h. h)
  ]

  pub emit_all-Emitted :
      (cs : Calls) (d : Definition) (vs us : List ℕ)
      → Emitted d vs
      → ((v : ℕ) → has vs v ≡ true → has us v ≡ true)
      → (vs' : List ℕ) × Emitted (emit_all cs d) vs'
        × ((v : ℕ) → has vs' v ≡ true → has (latest_first cs us) v ≡ true)
  emit_all-Emitted [] d vs us x h = (vs, x, h)
  emit_all-Emitted (c ∷ cs) d vs us x h =
      let (vs', y, k) = emit-Emitted d c.0 vs x in
      emit_all-Emitted cs (add_marshalled d (m c.0)) vs' (c.0 ∷ us) y
        (λ v e. ground (arith, k v e, h v))

  pub empty-Emitted : Emitted empty_definition []
  unfolding lookup
  empty-Emitted = record {
    digests = refl;
    entries = refl;
    metadata = λ v h. cc;
    absent = λ x h. refl;
  }
