-- ===== src/Llb/Graph/Order.antt =====
-- client/llb/visitor.go: the order in which vertices are visited, by a visitor that writes them down, the last first.
use bons_ci.Base.{
  ℕ, ◌<◌, true, false, List, [], ◌∷◌, Option, none, some, ◌≡◌, ◌⊎◌, inl, inr, refl, arith,
}
use bons_ci.Llb.Graph.{Graph, has, Outcome, done, Walk, Visitor, walk_inputs, and_then}
use bons_ci.Llb.Graph.Reach.{Reach, takes}

-- A visitor that notes the vertex.
abbrev pub note : {E : Type 0} → Visitor (List ℕ) E
note vs v depth = (v ∷ vs, none)

-- Each vertex stands once, after all its inputs.
abbrev pub IsTopological : Graph → List ℕ → Type 0
IsTopological g [] = Unit
IsTopological g (v ∷ vs) =
    (has vs v ≡ false) × ((u : ℕ) → takes (g v) u ≡ true → has vs u ≡ true) × IsTopological g vs

abbrev pub Noted : Type 0
Noted = Walk (List ℕ)

-- What holds between calls: the noted vertices are marked, and in order.
pub record IsOrdered (g : Graph) (w : Noted) : Type 0 where
  pub order : IsTopological g w.state
  pub marked : (u : ℕ) → has w.state u ≡ true → has w.visited u ≡ true

-- What a call adds: nothing is forgotten, what is marked anew is noted, and what is noted anew is reached.
pub record Grows (P : ℕ → Type 0) (w w' : Noted) : Type 0 where
  pub marks : (u : ℕ) → has w.visited u ≡ true → has w'.visited u ≡ true
  pub kept : (u : ℕ) → has w.state u ≡ true → has w'.state u ≡ true
  pub noted : (u : ℕ) → has w'.visited u ≡ true → (has w.visited u ≡ true) ⊎ (has w'.state u ≡ true)
  pub reached : (u : ℕ) → has w'.state u ≡ true → (has w.state u ≡ true) ⊎ P u

pub Grows-refl : (P : ℕ → Type 0) (w : Noted) → Grows P w w
Grows-refl P w = record {
  marks = λ u h. h;
  kept = λ u h. h;
  noted = λ u h. inl h;
  reached = λ u h. inl h;
}

Grows-trans : (P : ℕ → Type 0) (a b c : Noted) → Grows P a b → Grows P b c → Grows P a c
Grows-trans P a b c p q = record {
  marks = λ u h. q.marks u (p.marks u h);
  kept = λ u h. q.kept u (p.kept u h);
  noted = λ u h. elim (q.noted u h) [
    | inr k ↦ inr k
    | inl k ↦ elim (p.noted u k) [ inl m ↦ inl m | inr m ↦ inr (q.kept u m) ]
  ];
  reached = λ u h. elim (q.reached u h) [ inr k ↦ inr k | inl k ↦ p.reached u k ];
}

Grows-map : (P Q : ℕ → Type 0) (a b : Noted) → ((u : ℕ) → P u → Q u) → Grows P a b → Grows Q a b
Grows-map P Q a b f p = record {
  marks = p.marks;
  kept = p.kept;
  noted = p.noted;
  reached = λ u h. elim (p.reached u h) [ inl k ↦ inl k | inr k ↦ inr (f u k) ];
}

module _ (g : Graph) (rank : ℕ → ℕ) where
  -- The marked vertices that are not above a vertex are noted: only vertices above it are still open.
  abbrev pub Settled : ℕ → Noted → Type 0
  Settled n w = (u : ℕ) → rank u < n → has w.visited u ≡ true → has w.state u ≡ true

  Settled-Grows : (P : ℕ → Type 0) (n : ℕ) (a b : Noted) → Settled n a → Grows P a b → Settled n b
  Settled-Grows P n a b s p u lt h = elim (p.noted u h) [ inl k ↦ p.kept u (s u lt k) | inr k ↦ k ]

abbrev pub Step : Type 0 → Type 0
Step E = Option ℕ → Noted → Noted × Outcome E

-- Below some of the outputs.
abbrev pub Below : Graph → List (Option ℕ) → ℕ → Type 0
Below g is u = (v : ℕ) × (takes is v ≡ true) × Reach g v u

-- What a call does for some outputs.
pub record IsWalked {E : Type 0} (g : Graph) (is : List (Option ℕ)) (w : Noted)
    (r : Noted × Outcome E) : Type 0 where
  pub ends : r.1 ≡ done
  pub ordered : IsOrdered g r.0
  pub grows : Grows (Below g is) w r.0
  pub has_all : (v : ℕ) → takes is v ≡ true → has r.0.state v ≡ true

inputs_next :
    {E : Type 0}
    → (rec : Step E) (i : Option ℕ) (is : List (Option ℕ)) (w : Noted) → (rec i w).1 ≡ done
    → walk_inputs rec (i ∷ is) w ≡ walk_inputs rec is (rec i w).0
inputs_next rec i is w e = rw (e, and_then)

pub takes_head :
    (i : Option ℕ) (is : List (Option ℕ)) (v : ℕ)
    → takes (i ∷ []) v ≡ true
    → takes (i ∷ is) v ≡ true
takes_head none is v h = ground arith
takes_head (some u) is v h = ground arith

pub takes_tail :
    (i : Option ℕ) (is : List (Option ℕ)) (v : ℕ) → takes is v ≡ true → takes (i ∷ is) v ≡ true
takes_tail none is v h = h
takes_tail (some u) is v h = ground arith

takes-cases :
    (i : Option ℕ) (is : List (Option ℕ)) (v : ℕ)
    → takes (i ∷ is) v ≡ true
    → (takes (i ∷ []) v ≡ true) ⊎ (takes is v ≡ true)
takes-cases none is v h = inr h
takes-cases (some u) is v h = ground arith

module _ {E : Type 0} (g : Graph) (rank : ℕ → ℕ) (n : ℕ) (rec : Step E)
    (walked : (i : Option ℕ) (w : Noted)
      → ((v : ℕ) → takes (i ∷ []) v ≡ true → rank v < n)
      → IsOrdered g w
      → Settled g rank n w
      → IsWalked g (i ∷ []) w (rec i w)) where
  pub walk_inputs-IsWalked :
      (is : List (Option ℕ)) (w : Noted)
      → ((v : ℕ) → takes is v ≡ true → rank v < n)
      → IsOrdered g w
      → Settled g rank n w
      → IsWalked g is w (walk_inputs rec is w)
  walk_inputs-IsWalked [] w lt o s = record {
    ends = refl;
    ordered = o;
    grows = Grows-refl (Below g []) w;
    has_all = λ v h. cc;
  }
  walk_inputs-IsWalked (i ∷ is) w lt o s =
      let first = walked i w (λ v h. lt v (takes_head i is v h)) o s in
      let w' = (rec i w).0 in
      let rest =
        walk_inputs-IsWalked is w' (λ v h. lt v (takes_tail i is v h)) first.ordered
          (Settled-Grows g rank (Below g (i ∷ [])) n w w' s first.grows) in
      rw (inputs_next rec i is w first.ends) (record {
        ends = rest.ends;
        ordered = rest.ordered;
        grows =
            Grows-trans (Below g (i ∷ is)) w w' (walk_inputs rec is w').0
              (Grows-map (Below g (i ∷ [])) (Below g (i ∷ is)) w w'
                (λ u b. (b.0, takes_head i is b.0 b.1, b.2)) first.grows)
              (Grows-map (Below g is) (Below g (i ∷ is)) w' (walk_inputs rec is w').0
                (λ u b. (b.0, takes_tail i is b.0 b.1, b.2)) rest.grows);
        has_all = λ v h. elim (takes-cases i is v h) [
          | inl k ↦ rest.grows.kept v (first.has_all v k)
          | inr k ↦ rest.has_all v k
        ];
      })
