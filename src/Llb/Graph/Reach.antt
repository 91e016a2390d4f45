-- ===== src/Llb/Graph/Reach.antt =====
-- client/llb/visitor.go: the vertices below a vertex, and graphs without cycles.
use bons_ci.Base.{ℕ, ◌≤◌, ◌<◌, Bool, true, false, List, Option, none, some, ◌==◌, ◌≡◌, arith, any}
use bons_ci.Llb.Graph.{Graph}

abbrev pub is_output_of : ℕ → Option ℕ → Bool
is_output_of v none = false
is_output_of v (some u) = u == v

-- The vertex is one of these outputs.
abbrev pub takes : List (Option ℕ) → ℕ → Bool
takes is v = any (is_output_of v) is

pub data Reach (g : Graph) (src : ℕ) : ℕ → Type 0 where
  here : Reach g src src
  input : {u v : ℕ} → Reach g src u → takes (g u) v ≡ true → Reach g src v

pub Reach-trans : (g : Graph) (a b : ℕ) {c : ℕ} → Reach g a b → Reach g b c → Reach g a c
Reach-trans g a b p here = p
Reach-trans g a b p (input q e) = input (Reach-trans g a b p q) e

-- A number for each vertex that is smaller at its inputs.
abbrev pub IsRank : Graph → (ℕ → ℕ) → Type 0
IsRank g rank = (u v : ℕ) → takes (g u) v ≡ true → rank v < rank u

pub Reach-rank :
    (g : Graph) (rank : ℕ → ℕ) (src : ℕ) {v : ℕ} → IsRank g rank → Reach g src v → rank v ≤ rank src
Reach-rank g rank src acyclic here = omega arith
Reach-rank g rank src acyclic (input {u} {v} p e) =
    omega (arith, Reach-rank g rank src acyclic p, acyclic u v e)
