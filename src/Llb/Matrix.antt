-- ===== src/Llb/Matrix.antt =====
-- client/llb/ops/matrixop/matrixop.go: the cells of a matrix. A cell is a map from the names of axes to values.
pub mod Laws
use bons_ci.Base.{
  Str, str_key, str_eqb, ℕ, Bool, List, [], ◌∷◌, ◌++◌, Option, none, some, ◌⊎◌, inl, inr, map,
  if◌then◌else◌,
}
use bons_ci.Base.Dict.{insert}
use bons_ci.Base.Sort.{sort_by}

pub record Axis : Type 0 where
  pub name : Str
  pub values : List Str

abbrev pub Cell : Type 0
Cell = List (Str × Str)

-- The two inner loops: each cell with each value of the axis, in that order.
abbrev pub with_values : Str → Cell → List Str → List Cell
with_values name cell [] = []
with_values name cell (v ∷ vs) = insert name v cell ∷ with_values name cell vs

abbrev pub expand_axis : Axis → List Cell → List Cell
expand_axis a [] = []
expand_axis a (c ∷ cs) = with_values a.name c a.values ++ expand_axis a cs

abbrev pub expand_axes : List Axis → List Cell → List Cell
expand_axes [] cells = cells
expand_axes (a ∷ as_) cells = expand_axes as_ (expand_axis a cells)

-- `cartesianProduct`. Axes of one name keep their order, which sort.Slice leaves open.
unfoldable pub cartesian_product : List Axis → List Cell
cartesian_product [] = []
cartesian_product (a ∷ rest) = expand_axes (sort_by (λ x. x.name) (a ∷ rest)) ([] ∷ [])

-- `Validate`, up to the test of the function.
pub data MatrixError : Type 0 where
  no_axis : MatrixError
  no_value : Str → MatrixError

abbrev pub validate_axes : List Axis → Option MatrixError
validate_axes [] = none
validate_axes (a ∷ rest) = elim a.values [
  | [] ↦ some (no_value a.name)
  | _ ∷ _ ↦ validate_axes rest
]

abbrev pub validate : List Axis → Option MatrixError
validate [] = some no_axis
validate (a ∷ rest) = validate_axes (a ∷ rest)

-- `expand`: the state of each cell.
abbrev pub expand : {S : Type 0} → (Cell → S) → List Axis → List S
expand fn axes = map fn (cartesian_product axes)

abbrev pub join_parts : List (Str × Str) → Str
join_parts [] = []
join_parts ((k, v) ∷ []) = k ++ 61 ∷ v
join_parts ((k, v) ∷ p ∷ ps) = k ++ 61 ∷ v ++ 44 ∷ join_parts (p ∷ ps)

-- `CellKey`: the parts `k=v` by their names, with commas between them.
unfoldable pub cell_key : Cell → Str
cell_key c = join_parts (sort_by (λ e. e.0) c)
