-- ===== src/Fshash/Layer/Chain.antt =====
-- pkg/fshash/layer/chain.go: `Chain` and `ChainBuilder`. Layers are listed from the bottom to the top.
pub mod Laws
use bons_ci.Base.{
  Str, str_key, ℕ, zero, suc, ◌+◌, ◌-◌, Bool, true, false, ◌||◌, List, [], ◌∷◌, ◌++◌, Option, none,
  some, if◌then◌else◌, is_some, length, drop, leb,
}
use bons_ci.Base.Dict.{lookup, insert}

-- core.LayerID, by its digest; the zero value is the empty text.
abbrev pub LayerId : Type 0
LayerId = Str

abbrev pub is_zero : LayerId → Bool
is_zero [] = true
is_zero (c ∷ s) = false

pub record Chain : Type 0 where
  pub layers : List LayerId
  pub index : List (LayerId × ℕ)

-- The loop of `NewChain`: a later position replaces an earlier one of the same layer.
unfoldable pub index_from : ℕ → List LayerId → List (LayerId × ℕ) → List (LayerId × ℕ)
index_from i [] m = m
index_from i (l ∷ ls) m = index_from (i + 1) ls (insert l i m)

unfoldable pub new_chain : List LayerId → Chain
unfolding index_from
new_chain layers = record { layers = layers; index = index_from 0 layers [] }

unfoldable pub depth : Chain → ℕ
depth c = length c.layers

unfoldable pub contains : Chain → LayerId → Bool
contains c id = is_some (lookup id c.index)

-- `none` is the source's -1.
unfoldable pub position : Chain → LayerId → Option ℕ
position c id = lookup id c.index

abbrev pub last_layer : List LayerId → LayerId
last_layer [] = []
last_layer (l ∷ []) = l
last_layer (l ∷ k ∷ ls) = last_layer (k ∷ ls)

unfoldable pub top : Chain → LayerId
top c = last_layer c.layers

unfoldable pub bottom : Chain → LayerId
bottom c = elim c.layers [ [] ↦ [] | l ∷ ls ↦ l ]

unfoldable pub above : Chain → LayerId → List LayerId
unfolding position
above c id = elim (position c id) [
  | none ↦ []
  | some pos ↦ if leb (length c.layers - 1) pos then [] else drop (pos + 1) c.layers
]

-- `ChainBuilder`: its state is the list of layers.
unfoldable pub push : List LayerId → LayerId → List LayerId
push layers id = layers ++ id ∷ []

unfoldable pub build : List LayerId → Chain
unfolding new_chain
build layers = new_chain layers
