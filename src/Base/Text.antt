-- ===== src/Base/Text.antt =====
-- Go strings as lists of bytes.
use Prim.Native.Nat.{ℕ}
use Prim.Native.Char.{code}
use Prim.Native.String.{String}
use mathlib.Core.Path.{◌≡◌, refl}
use mathlib.Core.Bool.{Bool, true, false, ◌&&◌}
use mathlib.Core.Logic.{◌↔◌}
use mathlib.Core.List.{List, [], ◌∷◌, ◌++◌}
use native.Mathlib.Omega.{arith}
use bons_ci.Base.Tests.{◌==◌}
use bons_ci.Base.Keys.{Key}

abbrev pub Str : Type 0
Str = List ℕ

-- The code points of a text: its bytes, if it is ASCII.
abbrev pub codes : String → Str
codes String.[] = []
codes (String.◌∷◌ c s) = code c ∷ codes s

abbrev pub str_eqb : Str → Str → Bool
str_eqb [] [] = true
str_eqb (x ∷ xs) (y ∷ ys) = x == y && str_eqb xs ys
str_eqb _ _ = false

pub str_eqb_iff : (s t : Str) → (str_eqb s t ≡ true) ↔ (s ≡ t)
str_eqb_iff [] [] = ground arith
str_eqb_iff (x ∷ xs) [] = ground arith
str_eqb_iff [] (y ∷ ys) = ground arith
str_eqb_iff (x ∷ xs) (y ∷ ys) = ground (arith, str_eqb_iff xs ys)

instance abbrev pub str_key : Key Str
str_key = record { eqb = str_eqb; eqb_iff = str_eqb_iff }

-- strings.HasPrefix
abbrev pub has_prefix : Str → Str → Bool
has_prefix s [] = true
has_prefix (x ∷ xs) (y ∷ ys) = x == y && has_prefix xs ys
has_prefix [] (y ∷ ys) = false

pub has_prefix_append : (s t : Str) → has_prefix (s ++ t) s ≡ true
has_prefix_append [] t = refl
has_prefix_append (x ∷ s) t = ground (arith, has_prefix_append s t)

pub has_prefix_split : (s p : Str) → has_prefix s p ≡ true → (r : Str) × (s ≡ p ++ r)
has_prefix_split s [] h = (s, refl)
has_prefix_split [] (y ∷ ys) h = ground arith
has_prefix_split (x ∷ xs) (y ∷ ys) h =
    let (r, e) = has_prefix_split xs ys (ground arith) in (r, ground arith)
