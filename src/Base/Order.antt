-- ===== src/Base/Order.antt =====
-- strings.Compare: the lexicographic order of byte strings.
use Prim.Native.Nat.{compare, Ordering}
use bons_ci.Base.{Str, str_eqb, false, ◌≡◌, refl, [], ◌∷◌, arith}
pub use Prim.Native.Nat.{Ordering}

abbrev pub compare_str : Str → Str → Ordering
compare_str [] [] = Ordering.eq
compare_str [] (y ∷ ys) = Ordering.lt
compare_str (x ∷ xs) [] = Ordering.gt
compare_str (x ∷ xs) (y ∷ ys) = elim (compare x y) [
  | Ordering.lt ↦ Ordering.lt
  | Ordering.gt ↦ Ordering.gt
  | Ordering.eq ↦ compare_str xs ys
]

abbrev pub Precedes : Str → Str → Type 0
Precedes a b = compare_str a b ≡ Ordering.lt

pub compare_str_eq : (a b : Str) → compare_str a b ≡ Ordering.eq → a ≡ b
compare_str_eq [] [] h = refl
compare_str_eq [] (y ∷ ys) h = ground arith
compare_str_eq (x ∷ xs) [] h = ground arith
compare_str_eq (x ∷ xs) (y ∷ ys) h = ground (arith, compare_str_eq xs ys)

pub compare_str_refl : (a : Str) → compare_str a a ≡ Ordering.eq
compare_str_refl [] = refl
compare_str_refl (x ∷ xs) = ground (arith, compare_str_refl xs)

pub compare_str_gt : (a b : Str) → compare_str a b ≡ Ordering.gt → Precedes b a
compare_str_gt [] [] h = ground arith
compare_str_gt [] (y ∷ ys) h = ground arith
compare_str_gt (x ∷ xs) [] h = refl
compare_str_gt (x ∷ xs) (y ∷ ys) h = ground (arith, compare_str_gt xs ys)

pub Precedes-trans : (a b c : Str) → Precedes a b → Precedes b c → Precedes a c
Precedes-trans [] (y ∷ ys) (z ∷ zs) h k = refl
Precedes-trans (x ∷ xs) (y ∷ ys) (z ∷ zs) h k = ground (arith, Precedes-trans xs ys zs)
Precedes-trans [] [] c h k = ground arith
Precedes-trans [] (y ∷ ys) [] h k = ground arith
Precedes-trans (x ∷ xs) [] c h k = ground arith
Precedes-trans (x ∷ xs) (y ∷ ys) [] h k = ground arith

pub Precedes-eqb : (a b : Str) → Precedes a b → str_eqb a b ≡ false
Precedes-eqb [] [] h = ground arith
Precedes-eqb [] (y ∷ ys) h = refl
Precedes-eqb (x ∷ xs) [] h = refl
Precedes-eqb (x ∷ xs) (y ∷ ys) h = ground (arith, Precedes-eqb xs ys)

pub Precedes-eqb_flip : (a b : Str) → Precedes a b → str_eqb b a ≡ false
Precedes-eqb_flip [] [] h = ground arith
Precedes-eqb_flip [] (y ∷ ys) h = refl
Precedes-eqb_flip (x ∷ xs) [] h = refl
Precedes-eqb_flip (x ∷ xs) (y ∷ ys) h = ground (arith, Precedes-eqb_flip xs ys)
