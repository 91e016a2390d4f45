-- ===== src/Base/Keys.antt =====
-- Types of keys: a Boolean equality that decides paths, as Go's `==` on map keys.
use Prim.Native.Nat.{ℕ}
use mathlib.Core.Path.{◌≡◌, refl, sym}
use mathlib.Core.Bool.{Bool, true, false, ◌&&◌}
use mathlib.Core.List.{List, [], ◌∷◌}
use mathlib.Core.Logic.{◌↔◌}
use native.Mathlib.Omega.{arith}
use bons_ci.Base.Tests.{◌==◌, ==_iff, Bool-ext}

pub record Key {ℓ} (K : Type ℓ) : Type ℓ where
  pub eqb : K → K → Bool
  pub eqb_iff : (a b : K) → (eqb a b ≡ true) ↔ (a ≡ b)

abbrev pub key_eq {ℓ} : {K : Type ℓ} ⦃e : Key K⦄ → K → K → Bool
key_eq ⦃e⦄ = e.eqb

module _ {ℓ} {K : Type ℓ} ⦃e : Key K⦄ where
  pub key_eq_refl : (a : K) → key_eq a a ≡ true
  key_eq_refl a = (e.eqb_iff a a).1 refl

  pub key_eq_sym : (a b : K) → key_eq a b ≡ key_eq b a
  key_eq_sym a b = Bool-ext (e.eqb a b) (e.eqb b a) (
    λ h. (e.eqb_iff b a).1 (sym ((e.eqb_iff a b).0 h)),
    λ h. (e.eqb_iff a b).1 (sym ((e.eqb_iff b a).0 h)),
  )

instance abbrev pub ℕ_key : Key ℕ
ℕ_key = record { eqb = ◌==◌; eqb_iff = ==_iff }

module _ {ℓ} {A B : Type ℓ} (a : Key A) (b : Key B) where
  abbrev pair_eqb : A × B → A × B → Bool
  pair_eqb (x, y) (u, v) = a.eqb x u && b.eqb y v

  pub pair_eqb_iff : (p q : A × B) → (pair_eqb p q ≡ true) ↔ (p ≡ q)
  pair_eqb_iff (x, y) (u, v) = ground (arith, a.eqb_iff x u, b.eqb_iff y v)

instance abbrev pub pair_key {ℓ} : {A B : Type ℓ} ⦃a : Key A⦄ ⦃b : Key B⦄ → Key (A × B)
pair_key ⦃a⦄ ⦃b⦄ = record { eqb = pair_eqb a b; eqb_iff = pair_eqb_iff a b }

module _ {ℓ} {A : Type ℓ} (a : Key A) where
  abbrev pub list_eqb : List A → List A → Bool
  list_eqb [] [] = true
  list_eqb (x ∷ xs) (y ∷ ys) = a.eqb x y && list_eqb xs ys
  list_eqb _ _ = false

  pub list_eqb_iff : (s t : List A) → (list_eqb s t ≡ true) ↔ (s ≡ t)
  list_eqb_iff [] [] = ground arith
  list_eqb_iff (x ∷ xs) [] = ground arith
  list_eqb_iff [] (y ∷ ys) = ground arith
  list_eqb_iff (x ∷ xs) (y ∷ ys) = ground (arith, a.eqb_iff x y, list_eqb_iff xs ys)

instance abbrev pub list_key {ℓ} : {A : Type ℓ} ⦃a : Key A⦄ → Key (List A)
list_key ⦃a⦄ = record { eqb = list_eqb a; eqb_iff = list_eqb_iff a }
