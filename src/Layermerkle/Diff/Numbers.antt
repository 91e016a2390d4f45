-- ===== src/Layermerkle/Diff/Numbers.antt =====
-- pkg/layermerkle/diff.go: the printing of numbers.
use bons_ci.Base.{
  Str, ℕ, zero, suc, ◌+◌, ◌-◌, ◌*◌, ◌/◌, ◌%◌, ◌^◌, ◌≤◌, ◌<◌, [], ◌∷◌, length, ◌==◌, ◌≡◌, refl, ◌∙◌,
  ap, arith, Bool-cases, inl, inr,
}
use native.Mathlib.Nat.{pow-suc}
use bons_ci.Layermerkle.Diff.{itoa, digits}

-- The number that a text of digits stands for.
abbrev pub value : Str → ℕ → ℕ
value [] acc = acc
value (c ∷ s) acc = value s (acc * 10 + (c - 48))

digits-value : (fuel n : ℕ) (acc : Str) → n ≤ fuel → value (digits fuel n acc) 0 ≡ value acc n
digits-value zero n acc h = let e : n ≡ 0 = omega arith in rw e refl
digits-value (suc fuel) n acc h = elim (Bool-cases (n == 0)) [
  | inl e ↦ let z : n ≡ 0 = ground arith in rw (e, z) refl
  | inr e ↦
      let positive : 0 < n = ground arith in
      rw e (
        digits-value fuel (n / 10) ((48 + n % 10) ∷ acc) (omega arith)
        ∙ ap (value acc) (omega arith))
]

below_tenth : (n k : ℕ) → n < 10 ^ suc k → n / 10 < 10 ^ k
below_tenth n k h = omega (arith, pow-suc 10 k)

digits-length :
    (fuel n k : ℕ) (acc : Str) → n < 10 ^ k → length (digits fuel n acc) ≤ k + length acc
digits-length zero n k acc h = omega arith
digits-length (suc fuel) n zero acc h = let z : n ≡ 0 = omega (arith, h) in rw z (omega arith)
digits-length (suc fuel) n (suc k) acc h = elim (Bool-cases (n == 0)) [
  | inl e ↦ rw e (omega arith)
  | inr e ↦
      rw e (omega (arith, digits-length fuel (n / 10) k ((48 + n % 10) ∷ acc) (below_tenth n k h)))
]

-- The number printed is read back.
pub value-itoa : (n : ℕ) → value (itoa n) 0 ≡ n
unfolding itoa
value-itoa n = elim (Bool-cases (n == 0)) [
  | inl e ↦ let z : n ≡ 0 = ground arith in rw z refl
  | inr e ↦ rw e (digits-value n n [] (omega arith))
]

-- Up to 19 digits stand in the buffer of 20 bytes, for every number of 63 bits.
pub itoa-fits : (n : ℕ) → n < 2 ^ 63 → length (itoa n) ≤ 19
unfolding itoa
itoa-fits n h = elim (Bool-cases (n == 0)) [
  | inl e ↦ rw e (omega arith)
  | inr e ↦ rw e (omega (arith, digits-length n n 19 [] (omega arith)))
]
