-- ===== src/Base/Bits.antt =====
-- The binary digits of a number, and what Go's `&` and `|` make of them.
use Prim.Native.Nat.{bit_and, bit_or, bit_and-bitwise, bit_or-bitwise, digits, min, max}
use bons_ci.Base.{
  ℕ, zero, suc, ◌+◌, ◌*◌, ◌/◌, ◌%◌, ◌^◌, ◌≤◌, not, if◌then◌else◌, ◌==◌, ◌≡◌, refl, sym, ◌∙◌, ap,
  subst, arith,
}

-- The binary digit at a position.
abbrev pub bit : ℕ → ℕ → ℕ
bit zero w = w % 2
bit (suc c) w = bit c (w / 2)

bit-le : (c w : ℕ) → bit c w ≤ 1
bit-le zero w = omega arith
bit-le (suc c) w = bit-le c (w / 2)

pub bit-zero : (c : ℕ) → bit c 0 ≡ 0
bit-zero zero = refl
bit-zero (suc c) = bit-zero c

double_half : (x m : ℕ) → m ≤ 1 → (x * 2 + m) / 2 ≡ x
double_half x m h = omega arith

min-le : (x y : ℕ) → min x y ≤ y
min-le x y = omega arith

digits-le : (n a b : ℕ) → digits (λ b. zero) min n a b ≤ b
digits-le zero a b = omega arith
digits-le (suc n) zero b = omega arith
digits-le (suc n) (suc a) b =
    omega (arith, digits-le n (suc a / 2) (b / 2), min-le (suc a % 2) (b % 2))

pub bit_and-le : (a b : ℕ) → bit_and a b ≤ b
bit_and-le a b = subst (λ z. z ≤ b) (sym (λ i. bit_and-bitwise a b i)) (digits-le a a b)

pow-suc : (b : ℕ) → 2 ^ suc b ≡ 2 ^ b * 2
pow-suc b = omega arith

pow-half : (b : ℕ) → 2 ^ suc b / 2 ≡ 2 ^ b
pow-half b = omega (arith, pow-suc b)

pow-even : (b : ℕ) → 2 ^ suc b % 2 ≡ 0
pow-even b = omega (arith, pow-suc b)

bit-pow : (b c : ℕ) → bit c (2 ^ b) ≡ (if b == c then 1 else 0)
bit-pow zero zero = refl
bit-pow zero (suc c) = ground (arith, bit-zero c)
bit-pow (suc b) zero = ground (arith, pow-even b)
bit-pow (suc b) (suc c) = ap (bit c) (pow-half b) ∙ bit-pow b c ∙ ground arith

bit-digits_or : (c n w p : ℕ) → w ≤ n → bit c (digits (λ b. b) max n w p) ≡ max (bit c w) (bit c p)
bit-digits_or c zero zero p h = omega (arith, bit-zero c)
bit-digits_or c zero (suc w) p h = absurd (omega arith)
bit-digits_or c (suc n) zero p h = omega (arith, bit-zero c)
bit-digits_or zero (suc n) (suc a) p h = omega arith
bit-digits_or (suc c) (suc n) (suc a) p h =
    ap (bit c) (
      double_half (digits (λ b. b) max n (suc a / 2) (p / 2)) (max (suc a % 2) (p % 2))
        (omega arith))
    ∙ bit-digits_or c n (suc a / 2) (p / 2) (omega arith)

zero_digit : (b : ℕ) → 0 ≡ bit b 0 * 2 ^ b
zero_digit b = rw (bit-zero b) (omega arith)

times_double : (x y : ℕ) → x ≤ 1 → x * (y * 2) ≡ x * y * 2
times_double zero y h = omega arith
times_double (suc zero) y h = omega arith
times_double (suc (suc x)) y h = absurd (omega arith)

pow-pos : (b : ℕ) → 1 ≤ 2 ^ b
pow-pos zero = omega arith
pow-pos (suc b) = omega (arith, pow-suc b, pow-pos b)

test_product : (x y v : ℕ) → x ≤ 1 → 1 ≤ y → v ≡ x * y → not (v == 0) ≡ (x == 1)
test_product zero y v h k e = ground arith
test_product (suc zero) y v h k e = ground arith
test_product (suc (suc x)) y v h k e = absurd (omega arith)

digits_and-pow : (b n w : ℕ) → w ≤ n → digits (λ b. zero) min n w (2 ^ b) ≡ bit b w * 2 ^ b
digits_and-pow b zero zero h = zero_digit b
digits_and-pow b zero (suc w) h = absurd (omega arith)
digits_and-pow b (suc n) zero h = zero_digit b
digits_and-pow zero (suc n) (suc a) h = omega (arith, digits-le n (suc a / 2) 0)
digits_and-pow (suc b) (suc n) (suc a) h =
    ap (λ t. digits (λ b. zero) min n (suc a / 2) t * 2 + min (suc a % 2) (2 ^ suc b % 2))
      (pow-half b)
    ∙ omega (arith, pow-even b, digits_and-pow b n (suc a / 2) (omega arith))
    ∙ sym (times_double (bit b (suc a / 2)) (2 ^ b) (bit-le b (suc a / 2)))
    ∙ ap (λ t. bit b (suc a / 2) * t) (sym (pow-suc b))

pub bit-bit_or_pow : (b c w : ℕ) → bit c (bit_or w (2 ^ b)) ≡ (if b == c then 1 else bit c w)
bit-bit_or_pow b c w =
    ap (bit c) (λ i. bit_or-bitwise w (2 ^ b) i)
    ∙ bit-digits_or c w w (2 ^ b) (omega arith)
    ∙ ap (max (bit c w)) (bit-pow b c)
    ∙ ground (arith, bit-le c w)

-- `w & (1 << b) != 0`
pub test_bit : (b w : ℕ) → not (bit_and w (2 ^ b) == 0) ≡ (bit b w == 1)
test_bit b w =
    let value : bit_and w (2 ^ b) ≡ bit b w * 2 ^ b =
      (λ i. bit_and-bitwise w (2 ^ b) i) ∙ digits_and-pow b w w (omega arith) in
    test_product (bit b w) (2 ^ b) (bit_and w (2 ^ b)) (bit-le b w) (pow-pos b) value
