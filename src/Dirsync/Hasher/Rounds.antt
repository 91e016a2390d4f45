-- ===== src/Dirsync/Hasher/Rounds.antt =====
-- internal/dirsync/hasher.go: the sequential comparison, over all contents and endings.
use bons_ci.Base.{
  Str, ℕ, zero, suc, ◌+◌, ◌≤◌, ◌<◌, true, false, ◌&&◌, [], ◌∷◌, some, inl, inr, if◌then◌else◌, ◌==◌,
  str_eqb, length, take, drop, ◌≡◌, refl, arith, Bool-cases,
}
use bons_ci.Dirsync.Hasher.Files.{Ending, at_end, fault, Verdict, read_lower, compare_rounds}

pub str_eqb-length : (a b : Str) → str_eqb a b ≡ true → length a ≡ length b
str_eqb-length [] [] h = refl
str_eqb-length [] (y ∷ b) h = ground arith
str_eqb-length (x ∷ a) [] h = ground arith
str_eqb-length (x ∷ a) (y ∷ b) h = ground (arith, str_eqb-length a b)

pub str_eqb-split :
    (n : ℕ) (a b : Str)
    → str_eqb a b ≡ (str_eqb (take n a) (take n b) && str_eqb (drop n a) (drop n b))
str_eqb-split zero a b = refl
str_eqb-split (suc n) [] [] = refl
str_eqb-split (suc n) [] (y ∷ b) = refl
str_eqb-split (suc n) (x ∷ a) [] = refl
str_eqb-split (suc n) (x ∷ a) (y ∷ b) = ground (arith, str_eqb-split n a b)

length-take-drop : (n : ℕ) (s : Str) → length (take n s) + length (drop n s) ≡ length s
length-take-drop zero s = omega arith
length-take-drop (suc n) [] = refl
length-take-drop (suc n) (x ∷ s) = omega (arith, length-take-drop n s)

pub length-take_le : (n : ℕ) (s : Str) → length (take n s) ≤ n
length-take_le zero s = omega arith
length-take_le (suc n) [] = omega arith
length-take_le (suc n) (x ∷ s) = omega (arith, length-take_le n s)

short_drop : (n : ℕ) (s : Str) → length (take n s) < n → drop n s ≡ []
short_drop zero s h = ground arith
short_drop (suc n) [] h = refl
short_drop (suc n) (x ∷ s) h = short_drop n s (omega arith)

left_after :
    (n : ℕ) (s : Str) (fuel : ℕ)
    → 1 ≤ n
    → (length (take n s) == n) ≡ true
    → length s < suc fuel
    → length (drop n s) < fuel
left_after n s fuel b f h = ground (arith, length-take-drop n s)

-- What follows from two equal contents, by the ways in which the files end.
abbrev pub ending_verdict : Ending → Ending → Verdict
ending_verdict at_end at_end = inr true
ending_verdict at_end (fault c) = inr false
ending_verdict (fault c) at_end = inr false
ending_verdict (fault c) (fault d) = inl (read_lower c)

-- Two contents whose last parts are equal are equal.
pub short_equal :
    (n : ℕ) (a b : Str)
    → str_eqb (take n a) (take n b) ≡ true
    → length (take n a) < n
    → str_eqb a b ≡ true
short_equal zero a b e f = ground arith
short_equal (suc n) [] [] e f = refl
short_equal (suc n) [] (y ∷ b) e f = ground arith
short_equal (suc n) (x ∷ a) [] e f = ground arith
short_equal (suc n) (x ∷ a) (y ∷ b) e f = ground (arith, short_equal n a b)

short_round :
    (fuel buf : ℕ) (le ue : Ending) (ls us : Str)
    → str_eqb (take buf ls) (take buf us) ≡ true
    → (length (take buf ls) == buf) ≡ false
    → str_eqb ls us ≡ true
    → compare_rounds (suc fuel) buf le ue ls us ≡ some (ending_verdict le ue)
short_round fuel buf at_end at_end ls us e f g =
    ground (arith, e, f, str_eqb-length (take buf ls) (take buf us) e)
short_round fuel buf at_end (fault d) ls us e f g =
    ground (arith, e, f, str_eqb-length (take buf ls) (take buf us) e)
short_round fuel buf (fault c) at_end ls us e f g =
    ground (arith, e, f, str_eqb-length (take buf ls) (take buf us) e)
short_round fuel buf (fault c) (fault d) ls us e f g =
    ground (arith, e, f, str_eqb-length (take buf ls) (take buf us) e)

pub compare_rounds_lem :
    (fuel buf : ℕ) (le ue : Ending) (ls us : Str)
    → 1 ≤ buf
    → length ls < fuel
    → compare_rounds fuel buf le ue ls us
      ≡ some (if str_eqb ls us then ending_verdict le ue else inr false)
compare_rounds_lem zero buf le ue ls us b h = ground arith
compare_rounds_lem (suc fuel) buf le ue ls us b h =
    elim (Bool-cases (str_eqb (take buf ls) (take buf us))) [
      | inr e ↦ ground (arith, e, str_eqb-split buf ls us)
      | inl e ↦ elim (Bool-cases (length (take buf ls) == buf)) [
        | inl f ↦ ground (
          arith,
          e,
          f,
          str_eqb-split buf ls us,
          str_eqb-length (take buf ls) (take buf us) e,
          compare_rounds_lem fuel buf le ue (drop buf ls) (drop buf us) b
              (left_after buf ls fuel b f h),
        )
        | inr f ↦
            let whole = short_equal buf ls us e (ground (arith, length-take_le buf ls)) in
            rw (short_round fuel buf le ue ls us e f whole, whole)
      ]
    ]
