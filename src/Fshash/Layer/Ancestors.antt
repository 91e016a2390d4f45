-- ===== src/Fshash/Layer/Ancestors.antt =====
-- pkg/fshash/layer/resolver.go: the loop of `IsFileVisible` over the directories above a path.
pub mod Above
use bons_ci.Base.{
  Str, str_eqb, ℕ, zero, suc, ◌≤◌, ◌<◌, Bool, true, false, [], ◌∷◌, Option, none, some,
  if◌then◌else◌, length, ◌≡◌, refl, arith, ◌==◌, Option-cases, inl, inr,
}

-- The search from the end of a path for its last slash: what stands before it.
unfoldable pub before_last_slash : Str → Option Str
before_last_slash [] = none
before_last_slash (c ∷ s) = elim (before_last_slash s) [
  | some p ↦ some (c ∷ p)
  | none ↦ if c == b'/' then some [] else none
]

abbrev pub root : Str
root = b'/' ∷ []

-- The directory before the last slash; the root where nothing stands before it.
abbrev pub dir_before : Str → Str
dir_before [] = root
dir_before (c ∷ p) = c ∷ p

-- Whether the loop meets a directory that the test holds of, from the path upwards.
unfoldable pub any_ancestor : (Str → Bool) → ℕ → Str → Bool
unfolding before_last_slash
any_ancestor test zero path = false
any_ancestor test (suc fuel) path = elim (before_last_slash path) [
  | none ↦ false
  | some p ↦
      let dir = dir_before p in
      let rest = any_ancestor test fuel dir in
      if test dir then true else if str_eqb dir root then false else rest
]

-- Each round shortens the path, but for the last.
pub before_last_slash-lt : (s p : Str) → before_last_slash s ≡ some p → length p < length s
unfolding before_last_slash
before_last_slash-lt [] p h = absurd (ground arith)
before_last_slash-lt (c ∷ s) p h = elim (Option-cases (before_last_slash s)) [
  | inl n ↦ ground arith
  | inr (q, e) ↦ ground (arith, before_last_slash-lt s q e)
]

-- Fuel beyond the length of the path changes nothing: the loop ends within it.
pub any_ancestor-fuel :
    (test : Str → Bool) (n m : ℕ) (path : Str)
    → length path ≤ n
    → length path ≤ m
    → any_ancestor test n path ≡ any_ancestor test m path
unfolding any_ancestor
any_ancestor-fuel test zero zero path h k = refl
any_ancestor-fuel test zero (suc m) [] h k = refl
any_ancestor-fuel test zero (suc m) (c ∷ s) h k = absurd (omega arith)
any_ancestor-fuel test (suc n) zero [] h k = refl
any_ancestor-fuel test (suc n) zero (c ∷ s) h k = absurd (omega arith)
any_ancestor-fuel test (suc n) (suc m) path h k = elim (Option-cases (before_last_slash path)) [
  | inl e ↦ rw (e, any_ancestor)
  | inr ([], e) ↦ rw (e, any_ancestor)
  | inr (c ∷ p, e) ↦
      let shorter = before_last_slash-lt path (c ∷ p) e in
      rw (e, any_ancestor, any_ancestor-fuel test n m (c ∷ p) (omega arith) (omega arith))
]
