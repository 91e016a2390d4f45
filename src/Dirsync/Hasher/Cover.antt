-- ===== src/Dirsync/Hasher/Cover.antt =====
-- internal/dirsync/hasher.go: the segments of the parallel comparison cover the files.
use bons_ci.Base.{
  Str, ℕ, zero, suc, ◌+◌, ◌-◌, ◌≤◌, ◌<◌, Bool, true, false, ◌&&◌, [], ◌∷◌, Option, some, ◌⊎◌, inl,
  inr, if◌then◌else◌, ltb, ltb→lt, str_eqb, length, take, drop, ◌≡◌, refl, ap, ◌∙◌, sym, arith,
  Bool-cases,
}
use bons_ci.Dirsync.Hasher.Files.{File, Verdict}
use bons_ci.Dirsync.Hasher.Segments.{compare_segment}
use bons_ci.Dirsync.Hasher.Rounds.{str_eqb-split, str_eqb-length, short_equal, length-take_le}

-- The bytes of two contents from a place on, so many of them, are equal.
abbrev pub same_range : Str → Str → ℕ → ℕ → Bool
same_range a b pos n = str_eqb (take n (drop pos a)) (take n (drop pos b))

pub str_eqb_refl : (s : Str) → str_eqb s s ≡ true
str_eqb_refl [] = refl
str_eqb_refl (x ∷ s) = ground (arith, str_eqb_refl s)

minus_zero : (k : ℕ) → k - 0 ≡ k
minus_zero k = omega arith

minus_suc : (k n : ℕ) → suc k - suc n ≡ k - n
minus_suc k n = omega arith

plus_suc : (m n : ℕ) → suc m + n ≡ suc (m + n)
plus_suc m n = omega arith

range_split :
    (n k : ℕ) (a b : Str)
    → n ≤ k
    → str_eqb (take k a) (take k b) ≡ (
        str_eqb (take n a) (take n b)
        && str_eqb (take (k - n) (drop n a)) (take (k - n) (drop n b)))
range_split zero k a b h = rw (minus_zero k)
range_split (suc n) zero a b h = ground arith
range_split (suc n) (suc k) [] [] h = sym (str_eqb_refl (take (suc k - suc n) []))
range_split (suc n) (suc k) [] (y ∷ b) h = refl
range_split (suc n) (suc k) (x ∷ a) [] h = refl
range_split (suc n) (suc k) (x ∷ a) (y ∷ b) h =
    ground (arith, minus_suc k n, range_split n k a b (omega arith))

drop_nil : (n : ℕ) → drop {A = ℕ} n [] ≡ []
drop_nil zero = refl
drop_nil (suc n) = refl

drop-drop : (n m : ℕ) (s : Str) → drop n (drop m s) ≡ drop (m + n) s
drop-drop n zero s = ap (λ k. drop k s) (omega arith)
drop-drop n (suc m) [] = rw (drop_nil n, drop_nil (suc m + n))
drop-drop n (suc m) (x ∷ s) = rw (plus_suc m n, drop-drop n m s)

pub same_range-split :
    (a b : Str) (pos n k : ℕ)
    → n ≤ k
    → same_range a b pos k ≡ (same_range a b pos n && same_range a b (pos + n) (k - n))
same_range-split a b pos n k h =
    range_split n k (drop pos a) (drop pos b) h ∙ rw (drop-drop n pos a, drop-drop n pos b)

taken : (n : ℕ) (a b : Str) → str_eqb a b ≡ true → str_eqb (take n a) (take n b) ≡ true
taken n a b h = ground (arith, str_eqb-split n a b)

module _ (stopped : ℕ → Bool) (buf : ℕ) (lf uf : File) where
  -- What a run of the segment may answer.
  unfoldable pub IsRange : Option Verdict → ℕ → ℕ → Type 0
  IsRange r pos n =
      (v : Bool) × (r ≡ some (inr v))
      × (v ≡ true → same_range lf.content uf.content pos n ≡ true)
      × (((p : ℕ) → stopped p ≡ false) → v ≡ same_range lf.content uf.content pos n)

  chunk : ℕ → ℕ
  chunk n = if ltb n buf then n else buf

  chunk_le : (n : ℕ) → chunk n ≤ n
  unfolding chunk
  chunk_le n = ground arith

  chunk_pos : (n : ℕ) → 1 ≤ buf → 1 ≤ n → 1 ≤ chunk n
  unfolding chunk
  chunk_pos n b h = ground arith

  chunk-cases :
      (pos n : ℕ)
      → ((same_range lf.content uf.content pos (chunk n) ≡ false)
          ⊎ (length (take (chunk n) (drop pos lf.content)) < chunk n))
        ⊎ ((same_range lf.content uf.content pos (chunk n) ≡ true)
            × (length (take (chunk n) (drop pos lf.content)) ≡ chunk n))
  chunk-cases pos n =
      let c = length (take (chunk n) (drop pos lf.content)) in
      elim (Bool-cases (same_range lf.content uf.content pos (chunk n))) [
        | inr r ↦ inl (inl r)
        | inl r ↦ elim (Bool-cases (ltb c (chunk n))) [
          | inl f ↦ inl (inr (ltb→lt c (chunk n) f))
          | inr f ↦ inr (r, ground (arith, f, length-take_le (chunk n) (drop pos lf.content)))
        ]
      ]

  segment_rest :
      (fuel pos end n : ℕ)
      → 1 ≤ n
      → end ≡ pos + n
      → end - pos ≡ n
      → stopped pos ≡ false
      → same_range lf.content uf.content pos (chunk n) ≡ true
      → length (take (chunk n) (drop pos lf.content)) ≡ chunk n
      → compare_segment stopped buf lf uf (suc fuel) pos end
        ≡ compare_segment stopped buf lf uf fuel (pos + chunk n) end
  unfolding chunk
  segment_rest fuel pos end n b e d s r f = ground (
    arith,
    str_eqb-length (take (chunk n) (drop pos lf.content)) (take (chunk n) (drop pos uf.content)) r,
  )

  none_left :
      (fuel pos end : ℕ)
      → end ≡ pos + 0
      → compare_segment stopped buf lf uf (suc fuel) pos end ≡ some (inr true)
  none_left fuel pos end e = ground arith

  stopped_here :
      (fuel pos end n : ℕ)
      → end ≡ pos + n
      → stopped pos ≡ true
      → 1 ≤ n
      → compare_segment stopped buf lf uf (suc fuel) pos end ≡ some (inr false)
  stopped_here fuel pos end n e s b = ground arith

  segment_ends :
      (fuel pos end n : ℕ)
      → end ≡ pos + n
      → end - pos ≡ n
      → stopped pos ≡ false
      → (same_range lf.content uf.content pos (chunk n) ≡ false)
        ⊎ (length (take (chunk n) (drop pos lf.content)) < chunk n)
      → 1 ≤ n
      → compare_segment stopped buf lf uf (suc fuel) pos end
        ≡ some (inr (same_range lf.content uf.content pos (chunk n)))
  unfolding chunk
  segment_ends fuel pos end n e d s (inl r) b = ground (arith, r)
  segment_ends fuel pos end n e d s (inr f) b =
      elim (Bool-cases (same_range lf.content uf.content pos (chunk n))) [
        | inl r ↦ ground (
          arith,
          r,
          str_eqb-length (take (chunk n) (drop pos lf.content))
              (take (chunk n) (drop pos uf.content)) r,
        )
        | inr r ↦ ground (arith, r)
      ]

  -- A chunk that is short or differs decides for the whole range.
  range_decided :
      (pos n : ℕ)
      → 1 ≤ n
      → (same_range lf.content uf.content pos (chunk n) ≡ false)
        ⊎ (length (take (chunk n) (drop pos lf.content)) < chunk n)
      → same_range lf.content uf.content pos (chunk n) ≡ same_range lf.content uf.content pos n
  range_decided pos n b (inl r) =
      ground (arith, r, same_range-split lf.content uf.content pos (chunk n) n (chunk_le n))
  range_decided pos n b (inr f) =
      let split = same_range-split lf.content uf.content pos (chunk n) n (chunk_le n) in
      elim (Bool-cases (same_range lf.content uf.content pos (chunk n))) [
        | inr r ↦ ground (arith, r, split)
        | inl r ↦
            r
            ∙ sym (
                taken n (drop pos lf.content) (drop pos uf.content)
                  (short_equal (chunk n) (drop pos lf.content) (drop pos uf.content) r f))
      ]

  pub compare_segment-IsRange :
      (fuel pos end n : ℕ)
      → 1 ≤ buf
      → n < fuel
      → end ≡ pos + n
      → IsRange (compare_segment stopped buf lf uf fuel pos end) pos n
  unfolding IsRange
  compare_segment-IsRange zero pos end n b h e = absurd (omega arith)
  compare_segment-IsRange (suc fuel) pos end zero b h e =
      (true, none_left fuel pos end e, λ z. refl, λ z. refl)
  compare_segment-IsRange (suc fuel) pos end (suc n) b h e = elim (Bool-cases (stopped pos)) [
    | inl s ↦ (
      false,
      stopped_here fuel pos end (suc n) e s (omega arith),
      λ z. absurd (ground (arith, z)),
      λ never. absurd (ground (arith, never pos)),
    )
    | inr s ↦ elim (chunk-cases pos (suc n)) [
      | inl c ↦ (
        same_range lf.content uf.content pos (chunk (suc n)),
        segment_ends fuel pos end (suc n) e (omega arith) s c (omega arith),
        λ z. sym (range_decided pos (suc n) (omega arith) c) ∙ z,
        λ z. range_decided pos (suc n) (omega arith) c,
      )
      | inr (r, f) ↦
          let (v, eq, sound, exact) =
            compare_segment-IsRange fuel (pos + chunk (suc n)) end (suc n - chunk (suc n)) b
              (omega (arith, chunk_pos (suc n) b (omega arith), chunk_le (suc n)))
              (omega (arith, chunk_le (suc n))) in
          let split =
            same_range-split lf.content uf.content pos (chunk (suc n)) (suc n) (chunk_le (suc n)) in
          (
            v,
            segment_rest fuel pos end (suc n) (omega arith) e (omega arith) s r f ∙ eq,
            λ z. ground (arith, split, r, sound z),
            λ never. ground (arith, split, r, exact never),
          )
    ]
  ]
