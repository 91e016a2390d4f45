-- ===== src/Dirsync/Hasher/Parallel.antt =====
-- internal/dirsync/hasher.go: the results of all segments together.
use bons_ci.Base.{
  Str, ℕ, zero, suc, ◌+◌, ◌-◌, ◌*◌, ◌≤◌, ◌<◌, Bool, true, false, ◌&&◌, List, Option, none, some,
  ◌⊎◌, inl, inr, if◌then◌else◌, ◌==◌, ◌≡◌, refl, ◌∙◌, sym, arith,
}
use native.Mathlib.Omega.{div_any}
use native.Mathlib.Nat.{mod-lt}
use bons_ci.Dirsync.Hasher.Files.{File, Verdict}
use bons_ci.Dirsync.Hasher.Segments.{
  compare_segment, run_segments, collect, verdict_of, segment_size, segment_count,
}
use bons_ci.Dirsync.Hasher.Cover.{same_range, same_range-split, IsRange, compare_segment-IsRange}

and_true : (b : Bool) → b ≡ (b && true)
and_true b = ground arith

first_of :
    (r : Option Verdict) (rs : Option (List Verdict)) (v w : Bool)
    → r ≡ some (inr v)
    → verdict_of rs ≡ some (inr w)
    → verdict_of (collect r rs) ≡ some (inr (v && w))
first_of none rs v w h k = ground arith
first_of (some x) none v w h k = ground arith
first_of (some (inl e)) (some xs) v w h k = ground arith
first_of (some (inr true)) (some xs) v w h k = ground arith
first_of (some (inr false)) (some xs) v w h k = ground arith

nothing_left : (a b : Str) (size off : ℕ) → size ≤ off → same_range a b off (size - off) ≡ true
nothing_left a b size off h = let e : size - off ≡ 0 = omega arith in rw e

segment_joined :
    (a b : Str) (size off ln next : ℕ)
    → ((ln ≡ size - off) × (size ≤ next)) ⊎ ((next ≡ off + ln) × (next ≤ size))
    → same_range a b off (size - off) ≡ (same_range a b off ln && same_range a b next (size - next))
segment_joined a b size off ln next (inl (e, h)) =
    rw (e, nothing_left a b size next h) (and_true (same_range a b off (size - off)))
segment_joined a b size off ln next (inr (e, h)) =
    let r : size - off - ln ≡ size - next = omega arith in
    same_range-split a b off ln (size - off) (omega arith) ∙ (rw (sym e, r))

times_suc : (k seg : ℕ) → suc k * seg ≡ seg + k * seg
times_suc k seg = omega arith

pub segment_size-pos : (size workers : ℕ) → 1 ≤ segment_size size workers
segment_size-pos size workers = ground arith

pub segment_count-covers :
    (size seg : ℕ)
    → 1 ≤ seg
    → (size ≤ segment_count size seg * seg) × (segment_count size seg * seg < size + seg)
segment_count-covers size seg h = (
  omega (arith, div_any (size + seg - 1) seg, mod-lt (size + seg - 1) {m = seg} h),
  omega (arith, div_any (size + seg - 1) seg, mod-lt (size + seg - 1) {m = seg} h),
)

module _ (stopped : ℕ → ℕ → Bool) (buf : ℕ) (lf uf : File) (size seg num : ℕ) where
  -- What the segments from a place on may answer together.
  unfoldable pub IsAnswer : Option (List Verdict) → ℕ → Type 0
  IsAnswer rs off =
      (v : Bool) × (verdict_of rs ≡ some (inr v))
      × (v ≡ true → same_range lf.content uf.content off (size - off) ≡ true)
      × (((i p : ℕ) → stopped i p ≡ false) → v ≡ same_range lf.content uf.content off (size - off))

  segment_length : ℕ → ℕ
  segment_length i = if i == num - 1 then size - i * seg else seg

  next_place :
      (i k : ℕ)
      → i + suc k ≡ num
      → size ≤ i * seg + suc k * seg
      → i * seg + suc k * seg < size + seg
      → ((segment_length i ≡ size - i * seg) × (size ≤ suc i * seg))
        ⊎ ((suc i * seg ≡ i * seg + segment_length i) × (suc i * seg ≤ size))
  unfolding segment_length
  next_place i zero e h j = inl (ground arith, omega (arith, times_suc i seg))
  next_place i (suc k) e h j = inr (
    ground (arith, times_suc i seg),
    omega (arith, times_suc i seg, times_suc (suc k) seg, times_suc k seg),
  )

  pub run_segments-IsAnswer :
      (k i : ℕ)
      → 1 ≤ buf
      → i + k ≡ num
      → size ≤ i * seg + k * seg
      → i * seg + k * seg < size + seg
      → IsAnswer (run_segments stopped buf lf uf size seg num k i) (i * seg)
  unfolding IsAnswer IsRange segment_length
  run_segments-IsAnswer zero i b e h j =
      let done = nothing_left lf.content uf.content size (i * seg) (omega arith) in
      (true, refl, λ z. done, λ z. sym done)
  run_segments-IsAnswer (suc k) i b e h j =
      let (v, e1, s1, x1) =
        compare_segment-IsRange (stopped i) buf lf uf (segment_length i + 1) (i * seg)
          (i * seg + segment_length i) (segment_length i) b (omega arith) refl in
      let (w, e2, s2, x2) =
        run_segments-IsAnswer k (suc i) b (omega arith)
          (omega (arith, times_suc i seg, times_suc k seg))
          (omega (arith, times_suc i seg, times_suc k seg)) in
      let joined =
        segment_joined lf.content uf.content size (i * seg) (segment_length i) (suc i * seg)
          (next_place i k e h j) in
      (
        v && w,
        first_of
            (compare_segment (stopped i) buf lf uf (segment_length i + 1) (i * seg)
              (i * seg + segment_length i))
            (run_segments stopped buf lf uf size seg num k (suc i)) v w e1 e2,
        λ z. ground (arith, joined, s1, s2, z),
        λ never. ground (arith, joined, x1 (never i), x2 never),
      )
