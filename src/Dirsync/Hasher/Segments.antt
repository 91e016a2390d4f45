-- ===== src/Dirsync/Hasher/Segments.antt =====
-- internal/dirsync/hasher.go: the comparison of two files in segments that run side by side.
use bons_ci.Base.{
  Str, ℕ, zero, suc, ◌+◌, ◌-◌, ◌*◌, ◌/◌, Bool, true, false, not, ◌&&◌, List, [], ◌∷◌, Option, none,
  some, inl, inr, if◌then◌else◌, ◌==◌, ltb, str_eqb, length, take, drop,
}
use bons_ci.Dirsync.Hasher.Files.{
  File, at_end, fault, ReadError, eof, io_error, Verdict, read_lower, read_upper,
}

abbrev pub min_segment_size : ℕ
min_segment_size = 262144

abbrev pub segment_size : ℕ → ℕ → ℕ
segment_size size workers =
    let s = size / workers in if ltb s min_segment_size then min_segment_size else s

abbrev pub segment_count : ℕ → ℕ → ℕ
segment_count size seg = (size + seg - 1) / seg

-- `os.File.ReadAt`: an error comes with fewer bytes than were asked for, and only then.
abbrev pub read_at : File → ℕ → ℕ → Str × Option ReadError
read_at f n pos =
    let c = take n (drop pos f.content) in
    (
      c,
      if length c == n
          then none
          else elim f.ending [ at_end ↦ some eof | fault k ↦ some (io_error k) ],
    )

-- The loop of `compareSegment`; `stopped` tells when the context is cancelled.
module _ (stopped : ℕ → Bool) (buf : ℕ) (lf uf : File) where
  abbrev pub compare_segment : ℕ → ℕ → ℕ → Option Verdict
  compare_segment zero pos end = none
  compare_segment (suc fuel) pos end =
      let remaining = end - pos in
      let n = if ltb remaining buf then remaining else buf in
      let (lc, lerr) = read_at lf n pos in
      let (uc, uerr) = read_at uf n pos in
      let rest = compare_segment fuel (pos + length lc) end in
      if not (ltb pos end)
      then some (inr true)
      else if stopped pos
      then some (inr false)
      else if not (length lc == length uc && str_eqb lc uc)
      then some (inr false)
      else if ltb (length lc) n
      then some (inr true)
      else elim lerr [
        | some (io_error c) ↦ some (inl (read_lower c))
        | _ ↦ elim uerr [ some (io_error c) ↦ some (inl (read_upper c)) | _ ↦ rest ]
      ]

abbrev pub collect : Option Verdict → Option (List Verdict) → Option (List Verdict)
collect (some v) (some vs) = some (v ∷ vs)
collect _ _ = none

-- The results of the segments from a number on, so many of them.
abbrev pub run_segments :
    (ℕ → ℕ → Bool) → ℕ → File → File → ℕ → ℕ → ℕ → ℕ → ℕ → Option (List Verdict)
run_segments stopped buf lf uf size seg num zero i = some []
run_segments stopped buf lf uf size seg num (suc k) i =
    let off = i * seg in
    let ln = if i == num - 1 then size - off else seg in
    let r = compare_segment (stopped i) buf lf uf (ln + 1) off (off + ln) in
    let rest = run_segments stopped buf lf uf size seg num k (suc i) in collect r rest

-- The answer: the first result, in the order of the segments, that is not a plain yes.
abbrev pub first_verdict : List Verdict → Verdict
first_verdict [] = inr true
first_verdict (inl e ∷ rs) = inl e
first_verdict (inr false ∷ rs) = inr false
first_verdict (inr true ∷ rs) = first_verdict rs

abbrev pub verdict_of : Option (List Verdict) → Option Verdict
verdict_of none = none
verdict_of (some rs) = some (first_verdict rs)
