-- ===== src/Dirsync/Hasher/Laws.antt =====
-- internal/dirsync/hasher.go: what the comparisons of two entries answer.
use bons_ci.Base.{
  Str, ℕ, ◌+◌, ◌-◌, ◌*◌, ◌≤◌, Bool, true, false, [], ◌∷◌, Option, some, inl, inr, if◌then◌else◌,
  ◌==◌, ◌||◌, ◌&&◌, str_eqb, length, take, ◌≡◌, refl, ap, ◌∙◌, sym, arith, Bool-cases,
}
use bons_ci.Dirsync.Hasher.{
  Disk, Hasher, StatInfo, same_inode, compare_regular_files, compare_contents_sequential,
  compare_contents_parallel, open_both,
}
use bons_ci.Dirsync.Hasher.Files.{File, at_end, fault, read_lower, Verdict, compare_rounds}
use bons_ci.Dirsync.Hasher.Segments.{segment_size, segment_count, run_segments, verdict_of}
use bons_ci.Dirsync.Hasher.Rounds.{compare_rounds_lem, ending_verdict}
use bons_ci.Dirsync.Hasher.Cover.{same_range, str_eqb_refl}
use bons_ci.Dirsync.Hasher.Parallel.{
  IsAnswer, run_segments-IsAnswer, segment_size-pos, segment_count-covers,
}

take_all : (s : Str) → take (length s) s ≡ s
take_all [] = refl
take_all (x ∷ s) = ap (x ∷◌) (take_all s)

yes_or_no :
    (b : Bool) → ◌≡◌ {A = Option Verdict} (some (if b then inr true else inr false)) (some (inr b))
yes_or_no true = refl
yes_or_no false = refl

module _ (d : Disk) (h : Hasher) (lower upper : Str) (lf uf : File) (buf_pos : 1 ≤ h.buf_size)
    (opened_lower : d.open_file lower ≡ inr lf) (opened_upper : d.open_file upper ≡ inr uf) where
  open_both_lem :
      (compare : File → File → Option Verdict) → open_both d lower upper compare ≡ compare lf uf
  open_both_lem compare = ground (arith, opened_lower, opened_upper)

  -- With a buffer that is not empty, the sequential comparison of two files that open answers no for different
  -- contents; for equal contents it answers yes if both files end there, gives the error if the reads of
  -- both fail there, and answers no if one of them ends.
  compare_contents_sequential_lem :
      compare_contents_sequential d h lower upper
      ≡ some
          (if str_eqb lf.content uf.content then ending_verdict lf.ending uf.ending else inr false)
  compare_contents_sequential_lem =
      open_both_lem (λ l u.
        compare_rounds (length l.content + 1) h.buf_size l.ending u.ending l.content u.content)
      ∙ (compare_rounds_lem (length lf.content + 1) h.buf_size lf.ending uf.ending lf.content
          uf.content buf_pos (omega arith))

  whole_run :
      (stopped : ℕ → ℕ → Bool) (size : ℕ)
      → let seg = segment_size size h.segment_workers in
        let num = segment_count size seg in
        IsAnswer stopped h.buf_size lf uf size seg num
          (run_segments stopped h.buf_size lf uf size seg num num 0)
          (0 * seg)
  whole_run stopped size =
      let seg = segment_size size h.segment_workers in
      let num = segment_count size seg in
      let c = segment_count-covers size seg (segment_size-pos size h.segment_workers) in
      run_segments-IsAnswer stopped h.buf_size lf uf size seg num num 0 buf_pos (omega arith)
        (omega (arith, c.0)) (omega (arith, c.1))

  parallel_run :
      (stopped : ℕ → ℕ → Bool) (size : ℕ)
      → let seg = segment_size size h.segment_workers in
        let num = segment_count size seg in
        compare_contents_parallel d stopped h lower upper size
        ≡ verdict_of (run_segments stopped h.buf_size lf uf size seg num num 0)
  parallel_run stopped size =
      let seg = segment_size size h.segment_workers in
      let num = segment_count size seg in
      open_both_lem (λ l u. verdict_of (run_segments stopped h.buf_size l u size seg num num 0))

  from_start :
      (size : ℕ)
      → let start = 0 * segment_size size h.segment_workers in
        same_range lf.content uf.content start (size - start)
        ≡ str_eqb (take size lf.content) (take size uf.content)
  from_start size =
      let start = 0 * segment_size size h.segment_workers in
      let z : start ≡ 0 = omega arith in let r : size - start ≡ size = omega arith in rw (r, z)

  -- With a buffer that is not empty and no cancellation, the parallel comparison of two files that open answers,
  -- for every number of workers, if their first bytes up to the size are equal. However the reads end, it
  -- gives no error.
  compare_contents_parallel_lem :
      (stopped : ℕ → ℕ → Bool) (size : ℕ)
      → ((i p : ℕ) → stopped i p ≡ false)
      → compare_contents_parallel d stopped h lower upper size
        ≡ some (inr (str_eqb (take size lf.content) (take size uf.content)))
  unfolding IsAnswer
  compare_contents_parallel_lem stopped size never =
      let (v, e, sound, exact) = whole_run stopped size in
      parallel_run stopped size ∙ e ∙ ap (λ b. some (inr b)) (exact never ∙ from_start size)

  -- Whatever segments are cancelled at whatever places, two files that open and that the parallel comparison,
  -- with a buffer that is not empty, takes as equal have the same first bytes up to the size.
  pub compare_contents_parallel_sound :
      (stopped : ℕ → ℕ → Bool) (size : ℕ)
      → compare_contents_parallel d stopped h lower upper size ≡ some (inr true)
      → str_eqb (take size lf.content) (take size uf.content) ≡ true
  unfolding IsAnswer
  compare_contents_parallel_sound stopped size answer =
      let (v, e, sound, exact) = whole_run stopped size in
      let q : some (inr v) ≡ some (inr true) = sym (parallel_run stopped size ∙ e) ∙ answer in
      sym (from_start size) ∙ sound (ground (arith, q))

  -- Where two files open and have the same content, and the reads of both fail after its last byte, the
  -- sequential comparison gives the error of the lower file, and the parallel one, not cancelled, takes the
  -- files as equal, for every size. The buffer is not empty.
  pub faults_taken_as_equal :
      (stopped : ℕ → ℕ → Bool) (size c e : ℕ)
      → ((i p : ℕ) → stopped i p ≡ false)
      → uf.content ≡ lf.content
      → lf.ending ≡ fault c
      → uf.ending ≡ fault e
      → (compare_contents_sequential d h lower upper ≡ some (inl (read_lower c)))
        × (compare_contents_parallel d stopped h lower upper size ≡ some (inr true))
  faults_taken_as_equal stopped size c e never k l u = (
    compare_contents_sequential_lem ∙ (rw (k, l, u, str_eqb_refl lf.content)),
    compare_contents_parallel_lem stopped size never
        ∙ (rw (k, str_eqb_refl (take size lf.content))),
  )

  sequential_exact :
      lf.ending ≡ at_end
      → uf.ending ≡ at_end
      → compare_contents_sequential d h lower upper ≡ some (inr (str_eqb lf.content uf.content))
  sequential_exact l u =
      compare_contents_sequential_lem ∙ (rw (l, u) (yes_or_no (str_eqb lf.content uf.content)))

  -- A verdict that is no error is the right one, if only different contents stop a segment.
  verdict_exact : (v same : Bool) → (v ≡ true → same ≡ true) → (same ≡ true → v ≡ same) → v ≡ same
  verdict_exact true same sound exact = sym (sound refl)
  verdict_exact false true sound exact = exact refl
  verdict_exact false false sound exact = refl

  parallel_exact :
      (stopped : ℕ → ℕ → Bool) (size : ℕ)
      → (str_eqb lf.content uf.content ≡ true → (i p : ℕ) → stopped i p ≡ false)
      → length lf.content ≡ size
      → length uf.content ≡ size
      → compare_contents_parallel d stopped h lower upper size
        ≡ some (inr (str_eqb lf.content uf.content))
  unfolding IsAnswer
  parallel_exact stopped size only l u =
      let a : take size lf.content ≡ lf.content =
        ap (λ k. take k lf.content) (sym l) ∙ take_all lf.content in
      let b : take size uf.content ≡ uf.content =
        ap (λ k. take k uf.content) (sym u) ∙ take_all uf.content in
      let (v, e, sound, exact) = whole_run stopped size in
      let same = from_start size ∙ (rw (a, b)) in
      parallel_run stopped size
      ∙ e
      ∙ ap (λ x. some (inr x))
          (verdict_exact v (str_eqb lf.content uf.content) (λ t. sym same ∙ sound t)
            (λ t. exact (only t) ∙ same))

  tiers_agree :
      (stopped : ℕ → ℕ → Bool) (li ui : StatInfo)
      → (li.size == ui.size) ≡ true
      → compare_contents_sequential d h lower upper ≡ some (inr (str_eqb lf.content uf.content))
      → compare_contents_parallel d stopped h lower upper li.size
        ≡ some (inr (str_eqb lf.content uf.content))
      → compare_regular_files d stopped h lower upper li ui
        ≡ some (
            inr (
              same_inode li ui
              || li.size == ui.size
                && (li.mod_time == ui.mod_time || str_eqb lf.content uf.content)))
  tiers_agree stopped li ui z s p = ground (arith, z, s, p)

  -- With a buffer that is not empty, two regular files that open, end without an error and are as long as their
  -- infos say compare as equal exactly if they are one inode, or have one size and either one time of writing or one
  -- content, whatever the threshold and the number of workers, and whatever segments are cancelled at whatever
  -- places as long as files of one content have none cancelled.
  pub compare_regular_files_lem :
      (stopped : ℕ → ℕ → Bool) (li ui : StatInfo)
      → (str_eqb lf.content uf.content ≡ true → (i p : ℕ) → stopped i p ≡ false)
      → length lf.content ≡ li.size
      → length uf.content ≡ ui.size
      → lf.ending ≡ at_end
      → uf.ending ≡ at_end
      → compare_regular_files d stopped h lower upper li ui
        ≡ some (
            inr (
              same_inode li ui
              || li.size == ui.size
                && (li.mod_time == ui.mod_time || str_eqb lf.content uf.content)))
  compare_regular_files_lem stopped li ui only l u le ue = elim (Bool-cases (li.size == ui.size)) [
    | inr n ↦ ground (arith, n)
    | inl z ↦
        let s = sequential_exact le ue in
        let p = parallel_exact stopped li.size only l (ground (arith, z, u)) in
        tiers_agree stopped li ui z s p
  ]
