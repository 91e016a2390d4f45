-- ===== src/Dirsync/Hasher.antt =====
-- internal/dirsync/hasher.go: are the entries that two trees have at a path equal?
-- A file is what can be read of it and what happens after that. The buffers of the pool are their size.
-- The loops run on fuel; wrapped errors keep the step and the cause.
pub mod Files
pub mod Segments
pub mod Rounds
pub mod Cover
pub mod Parallel
pub mod Laws
use bons_ci.Base.{
  Str, ℕ, ◌+◌, ◌-◌, ◌*◌, Bool, true, false, ◌&&◌, Option, none, some, ◌⊎◌, inl, inr, if◌then◌else◌,
  ◌==◌, ltb, leb, str_eqb, length,
}
use bons_ci.Dirsync.Types.{Mode, CommonPath, directory, regular, symlink, file, link}
use bons_ci.Dirsync.Handlers.{same_mode}
use bons_ci.Dirsync.Hasher.Files.{
  File, Verdict, HashError, open_lower, open_upper, link_lower, link_upper, compare_rounds,
}
use bons_ci.Dirsync.Hasher.Segments.{segment_size, segment_count, run_segments, verdict_of}

-- Of an `fs.FileInfo`: the type, the permissions, the other bits of the mode, the size, the time of the
-- last write, and the device and inode, where the system tells them.
pub record StatInfo : Type 0 where
  pub mode : Mode
  pub perm : ℕ
  pub other_bits : ℕ
  pub size : ℕ
  pub mod_time : ℕ
  pub inode : Option (ℕ × ℕ)

-- `os.Open` and `os.Readlink`, with the number of an error.
pub record Disk : Type 0 where
  pub open_file : Str → ℕ ⊎ File
  pub readlink : Str → ℕ ⊎ Str

-- `TwoPhaseHasher`, its defaults filled in.
pub record Hasher : Type 0 where
  pub buf_size : ℕ
  pub large_file_threshold : ℕ
  pub segment_workers : ℕ

module _ (d : Disk) where
  abbrev pub compare_symlinks : Str → Str → Verdict
  compare_symlinks lower upper = elim (d.readlink lower) [
    | inl e ↦ inl (link_lower e)
    | inr lt ↦ elim (d.readlink upper) [ inl e ↦ inl (link_upper e) | inr ut ↦ inr (str_eqb lt ut) ]
  ]

  -- The two files, opened in order, go to the comparison.
  abbrev pub open_both : Str → Str → (File → File → Option Verdict) → Option Verdict
  open_both lower upper compare = elim (d.open_file lower) [
    | inl e ↦ some (inl (open_lower e))
    | inr lf ↦ elim (d.open_file upper) [
      | inl e ↦ some (inl (open_upper e))
      | inr uf ↦ compare lf uf
    ]
  ]

  abbrev pub compare_contents_sequential : Hasher → Str → Str → Option Verdict
  compare_contents_sequential h lower upper = open_both lower upper (λ lf uf.
      compare_rounds (length lf.content + 1) h.buf_size lf.ending uf.ending lf.content uf.content)

  -- `stopped i pos`: the context is cancelled when the segment of that number is to read at that place.
  abbrev pub compare_contents_parallel : (ℕ → ℕ → Bool) → Hasher → Str → Str → ℕ → Option Verdict
  compare_contents_parallel stopped h lower upper size =
      let seg = segment_size size h.segment_workers in
      let num = segment_count size seg in
      open_both lower upper
        (λ lf uf. verdict_of (run_segments stopped h.buf_size lf uf size seg num num 0))

abbrev pub compare_directories : StatInfo → StatInfo → Bool
compare_directories l u = l.perm == u.perm && l.mod_time == u.mod_time

abbrev pub same_inode : StatInfo → StatInfo → Bool
same_inode l u = elim l.inode [
  | none ↦ false
  | some a ↦ elim u.inode [ none ↦ false | some b ↦ a.0 == b.0 && a.1 == b.1 ]
]

module _ (d : Disk) (stopped : ℕ → ℕ → Bool) (h : Hasher) where
  abbrev pub compare_regular_files : Str → Str → StatInfo → StatInfo → Option Verdict
  compare_regular_files lower upper li ui =
      if same_inode li ui
      then some (inr true)
      else if li.size == ui.size
      then if li.mod_time == ui.mod_time
        then some (inr true)
        else if leb h.large_file_threshold li.size
        then compare_contents_parallel d stopped h lower upper li.size
        else compare_contents_sequential d h lower upper
      else some (inr false)

  -- `Equal`
  abbrev pub equal : Str → Str → StatInfo → StatInfo → Option Verdict
  equal lower upper li ui =
      if same_mode li.mode ui.mode
      then elim li.mode [
        | symlink ↦ some (compare_symlinks d lower upper)
        | directory ↦ some (inr (compare_directories li ui))
        | regular ↦ compare_regular_files lower upper li ui
        | _ ↦ some (inr (li.perm == ui.perm && li.other_bits == ui.other_bits))
      ]
      else some (inr false)
