-- ===== src/Dirsync/Tests/Hashes.antt =====
-- Runs of the comparisons of internal/dirsync/hasher.go and the theorems at concrete files.
use bons_ci.Base.{
  Str, ℕ, ◌≤◌, true, false, [], ◌∷◌, none, some, ◌⊎◌, inl, inr, ◌≡◌, refl, arith, str_eqb, take,
  ◌==◌, if◌then◌else◌,
}
use bons_ci.Dirsync.Types.{regular, symlink}
use bons_ci.Dirsync.Hasher.{
  Disk, Hasher, StatInfo, equal, compare_regular_files, compare_contents_sequential,
  compare_contents_parallel,
}
use bons_ci.Dirsync.Hasher.Files.{File, at_end, fault, read_lower, open_upper}
use bons_ci.Dirsync.Hasher.Laws.{
  compare_contents_parallel_sound, compare_regular_files_lem, faults_taken_as_equal,
}

abbrev short_file : File
short_file = record { content = 1 ∷ 2 ∷ 3 ∷ []; ending = at_end }

abbrev changed_file : File
changed_file = record { content = 1 ∷ 2 ∷ 4 ∷ []; ending = at_end }

abbrev broken_file : ℕ → File
broken_file c = record { content = 1 ∷ 2 ∷ 3 ∷ []; ending = fault c }

-- The paths are those of one byte; the others do not exist.
abbrev open_at : Str → ℕ ⊎ File
open_at p =
    if str_eqb p (1 ∷ [])
    then inr short_file
    else if str_eqb p (2 ∷ [])
    then inr changed_file
    else if str_eqb p (3 ∷ [])
    then inr (broken_file 5)
    else if str_eqb p (4 ∷ [])
    then inr (broken_file 6)
    else inl 2

abbrev disk : Disk
disk = record { open_file = open_at; readlink = λ p. inr p }

abbrev hasher : Hasher
hasher = record { buf_size = 2; large_file_threshold = 3; segment_workers = 4 }

abbrev stat : ℕ → StatInfo
stat t = record { mode = regular; perm = 420; other_bits = 0; size = 3; mod_time = t; inode = none }

abbrev link_stat : StatInfo
link_stat = record {
  mode = symlink;
  perm = 511;
  other_bits = 0;
  size = 1;
  mod_time = 0;
  inode = none;
}

changed_found :
    equal disk (λ i p. false) hasher (1 ∷ []) (2 ∷ []) (stat 7) (stat 8) ≡ some (inr false)
changed_found = refl

missing_upper :
    equal disk (λ i p. false) hasher (1 ∷ []) (9 ∷ []) (stat 7) (stat 8) ≡ some (inl (open_upper 2))
missing_upper = refl

same_time_trusted :
    equal disk (λ i p. false) hasher (1 ∷ []) (2 ∷ []) (stat 7) (stat 7) ≡ some (inr true)
same_time_trusted = refl

links_differ :
    equal disk (λ i p. false) hasher (1 ∷ []) (2 ∷ []) link_stat link_stat ≡ some (inr false)
links_differ = refl

buffer_pos : 1 ≤ hasher.buf_size
buffer_pos = omega arith

failing_reads :
    compare_contents_sequential disk hasher (3 ∷ []) (4 ∷ []) ≡ some (inl (read_lower 5))
failing_reads = refl

compare_contents_parallel_sound_example :
    str_eqb (take 3 (1 ∷ 2 ∷ 3 ∷ [])) (take 3 (1 ∷ 2 ∷ 3 ∷ [])) ≡ true
compare_contents_parallel_sound_example =
    compare_contents_parallel_sound disk hasher (1 ∷ []) (1 ∷ []) short_file short_file buffer_pos
      refl refl (λ i p. i == 1) 3 refl

faults_taken_as_equal_example :
    (compare_contents_sequential disk hasher (3 ∷ []) (4 ∷ []) ≡ some (inl (read_lower 5)))
    × (compare_contents_parallel disk (λ i p. false) hasher (3 ∷ []) (4 ∷ []) 9 ≡ some (inr true))
faults_taken_as_equal_example =
    faults_taken_as_equal disk hasher (3 ∷ []) (4 ∷ []) (broken_file 5) (broken_file 6) buffer_pos
      refl refl (λ i p. false) 9 5 6 (λ i p. refl) refl refl refl

compare_regular_files_lem_example :
    compare_regular_files disk (λ i p. true) hasher (1 ∷ []) (2 ∷ []) (stat 7) (stat 8)
    ≡ some (inr false)
compare_regular_files_lem_example =
    compare_regular_files_lem disk hasher (1 ∷ []) (2 ∷ []) short_file changed_file buffer_pos refl
      refl (λ i p. true) (stat 7) (stat 8) (λ e i p. absurd (ground (arith, e))) refl refl refl refl
