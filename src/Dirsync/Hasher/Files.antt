-- ===== src/Dirsync/Hasher/Files.antt =====
-- internal/dirsync/hasher.go: files as they are read, and the sequential comparison.
use bons_ci.Base.{
  Str, ℕ, zero, suc, Bool, true, false, not, ◌&&◌, Option, none, some, ◌⊎◌, inl, inr, if◌then◌else◌,
  ◌==◌, str_eqb, length, take, drop,
}

-- After the bytes that can be read: the end of the file, or an error of the disk with its number.
pub data Ending : Type 0 where
  at_end : Ending
  fault : ℕ → Ending

pub record File : Type 0 where
  pub content : Str
  pub ending : Ending

pub data ReadError : Type 0 where
  eof unexpected_eof : ReadError
  io_error : ℕ → ReadError

pub data HashError : Type 0 where
  open_lower open_upper link_lower link_upper read_lower read_upper : ℕ → HashError

abbrev pub Verdict : Type 0
Verdict = HashError ⊎ Bool

abbrev short_error : Ending → ℕ → ReadError
short_error at_end n = if n == 0 then eof else unexpected_eof
short_error (fault c) n = io_error c

-- `io.ReadFull` into a buffer of that size: the bytes read and the error.
abbrev pub read_full : ℕ → Ending → Str → Str × Option ReadError
read_full n e s =
    let c = take n s in (c, if length c == n then none else some (short_error e (length c)))

abbrev pub is_eof_chunk : Option ReadError → Bool
is_eof_chunk (some eof) = true
is_eof_chunk (some unexpected_eof) = true
is_eof_chunk _ = false

-- The rounds of `compareContentsSequential`, on what is left of the two files.
abbrev pub compare_rounds : ℕ → ℕ → Ending → Ending → Str → Str → Option Verdict
compare_rounds zero buf le ue ls us = none
compare_rounds (suc fuel) buf le ue ls us =
    let (lc, lerr) = read_full buf le ls in
    let (uc, uerr) = read_full buf ue us in
    let rest = compare_rounds fuel buf le ue (drop buf ls) (drop buf us) in
    if not (length lc == length uc && str_eqb lc uc)
    then some (inr false)
    else if is_eof_chunk lerr && is_eof_chunk uerr
    then some (inr true)
    else if (if is_eof_chunk lerr then not (is_eof_chunk uerr) else is_eof_chunk uerr)
    then some (inr false)
    else elim lerr [
      | some (io_error c) ↦ some (inl (read_lower c))
      | some _ ↦ rest
      | none ↦ elim uerr [
        | some (io_error c) ↦ some (inl (read_upper c))
        | some _ ↦ rest
        | none ↦ rest
      ]
    ]
