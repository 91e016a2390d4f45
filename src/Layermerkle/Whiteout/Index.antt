-- ===== src/Layermerkle/Whiteout/Index.antt =====
-- pkg/layermerkle/whiteout.go: the index answers as the file system that it was built from.
use bons_ci.Base.{
  Str, has_prefix, Bool, true, false, not, ◌&&◌, ◌||◌, List, [], ◌∷◌, ◌++◌, any, drop, ◌≡◌, refl,
  ◌∙◌, sym, ap, fun_ext, arith, str_eqb, str_eqb_iff, str_key, list_eqb, Bool-cases, inl, inr,
  has_prefix_split,
}
use bons_ci.Base.Segments.{Segments}
use bons_ci.Layermerkle.Layer.{whiteout_prefix, opaque_marker}
use bons_ci.Layermerkle.Whiteout.{
  Location, prefixes, has_file_whiteout, ancestor_is_opaque, WhiteoutIndex, same_location, visit,
  build_from, build_whiteout_index, is_masked, double_prefix, is_whiteout_name,
}

-- Whether a path is among the entries of a diff directory.
abbrev pub among : List Location → Location → Bool
among es p = any (same_location p) es

whiteout-is_whiteout_name :
    (name : Str)
    → has_prefix name whiteout_prefix ≡ false
    → is_whiteout_name (whiteout_prefix ++ name) ≡ true
whiteout-is_whiteout_name name h = rw h

whiteout-ne-marker :
    (name : Str)
    → has_prefix name whiteout_prefix ≡ false
    → str_eqb (whiteout_prefix ++ name) opaque_marker ≡ false
whiteout-ne-marker name h = elim (Bool-cases (str_eqb name (drop 4 opaque_marker))) [
  | inr n ↦ n
  | inl e ↦
      let q : name ≡ drop 4 opaque_marker = (str_eqb_iff name (drop 4 opaque_marker)).0 e in
      let bad : has_prefix (drop 4 opaque_marker) whiteout_prefix ≡ false = rw q at h in cc bad
]

str_eqb-drop :
    (name n : Str)
    → has_prefix n whiteout_prefix ≡ true
    → str_eqb name (drop 4 n) ≡ str_eqb (whiteout_prefix ++ name) n
str_eqb-drop name n h = let (r, q) = has_prefix_split n whiteout_prefix h in rw q

str_eqb_self : (a b : Str) → str_eqb a b ≡ true → str_eqb b a ≡ true
str_eqb_self a b h = (str_eqb_iff b a).1 (sym ((str_eqb_iff a b).0 h))

str_eqb_other : (a b : Str) → str_eqb a b ≡ false → str_eqb b a ≡ false
str_eqb_other a b h = elim (Bool-cases (str_eqb b a)) [
  | inr n ↦ n
  | inl e ↦ absurd (ground (arith, h, str_eqb_self b a e))
]

and_true : (a b : Bool) → (a || b) ≡ ((a && true) || b)
and_true a b = ground arith

and_left : (a b : Bool) → (a && b) ≡ true → a ≡ true
and_left a b h = ground arith

and_false : (a b : Bool) → b ≡ ((a && false) || b)
and_false a b = ground arith

-- What one entry adds to the two sets.
visit_dirs :
    (idx : WhiteoutIndex) (e : Location) (a : Segments)
    → any (list_eqb str_key a) (visit idx e).opaque_directories
      ≡ (same_location (a, opaque_marker) e || any (list_eqb str_key a) idx.opaque_directories)
unfolding visit
visit_dirs idx (d, n) a = elim (Bool-cases (str_eqb n opaque_marker)) [
  | inl e ↦
      rw (e, str_eqb_self n opaque_marker e)
        (and_true (list_eqb str_key a d) (any (list_eqb str_key a) idx.opaque_directories))
  | inr e ↦ elim (Bool-cases (is_whiteout_name n)) [
    | inl w ↦
        rw (e, w, str_eqb_other n opaque_marker e)
          (and_false (list_eqb str_key a d) (any (list_eqb str_key a) idx.opaque_directories))
    | inr w ↦
        rw (e, w, str_eqb_other n opaque_marker e)
          (and_false (list_eqb str_key a d) (any (list_eqb str_key a) idx.opaque_directories))
  ]
]

not-whiteout :
    (name n : Str)
    → has_prefix name whiteout_prefix ≡ false
    → is_whiteout_name n ≡ false
    → str_eqb (whiteout_prefix ++ name) n ≡ false
not-whiteout name n h w = elim (Bool-cases (str_eqb (whiteout_prefix ++ name) n)) [
  | inr x ↦ x
  | inl e ↦
      let q : whiteout_prefix ++ name ≡ n = (str_eqb_iff (whiteout_prefix ++ name) n).0 e in
      let bad : is_whiteout_name (whiteout_prefix ++ name) ≡ false = rw (← q) at w in
      cc (bad, whiteout-is_whiteout_name name h)
]

not-marker :
    (name n : Str)
    → has_prefix name whiteout_prefix ≡ false
    → str_eqb n opaque_marker ≡ true
    → str_eqb (whiteout_prefix ++ name) n ≡ false
not-marker name n h e =
    let q : n ≡ opaque_marker = (str_eqb_iff n opaque_marker).0 e in
    rw q (whiteout-ne-marker name h)

visit_files :
    (idx : WhiteoutIndex) (e : Location) (dir : Segments) (name : Str)
    → has_prefix name whiteout_prefix ≡ false
    → any (same_location (dir, name)) (visit idx e).file_whiteouts ≡ (
        same_location (dir, whiteout_prefix ++ name) e
        || any (same_location (dir, name)) idx.file_whiteouts)
unfolding visit
visit_files idx (d, n) dir name h = elim (Bool-cases (str_eqb n opaque_marker)) [
  | inl e ↦
      rw (e, not-marker name n h e)
        (and_false (list_eqb str_key dir d) (any (same_location (dir, name)) idx.file_whiteouts))
  | inr e ↦ elim (Bool-cases (is_whiteout_name n)) [
    | inl w ↦
        let pre : has_prefix n whiteout_prefix ≡ true =
          and_left (has_prefix n whiteout_prefix) (not (has_prefix n double_prefix)) w in
        rw (e, w, str_eqb-drop name n pre)
    | inr w ↦
        rw (e, w, not-whiteout name n h w)
          (and_false (list_eqb str_key dir d) (any (same_location (dir, name)) idx.file_whiteouts))
  ]
]

or_swap : (a b c : Bool) → (a || (b || c)) ≡ ((b || a) || c)
or_swap a b c = ground arith

or_false : (a : Bool) → (a || false) ≡ a
or_false a = ground arith

-- What the whole walk puts into the two sets, beside what was there.
build_from_dirs :
    (idx : WhiteoutIndex) (es : List Location) (a : Segments)
    → any (list_eqb str_key a) (build_from idx es).opaque_directories
      ≡ (among es (a, opaque_marker) || any (list_eqb str_key a) idx.opaque_directories)
unfolding build_from
build_from_dirs idx [] a = refl
build_from_dirs idx (e ∷ es) a =
    rw (build_from_dirs (visit idx e) es a, visit_dirs idx e a)
      (or_swap (among es (a, opaque_marker)) (same_location (a, opaque_marker) e) _)

build_from_files :
    (idx : WhiteoutIndex) (es : List Location) (dir : Segments) (name : Str)
    → has_prefix name whiteout_prefix ≡ false
    → any (same_location (dir, name)) (build_from idx es).file_whiteouts ≡ (
        among es (dir, whiteout_prefix ++ name)
        || any (same_location (dir, name)) idx.file_whiteouts)
unfolding build_from
build_from_files idx [] dir name h = refl
build_from_files idx (e ∷ es) dir name h =
    rw (build_from_files (visit idx e) es dir name h, visit_files idx e dir name h)
      (or_swap (among es (dir, whiteout_prefix ++ name))
        (same_location (dir, whiteout_prefix ++ name) e) _)

-- For a path whose name is no whiteout itself, the index of a layer masks it exactly if one of the
-- two searches of the file system of that layer finds a whiteout of it: of the file, or of one of the
-- directories above it.
pub is_masked-build_whiteout_index :
    (es : List Location) (dir : Segments) (name : Str)
    → has_prefix name whiteout_prefix ≡ false
    → is_masked (build_whiteout_index es) (dir, name)
      ≡ (has_file_whiteout (among es) (dir, name) || ancestor_is_opaque (among es) (dir, name))
unfolding is_masked build_whiteout_index has_file_whiteout ancestor_is_opaque
is_masked-build_whiteout_index es dir name h =
    let idx = build_whiteout_index es in
    let none_yet : WhiteoutIndex = record { file_whiteouts = []; opaque_directories = [] } in
    let dirs =
      λ (a : Segments). build_from_dirs none_yet es a ∙ or_false (among es (a, opaque_marker)) in
    let files : any (same_location (dir, name)) idx.file_whiteouts
        ≡ among es (dir, whiteout_prefix ++ name) =
      build_from_files none_yet es dir name h
      ∙ or_false (among es (dir, whiteout_prefix ++ name)) in
    ap (λ k. any (same_location (dir, name)) idx.file_whiteouts || any k (prefixes dir))
      (fun_ext dirs)
    ∙ ap (λ b. b || any (λ a. among es (a, opaque_marker)) (prefixes dir)) files
