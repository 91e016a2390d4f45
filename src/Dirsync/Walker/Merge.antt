-- ===== src/Dirsync/Walker/Merge.antt =====
-- internal/dirsync/walker.go: the two-pointer loop against a lookup of each lower name in the upper
-- directory.
use bons_ci.Base.{
  Str, ℕ, zero, suc, List, [], ◌∷◌, Option, none, some, All, ◌≡◌, refl, ap, ◌∙◌, if◌then◌else◌,
  str_eqb, str_eqb_iff, arith, fun_ext, inl, inr, ◌⊎◌, sym,
}
use bons_ci.Base.Order.{
  Ordering, compare_str, compare_str_eq, compare_str_gt, Precedes, Precedes-trans, Precedes-eqb,
  Precedes-eqb_flip,
}
use bons_ci.Dirsync.Filter.{Filter}
use bons_ci.Dirsync.Walker.{
  DirEntry, Tree, Listing, failed, listing, ReadError, M, done, stop, WalkError, WalkFn, check,
  emit_all, merge, emit_exclusive, on_common_pair, read_both, walk_both, ◌>>◌,
}

-- The entries of a directory, sorted by name and each name once, as `os.ReadDir` lists them.
abbrev pub SortedNames : List DirEntry → Type 0
SortedNames [] = Unit
SortedNames (e ∷ es) = All (λ f. Precedes e.name f.name) es × SortedNames es

abbrev pub SortedListing : Listing → Type 0
SortedListing (failed e) = Unit
SortedListing (listing es) = SortedNames es

abbrev pub SortedTree : Tree → Type 0
SortedTree t = (p : Str) → SortedListing (t p)

-- The entry of a directory with a given name.
unfoldable pub find_entry : Str → List DirEntry → Option DirEntry
find_entry name [] = none
find_entry name (e ∷ es) = if str_eqb name e.name then some e else find_entry name es

find_entry_above :
    (a b : Str) (es : List DirEntry)
    → Precedes a b
    → All (λ f. Precedes b f.name) es
    → find_entry a es ≡ none
unfolding find_entry
find_entry_above a b [] h k = refl
find_entry_above a b (e ∷ es) h k =
    ground (
      arith,
      Precedes-eqb a e.name (Precedes-trans a b e.name h k.0),
      find_entry_above a b es h k.1,
    )

find_entry_after :
    (a : Str) (es : List DirEntry) → All (λ f. Precedes a f.name) es → find_entry a es ≡ none
unfolding find_entry
find_entry_after a [] k = refl
find_entry_after a (e ∷ es) k = ground (arith, Precedes-eqb a e.name k.0, find_entry_after a es k.1)

find_entry_here :
    (a : Str) (u : DirEntry) (us : List DirEntry) → a ≡ u.name → find_entry a (u ∷ us) ≡ some u
unfolding find_entry
find_entry_here a u us h = ground (arith, str_eqb_iff a u.name)

module _ {S : Type 0} (ctx_err : S → Option ℕ) (on_lower : DirEntry → M S)
    (on_both : DirEntry → DirEntry → M S) where
  -- One lower entry, against the upper entry of its name.
  unfoldable pub pair_up : Option DirEntry → DirEntry → M S
  pair_up none l = on_lower l
  pair_up (some u) l = on_both l u

  -- Every lower entry in order, with no second pointer.
  unfoldable pub by_lookup : List DirEntry → List DirEntry → M S
  unfolding pair_up
  by_lookup us [] s = done s
  by_lookup us (l ∷ ls) s =
      (check ctx_err >> (pair_up (find_entry l.name us) l >> by_lookup us ls)) s

  by_lookup-nil : (ls : List DirEntry) (s : S) → by_lookup [] ls s ≡ emit_all ctx_err on_lower ls s
  unfolding by_lookup emit_all find_entry
  by_lookup-nil [] s = refl
  by_lookup-nil (l ∷ ls) s = rw (fun_ext (by_lookup-nil ls))

  -- An upper entry before all of the lower ones is never met.
  by_lookup_skip :
      (u : DirEntry) (us ls : List DirEntry)
      → All (λ l. Precedes u.name l.name) ls
      → (s : S) → by_lookup (u ∷ us) ls s ≡ by_lookup us ls s
  unfolding by_lookup find_entry
  by_lookup_skip u us [] h s = refl
  by_lookup_skip u us (l ∷ ls) h s =
      rw (Precedes-eqb_flip u.name l.name h.0, fun_ext (by_lookup_skip u us ls h.1))

  check_twice :
      (k : M S) (s : S) → (check ctx_err >> (check ctx_err >> k)) s ≡ (check ctx_err >> k) s
  unfolding check
  check_twice k s = ground arith

  All-Precedes :
      (a b : Str) (es : List DirEntry)
      → Precedes a b
      → All (λ f. Precedes b f.name) es
      → All (λ f. Precedes a f.name) es
  All-Precedes a b [] h k = tt
  All-Precedes a b (e ∷ es) h k = (Precedes-trans a b e.name h k.0, All-Precedes a b es h k.1)

  Ordering-cases : (o : Ordering) → (o ≡ Ordering.lt) ⊎ (o ≡ Ordering.eq) ⊎ (o ≡ Ordering.gt)
  Ordering-cases Ordering.lt = inl refl
  Ordering-cases Ordering.eq = inr (inl refl)
  Ordering-cases Ordering.gt = inr (inr refl)

  pub merge-by_lookup :
      (ls us : List DirEntry) (s : S)
      → SortedNames ls
      → SortedNames us
      → merge ctx_err on_lower on_both ls us s ≡ by_lookup us ls s
  unfolding merge by_lookup
  merge-by_lookup [] us s hl hu = refl
  merge-by_lookup (l ∷ ls) [] s hl hu = sym (by_lookup-nil (l ∷ ls) s)
  merge-by_lookup (l ∷ ls) (u ∷ us) s hl hu = elim (Ordering-cases (compare_str l.name u.name)) [
    | inl lt ↦
        let missing : find_entry l.name (u ∷ us) ≡ none =
          find_entry_after l.name (u ∷ us) (lt, All-Precedes l.name u.name us lt hu.0) in
        rw (lt, missing, fun_ext (λ s'. merge-by_lookup ls (u ∷ us) s' hl.1 hu))
    | inr (inl eq) ↦
        let same : l.name ≡ u.name = compare_str_eq l.name u.name eq in
        let found : find_entry l.name (u ∷ us) ≡ some u = find_entry_here l.name u us same in
        rw (
          eq,
          found,
          fun_ext (λ s'. merge-by_lookup ls us s' hl.1 hu.1),
          fun_ext (by_lookup_skip u us ls (rw same at hl.0)),
        )
    | inr (inr gt) ↦
        let before : Precedes u.name l.name = compare_str_gt l.name u.name gt in
        let after : All (λ f. Precedes u.name f.name) (l ∷ ls) =
          (before, All-Precedes u.name l.name ls before hl.0) in
        rw (gt, fun_ext (λ s'. merge-by_lookup (l ∷ ls) us s' hl hu.1))
          (check_twice _ s ∙ sym (by_lookup_skip u us (l ∷ ls) after s))
  ]

module _ {S : Type 0} (ctx_err : S → Option ℕ) (lower upper : Tree) (filter : Filter)
    (fn : WalkFn S) where
  -- `walkBoth` with a lookup of each lower name in place of the two-pointer loop.
  unfoldable pub walk_lookup : ℕ → Str → M S
  unfolding by_lookup emit_exclusive on_common_pair
  walk_lookup zero rel_dir s = stop WalkError.out_of_fuel s
  walk_lookup (suc fuel) rel_dir s =
      let on_lower = emit_exclusive ctx_err lower filter fn (suc fuel) rel_dir in
      (check ctx_err
          >> read_both (lower rel_dir) (upper rel_dir) rel_dir (emit_all ctx_err on_lower) (λ ls us.
            by_lookup ctx_err on_lower (on_common_pair fn filter (walk_lookup fuel) rel_dir) us ls))
        s

  read_both_cong :
      (l u : Listing) (rel : Str) (all : List DirEntry → M S)
      (both both' : List DirEntry → List DirEntry → M S)
      → SortedListing l
      → SortedListing u
      → ((ls us : List DirEntry)
          → SortedNames ls
          → SortedNames us
          → (s : S) → both ls us s ≡ both' ls us s)
      → (s : S) → read_both l u rel all both s ≡ read_both l u rel all both' s
  read_both_cong (failed ReadError.secure_join) u rel all both both' hl hu h s = refl
  read_both_cong (failed ReadError.not_exist) (failed ReadError.secure_join) rel all b b' hl hu h
        s =
      refl
  read_both_cong (failed ReadError.io) (failed ReadError.secure_join) rel all b b' hl hu h s = refl
  read_both_cong (failed _) (failed _) rel all both both' hl hu h s = refl
  read_both_cong (failed _) (listing us) rel all both both' hl hu h s = refl
  read_both_cong (listing ls) (failed ReadError.secure_join) rel all both both' hl hu h s = refl
  read_both_cong (listing ls) (failed ReadError.not_exist) rel all both both' hl hu h s = refl
  read_both_cong (listing ls) (failed ReadError.io) rel all both both' hl hu h s = refl
  read_both_cong (listing ls) (listing us) rel all both both' hl hu h s = h ls us hl hu s

  -- On trees whose directories are listed in order, the two-pointer walk makes the same calls in the
  -- same order and ends in the same state or error as the walk that looks every lower name up in the
  -- upper directory, for every filter, every callbacks and every context.
  pub walk_both-walk_lookup :
      (fuel : ℕ) (rel_dir : Str) (s : S)
      → SortedTree lower
      → SortedTree upper
      → walk_both ctx_err lower upper filter fn fuel rel_dir s ≡ walk_lookup fuel rel_dir s
  unfolding walk_both walk_lookup
  walk_both-walk_lookup zero rel_dir s hl hu = refl
  walk_both-walk_lookup (suc fuel) rel_dir s hl hu =
      let same : walk_both ctx_err lower upper filter fn fuel ≡ walk_lookup fuel =
        fun_ext (λ rel. fun_ext (λ s'. walk_both-walk_lookup fuel rel s' hl hu)) in
      rw same (
        ap (λ k. (check ctx_err >> k) s)
          (fun_ext (
            read_both_cong (lower rel_dir) (upper rel_dir) rel_dir _ _ _ (hl rel_dir) (hu rel_dir)
              (λ ls us p q s'. merge-by_lookup ctx_err _ _ ls us s' p q))))
