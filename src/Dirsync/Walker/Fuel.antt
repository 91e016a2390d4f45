-- ===== src/Dirsync/Walker/Fuel.antt =====
-- internal/dirsync/walker.go: the depth of the recursion.
use bons_ci.Base.{
  Str, ℕ, zero, suc, ◌≤◌, true, List, [], ◌∷◌, Option, none, some, All, ◌≡◌, refl, ap,
  if◌then◌else◌, arith, fun_ext, Bool-cases, inl, inr,
}
use bons_ci.Dirsync.Types.{FileInfo, is_dir}
use bons_ci.Dirsync.Filter.{Filter}
use bons_ci.Dirsync.Walker.{
  DirEntry, Tree, Listing, failed, listing, ReadError, M, WalkFn, check, emit_all, merge,
  emit_listing, emit_found, emit_exclusive, on_common_pair, common_found, handle_common_entry,
  read_both, walk_both, ◌>>◌, join_rel_path,
}

-- A condition on the directory that an entry is, if it is one.
abbrev pub IfDir : Type 0 → Option FileInfo → Type 0
IfDir T none = Unit
IfDir T (some i) = if is_dir i then T else Unit

-- Below a directory there are fewer than the given number of levels of directories.
abbrev pub Shallow : ℕ → Tree → Str → Type 0
Shallow zero t p = ⊥
Shallow (suc n) t p = elim (t p) [
  | failed e ↦ Unit
  | listing es ↦ All (λ e. IfDir (Shallow n t (join_rel_path p e.name)) e.info) es
]

module _ {S : Type 0} (ctx_err : S → Option ℕ) where
  emit_all_cong :
      (f g : DirEntry → M S) (es : List DirEntry)
      → All (λ e. (s : S) → f e s ≡ g e s) es
      → (s : S) → emit_all ctx_err f es s ≡ emit_all ctx_err g es s
  unfolding emit_all
  emit_all_cong f g [] h s = refl
  emit_all_cong f g (e ∷ es) h s = rw (fun_ext h.0, fun_ext (emit_all_cong f g es h.1))

  merge_cong :
      (f g : DirEntry → M S) (f' g' : DirEntry → DirEntry → M S) (ls us : List DirEntry)
      → All (λ e. (s : S) → f e s ≡ g e s) ls
      → All (λ e. (u : DirEntry) (s : S) → f' e u s ≡ g' e u s) ls
      → (s : S) → merge ctx_err f f' ls us s ≡ merge ctx_err g g' ls us s
  unfolding merge
  merge_cong f g f' g' [] us h k s = refl
  merge_cong f g f' g' (l ∷ ls) [] h k s = emit_all_cong f g (l ∷ ls) h s
  merge_cong f g f' g' (l ∷ ls) (u ∷ us) h k s = rw (
    fun_ext h.0,
    fun_ext (k.0 u),
    fun_ext (merge_cong f g f' g' ls (u ∷ us) h.1 k.1),
    fun_ext (merge_cong f g f' g' ls us h.1 k.1),
    fun_ext (merge_cong f g f' g' (l ∷ ls) us h k),
  )

pub All-map {ℓ κ μ} :
    {A : Type ℓ} (P : A → Type κ) (Q : A → Type μ) (xs : List A)
    → ((a : A) → P a → Q a)
    → All P xs
    → All Q xs
All-map P Q [] f h = tt
All-map P Q (x ∷ xs) f h = (f x h.0, All-map P Q xs f h.1)

-- The walks below an entry agree if those below its directory do.
emit_found_cong :
    {S : Type 0} (filter : Filter) (fn : WalkFn S) (f g : M S) (p : Str) (info : Option FileInfo)
    → ((i : FileInfo) → info ≡ some i → is_dir i ≡ true → (s : S) → f s ≡ g s)
    → (s : S) → emit_found filter fn f p info s ≡ emit_found filter fn g p info s
emit_found_cong filter fn f g p none h s = refl
emit_found_cong filter fn f g p (some i) h s = elim (Bool-cases (is_dir i)) [
  | inl d ↦ rw (h i refl d s)
  | inr d ↦ rw d
]

emit_listing_cong :
    {S : Type 0} (f g : List DirEntry → M S) (p : Str) (l : Listing)
    → ((es : List DirEntry) → l ≡ listing es → (s : S) → f es s ≡ g es s)
    → (s : S) → emit_listing f p l s ≡ emit_listing g p l s
emit_listing_cong f g p (failed e) h s = refl
emit_listing_cong f g p (listing es) h s = h es refl s

pub IfDir-dir :
    (T : Type 0) (info : Option FileInfo) (i : FileInfo)
    → info ≡ some i
    → is_dir i ≡ true
    → IfDir T info
    → T
IfDir-dir T info i e d h = rw d at (rw e at h)

pub Shallow-listing :
    (n : ℕ) (t : Tree) (p : Str) (es : List DirEntry)
    → t p ≡ listing es
    → Shallow (suc n) t p
    → All (λ e. IfDir (Shallow n t (join_rel_path p e.name)) e.info) es
Shallow-listing n t p es e h = rw (e, Shallow) at h

module _ {S : Type 0} (ctx_err : S → Option ℕ) (lower : Tree) (filter : Filter)
    (fn : WalkFn S) where
  emit_exclusive-fuel :
      (n m : ℕ) (p : Str) (e : DirEntry)
      → n ≤ m
      → IfDir (Shallow n lower (join_rel_path p e.name)) e.info
      → (s : S)
      → emit_exclusive ctx_err lower filter fn (suc n) p e s
        ≡ emit_exclusive ctx_err lower filter fn (suc m) p e s
  unfolding emit_exclusive
  emit_exclusive-fuel zero m p e le h s =
      ap (λ k. (check ctx_err >> k) s)
        (fun_ext
          (emit_found_cong filter fn _ _ _ e.info (λ i q d. absurd (IfDir-dir ⊥ e.info i q d h))))
  emit_exclusive-fuel (suc n) zero p e le h s = absurd (omega arith)
  emit_exclusive-fuel (suc n) (suc m) p e le h s =
      let q = join_rel_path p e.name in
      ap (λ k. (check ctx_err >> k) s)
        (fun_ext (
          emit_found_cong filter fn _ _ q e.info (λ i eq d.
            emit_listing_cong _ _ q (lower q) (λ es l. emit_all_cong ctx_err _ _ es (
              All-map _ _ es (λ f hf. emit_exclusive-fuel n m q f (omega arith) hf)
                (Shallow-listing n lower q es l (IfDir-dir _ e.info i eq d h)))))))

common_found_cong :
    {S : Type 0} (fn : WalkFn S) (filter : Filter) (f g : M S) (p : Str) (l u : Option FileInfo)
    → ((i : FileInfo) → l ≡ some i → is_dir i ≡ true → (s : S) → f s ≡ g s)
    → (s : S) → common_found fn filter f p l u s ≡ common_found fn filter g p l u s
unfolding handle_common_entry
common_found_cong fn filter f g p none u h s = refl
common_found_cong fn filter f g p (some l) none h s = refl
common_found_cong fn filter f g p (some l) (some u) h s = elim (Bool-cases (is_dir l)) [
  | inl d ↦ rw (h l refl d s)
  | inr d ↦ rw d
]

read_both_listing :
    {S : Type 0} (l u : Listing) (p : Str) (all all' : List DirEntry → M S)
    (both both' : List DirEntry → List DirEntry → M S)
    → ((ls : List DirEntry) → l ≡ listing ls → (s : S) → all ls s ≡ all' ls s)
    → ((ls us : List DirEntry) → l ≡ listing ls → (s : S) → both ls us s ≡ both' ls us s)
    → (s : S) → read_both l u p all both s ≡ read_both l u p all' both' s
read_both_listing (failed ReadError.secure_join) u p a a' b b' h k s = refl
read_both_listing (failed ReadError.not_exist) (failed ReadError.secure_join) p a a' b b' h k s =
    refl
read_both_listing (failed ReadError.io) (failed ReadError.secure_join) p a a' b b' h k s = refl
read_both_listing (failed _) (failed _) p a a' b b' h k s = refl
read_both_listing (failed _) (listing us) p a a' b b' h k s = refl
read_both_listing (listing ls) (failed ReadError.secure_join) p a a' b b' h k s = refl
read_both_listing (listing ls) (failed ReadError.not_exist) p a a' b b' h k s = h ls refl s
read_both_listing (listing ls) (failed ReadError.io) p a a' b b' h k s = refl
read_both_listing (listing ls) (listing us) p a a' b b' h k s = k ls us refl s

module _ {S : Type 0} (ctx_err : S → Option ℕ) (lower upper : Tree) (filter : Filter)
    (fn : WalkFn S) where
  -- The walk of a directory does not depend on the fuel, once there is a unit for each level of
  -- directories of the lower tree below it.
  pub walk_both-fuel :
      (n m : ℕ) (rel_dir : Str) (s : S)
      → n ≤ m
      → Shallow n lower rel_dir
      → walk_both ctx_err lower upper filter fn n rel_dir s
        ≡ walk_both ctx_err lower upper filter fn m rel_dir s
  unfolding walk_both on_common_pair
  walk_both-fuel zero m p s le h = absurd h
  walk_both-fuel (suc n) zero p s le h = absurd (omega arith)
  walk_both-fuel (suc n) (suc m) p s le h =
      let lo = λ (ls : List DirEntry) (l : lower p ≡ listing ls).
        All-map _ _ ls
          (λ e he. emit_exclusive-fuel ctx_err lower filter fn n m p e (omega arith) he)
          (Shallow-listing n lower p ls l h) in
      ap (λ k. (check ctx_err >> k) s)
        (fun_ext (
          read_both_listing (lower p) (upper p) p _ _ _ _
            (λ ls l. emit_all_cong ctx_err _ _ ls (lo ls l))
            (λ ls us l. merge_cong ctx_err _ _ _ _ ls us (lo ls l) (
              All-map _ _ ls
                (λ e he u. common_found_cong fn filter _ _ _ e.info u.info (λ i eq d s'.
                  walk_both-fuel n m (join_rel_path p e.name) s' (omega arith)
                    (IfDir-dir _ e.info i eq d he)))
                (Shallow-listing n lower p ls l h)))))
