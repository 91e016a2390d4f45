-- ===== src/Dirsync/Walker/Termination.antt =====
-- internal/dirsync/walker.go: the recursion of the walk ends.
use bons_ci.Base.{
  Str, ℕ, zero, suc, ◌≤◌, true, List, [], ◌∷◌, Option, none, some, All, ◌≡◌, refl, false,
  Bool-cases, inl, inr,
}
use bons_ci.Base.Order.{Ordering, compare_str}
use bons_ci.Dirsync.Types.{FileInfo, ExclusivePath, CommonPath, is_dir}
use bons_ci.Dirsync.Filter.{Filter}
use bons_ci.Dirsync.Walker.{
  DirEntry, Tree, Listing, failed, listing, ReadError, M, WalkFn, WalkError, Outcome, done, stop,
  check, emit_all, merge, switch, emit_listing, emit_found, emit_exclusive, on_common_pair,
  common_found, handle_common_entry, call_exclusive, call_common, read_both, walk_both, ◌>>◌,
  join_rel_path, exclusive_dir, exclusive_leaf, common_entry,
}
use bons_ci.Dirsync.Walker.Fuel.{
  IfDir, Shallow, All-map, IfDir-dir, Shallow-listing, walk_both-fuel,
}

-- A run that did not stop for want of fuel.
abbrev pub IsInFuel : {S : Type 0} → Outcome S → Type 0
IsInFuel (done s) = Unit
IsInFuel (stop WalkError.out_of_fuel s) = ⊥
IsInFuel (stop _ s) = Unit

-- Whatever the state, the run has fuel.
abbrev pub Ends : {S : Type 0} → M S → Type 0
Ends {S = S} m = (s : S) → IsInFuel (m s)

-- The callbacks do not make up the error of a walk without fuel.
abbrev pub CallsEnd : {S : Type 0} → WalkFn S → Type 0
CallsEnd fn =
    ((ep : ExclusivePath) → Ends (call_exclusive fn ep))
    × ((cp : CommonPath) → Ends (call_common fn cp))

module _ {S : Type 0} where
  bind-Ends :
      (o : Outcome S) (k : M S)
      → IsInFuel o
      → Ends k
      → IsInFuel (elim o [ done s' ↦ k s' | stop e s' ↦ stop e s' ])
  bind-Ends (done s) k h g = g s
  bind-Ends (stop e s) k h g = h

  then-Ends : (m k : M S) → Ends m → Ends k → Ends (m >> k)
  then-Ends m k h g s = bind-Ends (m s) k (h s) g

  context-Ends :
      (o : Option ℕ) (s : S)
      → IsInFuel (elim o [ none ↦ done s | some e ↦ stop (WalkError.context e) s ])
  context-Ends none s = tt
  context-Ends (some e) s = tt

  switch-Ends : (o : Ordering) (a b c : M S) → Ends a → Ends b → Ends c → Ends (switch o a b c)
  switch-Ends Ordering.lt a b c f g h = f
  switch-Ends Ordering.eq a b c f g h = g
  switch-Ends Ordering.gt a b c f g h = h

module _ {S : Type 0} (ctx_err : S → Option ℕ) where
  check-Ends : Ends (check ctx_err)
  unfolding check
  check-Ends s = context-Ends (ctx_err s) s

  emit_all-Ends :
      (f : DirEntry → M S) (es : List DirEntry)
      → All (λ e. Ends (f e)) es
      → Ends (emit_all ctx_err f es)
  unfolding emit_all
  emit_all-Ends f [] h s = tt
  emit_all-Ends f (e ∷ es) h s =
      then-Ends _ _ check-Ends (then-Ends _ _ h.0 (emit_all-Ends f es h.1)) s

  merge-Ends :
      (f : DirEntry → M S) (g : DirEntry → DirEntry → M S) (ls us : List DirEntry)
      → All (λ e. Ends (f e)) ls
      → All (λ e. (u : DirEntry) → Ends (g e u)) ls
      → Ends (merge ctx_err f g ls us)
  unfolding merge
  merge-Ends f g [] us h k s = tt
  merge-Ends f g (l ∷ ls) [] h k s = emit_all-Ends f (l ∷ ls) h s
  merge-Ends f g (l ∷ ls) (u ∷ us) h k s =
      then-Ends _ _ check-Ends
        (switch-Ends (compare_str l.name u.name) _ _ _
          (then-Ends _ _ h.0 (merge-Ends f g ls (u ∷ us) h.1 k.1))
          (then-Ends _ _ (k.0 u) (merge-Ends f g ls us h.1 k.1)) (merge-Ends f g (l ∷ ls) us h k))
        s

emit_listing-Ends :
    {S : Type 0} (f : List DirEntry → M S) (p : Str) (l : Listing)
    → ((es : List DirEntry) → l ≡ listing es → Ends (f es))
    → Ends (emit_listing f p l)
emit_listing-Ends f p (failed ReadError.secure_join) h s = tt
emit_listing-Ends f p (failed ReadError.not_exist) h s = tt
emit_listing-Ends f p (failed ReadError.io) h s = tt
emit_listing-Ends f p (listing es) h s = h es refl s

read_both-Ends :
    {S : Type 0} (l u : Listing) (p : Str) (all : List DirEntry → M S)
    (both : List DirEntry → List DirEntry → M S)
    → ((ls : List DirEntry) → l ≡ listing ls → Ends (all ls))
    → ((ls us : List DirEntry) → l ≡ listing ls → Ends (both ls us))
    → Ends (read_both l u p all both)
read_both-Ends (failed ReadError.secure_join) u p a b h k s = tt
read_both-Ends (failed ReadError.not_exist) (failed ReadError.secure_join) p a b h k s = tt
read_both-Ends (failed ReadError.io) (failed ReadError.secure_join) p a b h k s = tt
read_both-Ends (failed _) (failed _) p a b h k s = tt
read_both-Ends (failed _) (listing us) p a b h k s = tt
read_both-Ends (listing ls) (failed ReadError.secure_join) p a b h k s = tt
read_both-Ends (listing ls) (failed ReadError.not_exist) p a b h k s = h ls refl s
read_both-Ends (listing ls) (failed ReadError.io) p a b h k s = tt
read_both-Ends (listing ls) (listing us) p a b h k s = k ls us refl s

module _ {S : Type 0} (filter : Filter) (fn : WalkFn S) (calls : CallsEnd fn) where
  emit_found-Ends :
      (f : M S) (p : Str) (info : Option FileInfo)
      → ((i : FileInfo) → info ≡ some i → is_dir i ≡ true → Ends f)
      → Ends (emit_found filter fn f p info)
  emit_found-Ends f p none h s = tt
  emit_found-Ends f p (some i) h s = elim (Bool-cases (filter.include p (is_dir i))) [
    | inr out ↦ rw out tt
    | inl in_ ↦ elim (Bool-cases (is_dir i)) [
      | inr leaf ↦ rw (in_, leaf) (calls.0 (exclusive_leaf p i) s)
      | inl dir ↦ elim (Bool-cases (filter.include p false)) [
        | inl whole ↦ rw (in_, dir, whole) (calls.0 (exclusive_dir p i) s)
        | inr part ↦ rw (in_, dir, part) (h i refl dir s)
      ]
    ]
  ]

  handle_common_entry-Ends :
      (f : M S) (p : Str) (l u : FileInfo)
      → (is_dir l ≡ true → Ends f)
      → Ends (handle_common_entry fn f p l u)
  unfolding handle_common_entry
  handle_common_entry-Ends f p l u h s = elim (Bool-cases (is_dir l)) [
    | inr leaf ↦ rw leaf (calls.1 (common_entry p l u) s)
    | inl dir ↦ elim (Bool-cases (is_dir u)) [
      | inl both ↦ rw (dir, both) (h dir s)
      | inr one ↦ rw (dir, one) (then-Ends _ _ (calls.1 _) (calls.0 (exclusive_dir p l)) s)
    ]
  ]

  common_found-Ends :
      (f : M S) (p : Str) (l u : Option FileInfo)
      → ((i : FileInfo) → l ≡ some i → is_dir i ≡ true → Ends f)
      → Ends (common_found fn filter f p l u)
  common_found-Ends f p none u h s = tt
  common_found-Ends f p (some l) none h s = tt
  common_found-Ends f p (some l) (some u) h s = elim (Bool-cases (filter.include p (is_dir l))) [
    | inr out ↦ rw out tt
    | inl in_ ↦ rw in_ (handle_common_entry-Ends f p l u (h l refl) s)
  ]

module _ {S : Type 0} (ctx_err : S → Option ℕ) (lower upper : Tree) (filter : Filter)
    (fn : WalkFn S) (calls : CallsEnd fn) where
  emit_exclusive-Ends :
      (n : ℕ) (p : Str) (e : DirEntry)
      → IfDir (Shallow n lower (join_rel_path p e.name)) e.info
      → Ends (emit_exclusive ctx_err lower filter fn (suc n) p e)
  unfolding emit_exclusive
  emit_exclusive-Ends zero p e h s =
      then-Ends _ _ (check-Ends ctx_err)
        (emit_found-Ends filter fn calls _ _ e.info (λ i q d. absurd (IfDir-dir ⊥ e.info i q d h)))
        s
  emit_exclusive-Ends (suc n) p e h s =
      let q = join_rel_path p e.name in
      then-Ends _ _ (check-Ends ctx_err)
        (emit_found-Ends filter fn calls _ q e.info (λ i eq d.
          emit_listing-Ends _ q (lower q) (λ es l. emit_all-Ends ctx_err _ es (
            All-map _ _ es (λ f hf. emit_exclusive-Ends n q f hf)
              (Shallow-listing n lower q es l (IfDir-dir _ e.info i eq d h))))))
        s

  walk_both-Ends :
      (n : ℕ) (rel_dir : Str)
      → Shallow n lower rel_dir
      → Ends (walk_both ctx_err lower upper filter fn n rel_dir)
  unfolding walk_both on_common_pair
  walk_both-Ends zero p h s = absurd h
  walk_both-Ends (suc n) p h s =
      let lo = λ (ls : List DirEntry) (l : lower p ≡ listing ls).
        All-map _ (λ e. Ends (emit_exclusive ctx_err lower filter fn (suc n) p e)) ls
          (λ e he. emit_exclusive-Ends n p e he) (Shallow-listing n lower p ls l h) in
      then-Ends _ _ (check-Ends ctx_err)
        (read_both-Ends (lower p) (upper p) p _ _ (λ ls l. emit_all-Ends ctx_err _ ls (lo ls l))
          (λ ls us l. merge-Ends ctx_err _ _ ls us (lo ls l) (
            All-map _ _ ls
              (λ e he u. common_found-Ends filter fn calls _ _ e.info u.info (λ i eq d.
                walk_both-Ends n (join_rel_path p e.name) (IfDir-dir _ e.info i eq d he)))
              (Shallow-listing n lower p ls l h))))
        s

  -- With callbacks that do not stop with the walk's own error for want of fuel, and a unit of fuel for each level of
  -- directories of the lower tree below a directory, the walk of that directory does not run out of fuel, and
  -- more fuel makes no difference.
  pub walk_both_total :
      (n m : ℕ) (rel_dir : Str) (s : S)
      → n ≤ m
      → Shallow n lower rel_dir
      → IsInFuel (walk_both ctx_err lower upper filter fn n rel_dir s)
        × (walk_both ctx_err lower upper filter fn n rel_dir s
            ≡ walk_both ctx_err lower upper filter fn m rel_dir s)
  walk_both_total n m rel_dir s le h = (
    walk_both-Ends n rel_dir h s,
    walk_both-fuel ctx_err lower upper filter fn n m rel_dir s le h,
  )
