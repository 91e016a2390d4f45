-- ===== src/Dirsync/Paths.antt =====
-- internal/dirsync/pruning_set.go, `isPathUnder`: the path hierarchy on slash-separated paths.
use bons_ci.Base.{
  Str, str_eqb, str_eqb_iff, has_prefix, has_prefix_append, has_prefix_split, ℕ, Bool, true, ◌||◌,
  ◌≡◌, refl, ap, ◌∙◌, ◌↔◌, ◌⊎◌, inl, inr, [], ◌∷◌, ◌++◌, append_assoc, arith, Bool-cases,
}

abbrev pub slash : ℕ
slash = b'/'

unfoldable pub is_path_under : Str → Str → Bool
is_path_under child parent = str_eqb child parent || has_prefix child (parent ++ slash ∷ [])

-- What `is_path_under` tests: the path itself, or a path below it.
abbrev pub Below : Str → Str → Type 0
Below child parent = (child ≡ parent) ⊎ ((r : Str) × (child ≡ parent ++ slash ∷ r))

append_cons : (p r : Str) → (p ++ slash ∷ []) ++ r ≡ p ++ slash ∷ r
append_cons p r = append_assoc p (slash ∷ []) r

under→Below : (c p : Str) → is_path_under c p ≡ true → Below c p
unfolding is_path_under
under→Below c p h = elim (Bool-cases (str_eqb c p)) [
  | inl e ↦ inl ((str_eqb_iff c p).0 e)
  | inr e ↦
      let (r, q) = has_prefix_split c (p ++ slash ∷ []) (ground arith) in
      inr (r, q ∙ append_cons p r)
]

Below→under : (c p : Str) → Below c p → is_path_under c p ≡ true
unfolding is_path_under
Below→under c p (inl e) = ground (arith, (str_eqb_iff c p).1 e)
Below→under c p (inr (r, e)) =
    let q : has_prefix c (p ++ slash ∷ []) ≡ true =
      rw (e, ← append_cons p r) (has_prefix_append (p ++ slash ∷ []) r) in
    ground arith

pub is_path_under_iff : (c p : Str) → (is_path_under c p ≡ true) ↔ Below c p
is_path_under_iff c p = (under→Below c p, Below→under c p)

pub is_path_under_refl : (p : Str) → is_path_under p p ≡ true
is_path_under_refl p = Below→under p p (inl refl)

Below-trans : (a b c : Str) → Below a b → Below b c → Below a c
Below-trans a b c (inl e) h = rw e h
Below-trans a b c (inr (r, e)) (inl e') = inr (r, e ∙ ap (λ x. x ++ slash ∷ r) e')
Below-trans a b c (inr (r, e)) (inr (s, e')) =
    inr (s ++ slash ∷ r, rw (e, e') (append_assoc c (slash ∷ s) (slash ∷ r)))

pub is_path_under_trans :
    (a b c : Str) → is_path_under a b ≡ true → is_path_under b c ≡ true → is_path_under a c ≡ true
is_path_under_trans a b c p q =
    Below→under a c (Below-trans a b c (under→Below a b p) (under→Below b c q))
