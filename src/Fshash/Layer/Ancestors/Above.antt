-- ===== src/Fshash/Layer/Ancestors/Above.antt =====
-- pkg/fshash/layer/resolver.go: the directories that `IsFileVisible` asks about.
use bons_ci.Base.{
  Str, str_eqb, str_eqb_iff, ℕ, zero, suc, ◌≤◌, Bool, true, false, [], ◌∷◌, ◌++◌, append_assoc,
  none, some, length, length-append, ◌==◌, ==_iff, if_true, if_false, ◌≡◌, ◌⊎◌, inl, inr, refl, sym,
  ◌∙◌, ap, arith, if◌then◌else◌, Option-cases, Bool-cases, ◌↔◌,
}
use bons_ci.Fshash.Layer.Ancestors.{
  before_last_slash, dir_before, root, any_ancestor, before_last_slash-lt,
}

-- The path goes on behind the directory, after a slash; where only a slash stands before the rest, the directory is the root.
pub data IsAbove : Str → Str → Type 0 where
  inner : (c : ℕ) (q rest path : Str) → path ≡ (c ∷ q) ++ b'/' ∷ rest → IsAbove (c ∷ q) path
  top : (rest path : Str) → path ≡ b'/' ∷ rest → IsAbove (b'/' ∷ []) path

before_last_slash_other :
    (c : ℕ) (s : Str)
    → before_last_slash s ≡ none
    → (c == b'/') ≡ false
    → before_last_slash (c ∷ s) ≡ none
unfolding before_last_slash
before_last_slash_other c s n other = ground (arith, n, other)

before_last_slash-split :
    (s p : Str) → before_last_slash s ≡ some p → (rest : Str) × (s ≡ p ++ b'/' ∷ rest)
unfolding before_last_slash
before_last_slash-split [] p h = cc
before_last_slash-split (c ∷ s) p h = elim (Option-cases (before_last_slash s)) [
  | inr (q, e) ↦
      let (rest, f) = before_last_slash-split s q e in
      let g : ◌≡◌ {A = Str} (c ∷ q) p = ground (arith, h, e) in
      (rest, ap (λ l. c ∷ l) f ∙ ap (λ l. l ++ b'/' ∷ rest) g)
  | inl n ↦ elim (Bool-cases (c == b'/')) [
    | inl slash ↦
        let here : c ≡ b'/' = (==_iff c b'/').0 slash in
        let start : [] ≡ p = ground (arith, h, n, slash) in
        (s, ap (λ x. x ∷ s) here ∙ ap (λ l. l ++ b'/' ∷ s) start)
    | inr other ↦ cc (h, before_last_slash_other c s n other)
  ]
]

-- What stands before a slash is before the last one, or stands before a slash there.
before_last_slash-some :
    (q rest : Str)
    → (p : Str) × (before_last_slash (q ++ b'/' ∷ rest) ≡ some p)
      × ((p ≡ q) ⊎ ((r : Str) × (p ≡ q ++ b'/' ∷ r)))
unfolding before_last_slash
before_last_slash-some [] rest = elim (Option-cases (before_last_slash rest)) [
  | inl n ↦ ([], rw (n, before_last_slash) refl, inl refl)
  | inr (p, e) ↦ (b'/' ∷ p, rw (e, before_last_slash) refl, inr (p, refl))
]
before_last_slash-some (c ∷ q) rest =
    let (p, e, k) = before_last_slash-some q rest in
    (
      c ∷ p,
      rw (e, before_last_slash) refl,
      elim k [ inl f ↦ inl (ap (λ l. c ∷ l) f) | inr (r, f) ↦ inr (r, ap (λ l. c ∷ l) f) ],
    )

IsAbove-trans : (d p rest path : Str) → IsAbove d p → path ≡ p ++ b'/' ∷ rest → IsAbove d path
IsAbove-trans _ p rest path (inner c q r _ e) f =
    inner c q (r ++ b'/' ∷ rest) path
      (f ∙ ap (λ l. l ++ b'/' ∷ rest) e ∙ append_assoc (c ∷ q) (b'/' ∷ r) (b'/' ∷ rest))
IsAbove-trans _ p rest path (top r _ e) f =
    top (r ++ b'/' ∷ rest) path (f ∙ ap (λ l. l ++ b'/' ∷ rest) e)

only_slash : (q r : Str) → (q ++ b'/' ∷ r) ≡ root → q ≡ []
only_slash [] r e = refl
only_slash (x ∷ q) r e = absurd (omega (arith, ap (λ l. length l) e, length-append q (b'/' ∷ r)))

dir_before-append : (q r : Str) → dir_before (q ++ b'/' ∷ r) ≡ q ++ b'/' ∷ r
dir_before-append [] r = refl
dir_before-append (x ∷ q) r = refl

module _ (test : Str → Bool) where
  -- One round of the loop.
  any_ancestor-round :
      (n : ℕ) (path p : Str)
      → before_last_slash path ≡ some p
      → any_ancestor test (suc n) path ≡ (
          if test (dir_before p)
          then true
          else if str_eqb (dir_before p) root
          then false
          else any_ancestor test n (dir_before p))
  unfolding any_ancestor
  any_ancestor-round n path p e = rw (e, any_ancestor) refl

  any_ancestor-end :
      (n : ℕ) (path : Str) → before_last_slash path ≡ none → any_ancestor test (suc n) path ≡ false
  unfolding any_ancestor
  any_ancestor-end n path e = rw (e, any_ancestor) refl

  any_ancestor-found :
      (n : ℕ) (path : Str)
      → any_ancestor test n path ≡ true
      → (dir : Str) × IsAbove dir path × (test dir ≡ true)
  unfolding any_ancestor
  any_ancestor-found zero path h = cc
  any_ancestor-found (suc n) path h = elim (Option-cases (before_last_slash path)) [
    | inl e ↦ cc (h, any_ancestor-end n path e)
    | inr ([], e) ↦
        let (rest, f) = before_last_slash-split path [] e in
        (root, top rest path f, ground (arith, h, any_ancestor-round n path [] e))
    | inr (c ∷ p, e) ↦
        let (rest, f) = before_last_slash-split path (c ∷ p) e in
        elim (Bool-cases (test (c ∷ p))) [
          | inl t ↦ (c ∷ p, inner c p rest path f, t)
          | inr lost ↦
              let (d, above, t) =
                any_ancestor-found n (c ∷ p)
                  (ground (arith, h, lost, any_ancestor-round n path (c ∷ p) e)) in
              (d, IsAbove-trans d (c ∷ p) rest path above f, t)
        ]
  ]

  any_ancestor-finds :
      (n : ℕ) (path q rest : Str)
      → length path ≤ n
      → path ≡ q ++ b'/' ∷ rest
      → test (dir_before q) ≡ true
      → any_ancestor test n path ≡ true
  any_ancestor-finds zero path q rest le e t =
      absurd (omega (arith, le, ap (λ l. length l) e, length-append q (b'/' ∷ rest)))
  any_ancestor-finds (suc n) path q rest le e t =
      let (p, found, k) = before_last_slash-some q rest in
      let here : before_last_slash path ≡ some p = ap before_last_slash e ∙ found in
      any_ancestor-round n path p here ∙ elim (Bool-cases (test (dir_before p))) [
        | inl yes' ↦ if_true _ _ yes'
        | inr lost ↦ elim k [
          | inl f ↦ cc (lost, t, f)
          | inr (r, f) ↦
              let same : dir_before p ≡ p = ap dir_before f ∙ dir_before-append q r ∙ sym f in
              if_false _ _ lost ∙ elim (Bool-cases (str_eqb (dir_before p) root)) [
                | inl end ↦
                    let bare : q ≡ [] =
                      only_slash q r (sym f ∙ sym same ∙ (str_eqb_iff (dir_before p) root).0 end) in
                    cc (lost, t, bare, (str_eqb_iff (dir_before p) root).0 end)
                | inr on ↦
                    if_false _ _ on
                    ∙ ap (any_ancestor test n) same
                    ∙ any_ancestor-finds n p q r (omega (arith, before_last_slash-lt path p here)) f
                        t
              ]
        ]
      ]

  IsAbove-split :
      (dir path : Str)
      → IsAbove dir path
      → (q rest : Str) × (path ≡ q ++ b'/' ∷ rest) × (dir_before q ≡ dir)
  IsAbove-split _ path (inner c q rest _ e) = (c ∷ q, rest, e, refl)
  IsAbove-split _ path (top rest _ e) = ([], rest, e, refl)

  -- With fuel of the length of the path, the loop meets a directory that the test holds of exactly if there is one
  -- above the path.
  pub any_ancestor_iff :
      (path : Str)
      → (any_ancestor test (length path) path ≡ true)
        ↔ ((dir : Str) × IsAbove dir path × (test dir ≡ true))
  any_ancestor_iff path = (
    any_ancestor-found (length path) path,
    λ found.
        let (dir, above, t) = found in
        let (q, rest, e, same) = IsAbove-split dir path above in
        any_ancestor-finds (length path) path q rest (omega arith) e (ap test same ∙ t),
  )
