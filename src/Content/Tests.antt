-- ===== src/Content/Tests.antt =====
-- core/content/store/composite: runs on stores that are lists of digests.
use bons_ci.Base.{
  Str, codes, str_eqb, str_eqb_iff, Bool, false, not, List, [], ◌∷◌, none, some, inl, inr, any,
  if◌then◌else◌, keep, map, Bool-cases, ap, ◌≡◌, refl, arith,
}
use bons_ci.Base.Sort.{Distinct}
use bons_ci.Content.{not_found, Status, Store, IsLawful}
use bons_ci.Content.Fanout.{fanout, results_of, filter_not_found}
use bons_ci.Content.Fanout.Laws.{has_any, fanout-IsLawful}
use bons_ci.Content.Fanout.Statuses.{named, lists, list_statuses_lem}

abbrev has : List Str → Str → Bool
has s d = any (str_eqb d) s

-- A store that has no metadata; each digest is also the reference of a write that goes on.
abbrev digests : Store (List Str)
digests = record {
  info = λ s d. if has s d then inr (record { digest = d; labels = [] }) else inl not_found;
  delete = λ s d. (keep (λ e. not (str_eqb d e)) s, if has s d then none else some not_found);
  abort = λ s ref. (s, some not_found);
  update = λ s i. (s, (i, none));
  status = λ s ref. inl not_found;
  list_statuses = λ s. inr (map (λ d. record { ref = d; offset = [] }) s);
}

has-keep :
    (s : List Str) (d e : Str)
    → has (keep (λ x. not (str_eqb d x)) s) e ≡ (if str_eqb d e then false else has s e)
has-keep [] d e = ground arith
has-keep (x ∷ s) d e = elim (Bool-cases (str_eqb e x)) [
  | inl p ↦
      let same : str_eqb d e ≡ str_eqb d x = ap (str_eqb d) ((str_eqb_iff e x).0 p) in
      ground (arith, p, same, has-keep s d e)
  | inr n ↦ ground (arith, n, has-keep s d e)
]

digests-IsLawful : IsLawful digests has
digests-IsLawful = record {
  info-has = λ s d h. (record { digest = d; labels = [] }, rw h refl);
  info-misses = λ s d h. rw h refl;
  delete-has = λ s d h. rw h refl;
  delete-misses = λ s d h. rw h refl;
  has-delete = λ s d e. has-keep s d e;
}

abbrev a : Str
a = codes "a"

abbrev b : Str
b = codes "b"

fanout-IsLawful_example : IsLawful (fanout digests) (has_any digests has digests-IsLawful)
fanout-IsLawful_example = fanout-IsLawful digests has digests-IsLawful

list_statuses_lem_example :
    let rs = results_of digests.list_statuses ((a ∷ b ∷ []) ∷ (b ∷ []) ∷ []) in
    (sts : List Status) × ((fanout digests).list_statuses (a ∷ b ∷ [], (b ∷ []) ∷ []) ≡ inr sts)
    × Distinct (λ st. st.ref) sts
    × ((r : Str) → named r sts ≡ any (lists r) rs)
list_statuses_lem_example = list_statuses_lem digests (a ∷ b ∷ [], (b ∷ []) ∷ []) refl

-- A store that fails hides that the others do not have the content.
faulty :
    filter_not_found (not_found ∷ record { is_not_found = false; texts = a ∷ [] } ∷ []) 2
    ≡ some (record { is_not_found = false; texts = a ∷ [] })
faulty = refl
