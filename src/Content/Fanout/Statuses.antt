-- ===== src/Content/Fanout/Statuses.antt =====
-- core/content/store/composite/fanout/store.go: the statuses of all stores, without repetition.
use bons_ci.Base.{
  Str, str_eqb, str_eqb_iff, ◌==◌, Bool, true, false, not, ◌&&◌, ◌||◌, List, [], ◌∷◌, ◌++◌, ◌⊎◌,
  inl, inr, any, any-append, length, ◌≡◌, refl, ◌∙◌, ap, arith, Bool-cases,
}
use bons_ci.Base.Sort.{Distinct}
use bons_ci.Content.{StoreError, Status, Store}
use bons_ci.Content.Fanout.{
  Stores, all_stores, new_statuses, join_statuses, results_of, errors_of, list_all, fanout,
}

-- A status has the reference.
abbrev pub named : Str → List Status → Bool
named r sts = any (λ st. str_eqb r st.ref) sts

abbrev pub lists : Str → StoreError ⊎ List Status → Bool
lists r (inl e) = false
lists r (inr sts) = named r sts

named-new_statuses :
    (r : Str) (seen : List Str) (sts : List Status)
    → named r (new_statuses seen sts).1 ≡ (not (any (str_eqb r) seen) && named r sts)
named-new_statuses r seen [] = ground arith
named-new_statuses r seen (st ∷ sts) = elim (Bool-cases (str_eqb r st.ref)) [
  | inl e ↦
      let same : any (str_eqb r) seen ≡ any (str_eqb st.ref) seen =
        ap (λ x. any (str_eqb x) seen) ((str_eqb_iff r st.ref).0 e) in
      ground
        (arith, e, same, named-new_statuses r seen sts, named-new_statuses r (st.ref ∷ seen) sts)
  | inr n ↦
      ground (arith, n, named-new_statuses r seen sts, named-new_statuses r (st.ref ∷ seen) sts)
]

seen-new_statuses :
    (r : Str) (seen : List Str) (sts : List Status)
    → any (str_eqb r) (new_statuses seen sts).0 ≡ (any (str_eqb r) seen || named r sts)
seen-new_statuses r seen [] = ground arith
seen-new_statuses r seen (st ∷ sts) = elim (Bool-cases (str_eqb r st.ref)) [
  | inl e ↦
      let same : any (str_eqb r) seen ≡ any (str_eqb st.ref) seen =
        ap (λ x. any (str_eqb x) seen) ((str_eqb_iff r st.ref).0 e) in
      ground (arith, e, same, seen-new_statuses r seen sts, seen-new_statuses r (st.ref ∷ seen) sts)
  | inr n ↦ ground (arith, n, seen-new_statuses r seen sts, seen-new_statuses r (st.ref ∷ seen) sts)
]

Distinct-new_statuses :
    (seen : List Str) (sts : List Status) → Distinct (λ st. st.ref) (new_statuses seen sts).1
Distinct-new_statuses seen [] = tt
Distinct-new_statuses seen (st ∷ sts) = elim (Bool-cases (any (str_eqb st.ref) seen)) [
  | inl old ↦ rw (old, new_statuses) (Distinct-new_statuses seen sts)
  | inr new ↦
      rw (new, new_statuses)
        (
          ground (arith, named-new_statuses st.ref (st.ref ∷ seen) sts, str_eqb_iff st.ref st.ref),
          Distinct-new_statuses (st.ref ∷ seen) sts,
        )
]

named-join_statuses :
    (r : Str) (seen : List Str) (rs : List (StoreError ⊎ List Status))
    → named r (join_statuses seen rs) ≡ (not (any (str_eqb r) seen) && any (lists r) rs)
named-join_statuses r seen [] = ground arith
named-join_statuses r seen (inl e ∷ rs) = named-join_statuses r seen rs
named-join_statuses r seen (inr sts ∷ rs) =
    let (seen', new) = new_statuses seen sts in
    any-append (λ st. str_eqb r st.ref) new (join_statuses seen' rs)
    ∙ (ground (
      arith,
      named-new_statuses r seen sts,
      seen-new_statuses r seen sts,
      named-join_statuses r seen' rs,
    ))

Distinct-append :
    (xs ys : List Status)
    → Distinct (λ st. st.ref) xs
    → Distinct (λ st. st.ref) ys
    → ((r : Str) → named r xs ≡ true → named r ys ≡ false)
    → Distinct (λ st. st.ref) (xs ++ ys)
Distinct-append [] ys u v d = v
Distinct-append (x ∷ xs) ys u v d = (
  any-append (λ st. str_eqb x.ref st.ref) xs ys
      ∙ (ground (arith, u.0, d x.ref (ground (arith, str_eqb_iff x.ref x.ref)))),
  Distinct-append xs ys u.1 v (λ r h. d r (ground (arith, h))),
)

Distinct-join_statuses :
    (seen : List Str) (rs : List (StoreError ⊎ List Status))
    → Distinct (λ st. st.ref) (join_statuses seen rs)
Distinct-join_statuses seen [] = tt
Distinct-join_statuses seen (inl e ∷ rs) = Distinct-join_statuses seen rs
Distinct-join_statuses seen (inr sts ∷ rs) =
    let (seen', new) = new_statuses seen sts in
    Distinct-append new (join_statuses seen' rs) (Distinct-new_statuses seen sts)
      (Distinct-join_statuses seen' rs)
      (λ r h. ground (
        arith,
        h,
        named-new_statuses r seen sts,
        seen-new_statuses r seen sts,
        named-join_statuses r seen' rs,
      ))

-- Where some store lists its statuses, the fan-out lists statuses of different references: exactly the references that some
-- store which does not fail lists.
pub list_statuses_lem :
    {S : Type 0}
    → (c : Store S) (ss : Stores S)
    → let rs = results_of c.list_statuses (all_stores ss) in
      (length (errors_of rs) == length (all_stores ss)) ≡ false
      → (sts : List Status) × ((fanout c).list_statuses ss ≡ inr sts)
        × Distinct (λ st. st.ref) sts
        × ((r : Str) → named r sts ≡ any (lists r) rs)
list_statuses_lem c ss h =
    let rs = results_of c.list_statuses (all_stores ss) in
    (
      join_statuses [] rs,
      rw (h, list_all) refl,
      Distinct-join_statuses [] rs,
      λ r. named-join_statuses r [] rs ∙ (ground arith),
    )
