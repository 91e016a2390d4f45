-- ===== src/Content/Split.antt =====
-- core/content/store/composite/split/store.go: reads from one store, and writes to others, at least one. Its state is
-- that of the store to read and those of the stores to write.
pub mod Findings
use bons_ci.Base.{
  Str, str_eqb, Bool, true, false, ◌||◌, List, [], ◌∷◌, Option, none, some, ◌⊎◌, inl, inr, any,
  if◌then◌else◌, codes, ◌≡◌, refl, sym, ◌∙◌, ap, arith,
}
use bons_ci.Content.{StoreError, not_found, Info, Status, Store, IsLawful}
use bons_ci.Content.Fanout.{Stores, all_stores, join, run_all, run_stores, update_errors, last_info}

-- What finds no answer in the stores to write.
abbrev pub first_or :
    {S A : Type 0} → StoreError ⊎ A → (S → StoreError ⊎ A) → List S → StoreError ⊎ A
first_or last f [] = last
first_or last f (s ∷ ss) =
    let rest = first_or last f ss in elim (f s) [ inr a ↦ inr a | inl e ↦ rest ]

abbrev pub first_error : List (Option StoreError) → Option StoreError
first_error [] = none
first_error (some e ∷ es) = some e
first_error (none ∷ es) = first_error es

-- The error where no store to write has an answer; its text is left out.
abbrev pub no_store : {A : Type 0} → StoreError ⊎ A
no_store = inl (record { is_not_found = false; texts = [] })

abbrev pub join_errors : List StoreError → Option StoreError
join_errors [] = none
join_errors (e ∷ es) = some (join (e ∷ es))

-- `New`, for stores to read and to write of one kind.
abbrev pub split : {S : Type 0} → Store S → Store (Stores S)
split c = record {
  info = λ ss d. first_or (c.info ss.0 d) (λ s. c.info s d) ss.1;
  delete = λ ss d. let (ts, rs) = run_stores (λ s. c.delete s d) ss in (ts, first_error rs);
  abort =
      λ ss ref. let (ts, rs) = run_all (λ s. c.abort s ref) ss.1 in ((ss.0, ts), first_error rs);
  update = λ ss i.
      let (ts, rs) = run_all (λ s. c.update s i) ss.1 in
      (
        (ss.0, ts),
        (last_info (record { digest = []; labels = [] }) rs, join_errors (update_errors rs)),
      );
  status = λ ss ref. first_or no_store (λ s. c.status s ref) ss.1;
  list_statuses = λ ss. first_or no_store c.list_statuses ss.1;
}
