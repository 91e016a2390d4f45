-- ===== src/Content/Fanout.antt =====
-- core/content/store/composite/fanout/store.go: every operation goes to all stores. Its state is that of
-- the first store and those of the others. The stores share nothing, so that goroutines are the order of a list.
pub mod Laws
pub mod Statuses
use bons_ci.Base.{
  Str, str_eqb, ℕ, ◌==◌, ◌+◌, Bool, true, false, List, [], ◌∷◌, ◌++◌, Option, none, some, ◌⊎◌, inl,
  inr, any, length, if◌then◌else◌,
}
use bons_ci.Content.{StoreError, not_found, Info, Status, Store}

abbrev pub Stores : Type 0 → Type 0
Stores S = S × List S

abbrev pub all_stores : {S : Type 0} → Stores S → List S
all_stores (s, ss) = s ∷ ss

abbrev pub real_errors : List StoreError → List StoreError
real_errors [] = []
real_errors (e ∷ es) = if e.is_not_found then real_errors es else e ∷ real_errors es

abbrev pub not_found_count : List StoreError → ℕ
not_found_count [] = 0
not_found_count (e ∷ es) = (if e.is_not_found then 1 else 0) + not_found_count es

abbrev pub texts_of : List StoreError → List Str
texts_of [] = []
texts_of (e ∷ es) = e.texts ++ texts_of es

-- `errors.Join` of errors that are not nil, at least one.
abbrev pub join : List StoreError → StoreError
join es = record { is_not_found = any (λ e. e.is_not_found) es; texts = texts_of es }

abbrev pub filter_not_found : List StoreError → ℕ → Option StoreError
filter_not_found [] total = none
filter_not_found (e ∷ es) total = elim (real_errors (e ∷ es)) [
  | [] ↦ if not_found_count (e ∷ es) == total then some not_found else none
  | r ∷ rs ↦ some (join (r ∷ rs))
]

-- The first result that is not an error, and `ErrNotFound` otherwise.
abbrev pub first_of : {S A : Type 0} → (S → StoreError ⊎ A) → List S → StoreError ⊎ A
first_of f [] = inl not_found
first_of f (s ∷ ss) = let rest = first_of f ss in elim (f s) [ inr a ↦ inr a | inl e ↦ rest ]

abbrev pub non_nil : List (Option StoreError) → List StoreError
non_nil [] = []
non_nil (none ∷ es) = non_nil es
non_nil (some e ∷ es) = e ∷ non_nil es

-- The states and the results of a function on every store.
abbrev pub run_all : {S R : Type 0} → (S → S × R) → List S → List S × List R
run_all f [] = ([], [])
run_all f (s ∷ ss) = let (t, r) = f s in let (ts, rs) = run_all f ss in (t ∷ ts, r ∷ rs)

abbrev pub run_stores : {S R : Type 0} → (S → S × R) → Stores S → Stores S × List R
run_stores f (s, ss) = let (t, r) = f s in let (ts, rs) = run_all f ss in ((t, ts), r ∷ rs)

abbrev pub parallel :
    {S : Type 0} → (S → S × Option StoreError) → Stores S → Stores S × Option StoreError
parallel f ss =
    let (ts, rs) = run_stores f ss in (ts, filter_not_found (non_nil rs) (length (all_stores ss)))

abbrev pub errors_of : {A : Type 0} → List (StoreError ⊎ A) → List StoreError
errors_of [] = []
errors_of (inl e ∷ rs) = e ∷ errors_of rs
errors_of (inr a ∷ rs) = errors_of rs

-- The errors of the updates, and the result of the last one that has none.
abbrev pub update_errors : List (Info × Option StoreError) → List StoreError
update_errors [] = []
update_errors ((i, none) ∷ rs) = update_errors rs
update_errors ((i, some e) ∷ rs) = e ∷ update_errors rs

abbrev pub last_info : Info → List (Info × Option StoreError) → Info
last_info last [] = last
last_info last ((i, none) ∷ rs) = last_info i rs
last_info last ((i, some e) ∷ rs) = last_info last rs

-- `Update`
abbrev pub update_all :
    {S : Type 0} → Store S → Stores S → Info → Stores S × (Info × Option StoreError)
update_all c ss i =
    let (ts, rs) = run_stores (λ s. c.update s i) ss in
    (
      ts,
      (
        last_info (record { digest = []; labels = [] }) rs,
        filter_not_found (update_errors rs) (length (all_stores ss)),
      ),
    )

-- The statuses whose references were not seen.
abbrev pub new_statuses : List Str → List Status → List Str × List Status
new_statuses seen [] = (seen, [])
new_statuses seen (st ∷ sts) =
    let (kept, rest) = new_statuses (st.ref ∷ seen) sts in
    let skipped = new_statuses seen sts in
    if any (str_eqb st.ref) seen then skipped else (kept, st ∷ rest)

abbrev pub join_statuses : List Str → List (StoreError ⊎ List Status) → List Status
join_statuses seen [] = []
join_statuses seen (inl e ∷ rs) = join_statuses seen rs
join_statuses seen (inr sts ∷ rs) =
    let (seen', new) = new_statuses seen sts in new ++ join_statuses seen' rs

abbrev pub results_of : {S A : Type 0} → (S → A) → List S → List A
results_of f [] = []
results_of f (s ∷ ss) = f s ∷ results_of f ss

-- `ListStatuses`: it fails only if every store does.
abbrev pub list_all : {S : Type 0} → Store S → Stores S → StoreError ⊎ List Status
list_all c ss =
    let rs = results_of c.list_statuses (all_stores ss) in
    if length (errors_of rs) == length (all_stores ss)
    then inl (join (errors_of rs))
    else inr (join_statuses [] rs)

-- `New`
abbrev pub fanout : {S : Type 0} → Store S → Store (Stores S)
fanout c = record {
  info = λ ss d. first_of (λ s. c.info s d) (all_stores ss);
  delete = λ ss d. parallel (λ s. c.delete s d) ss;
  abort = λ ss ref. parallel (λ s. c.abort s ref) ss;
  update = update_all c;
  status = λ ss ref. first_of (λ s. c.status s ref) (all_stores ss);
  list_statuses = list_all c;
}
