-- ===== src/Content/Fanout/Laws.antt =====
-- core/content/store/composite/fanout/store.go: a fan-out over stores is a store.
use bons_ci.Base.{
  Str, str_eqb, ℕ, zero, suc, ◌==◌, ◌≤◌, Bool, true, false, List, [], ◌∷◌, none, some, inl, inr,
  any, length, if◌then◌else◌, replicate, ◌≡◌, refl, ◌∙◌, ap, arith, Bool-cases,
}
use bons_ci.Content.{not_found, Info, Store, IsLawful}
use bons_ci.Content.Fanout.{
  Stores, all_stores, real_errors, not_found_count, filter_not_found, first_of, non_nil, run_all,
  parallel, fanout,
}

real_errors-replicate : (n : ℕ) → real_errors (replicate n not_found) ≡ []
real_errors-replicate zero = refl
real_errors-replicate (suc n) = real_errors-replicate n

not_found_count-replicate : (n : ℕ) → not_found_count (replicate n not_found) ≡ n
not_found_count-replicate zero = refl
not_found_count-replicate (suc n) = omega (arith, not_found_count-replicate n)

-- Only missing content is reported where every store misses it.
filter_not_found-replicate :
    (n total : ℕ)
    → filter_not_found (replicate (suc n) not_found) total
      ≡ (if suc n == total then some not_found else none)
filter_not_found-replicate n total =
    rw (real_errors-replicate n, filter_not_found)
      (ap (λ k. if k == total then some not_found else none)
        (omega (arith, not_found_count-replicate n)))

module _ {S : Type 0} (c : Store S) (has : S → Str → Bool) (lawful : IsLawful c has) where
  open lawful use {info-has, info-misses, delete-has, delete-misses, has-delete}

  -- One of the stores has it.
  abbrev pub has_any : Stores S → Str → Bool
  has_any ss d = any (λ s. has s d) (all_stores ss)

  missing : List S → Str → ℕ
  missing [] d = 0
  missing (s ∷ ss) d = if has s d then missing ss d else suc (missing ss d)

  first_of-has :
      (ss : List S) (d : Str)
      → any (λ s. has s d) ss ≡ true
      → (i : Info) × (first_of (λ s. c.info s d) ss ≡ inr i)
  first_of-has [] d h = cc
  first_of-has (s ∷ ss) d h = elim (Bool-cases (has s d)) [
    | inl held ↦ let (i, e) = info-has s d held in (i, rw (e, first_of) refl)
    | inr lost ↦
        let (i, e) = first_of-has ss d (ground (arith, h, lost)) in
        (i, rw (info-misses s d lost, first_of) e)
  ]

  first_of-misses :
      (ss : List S) (d : Str)
      → any (λ s. has s d) ss ≡ false
      → first_of (λ s. c.info s d) ss ≡ inl not_found
  first_of-misses [] d h = refl
  first_of-misses (s ∷ ss) d h =
      rw (info-misses s d (ground (arith, h)), first_of) (first_of-misses ss d (ground (arith, h)))

  non_nil-run_all :
      (ss : List S) (d : Str)
      → non_nil (run_all (λ s. c.delete s d) ss).1 ≡ replicate (missing ss d) not_found
  unfolding missing
  non_nil-run_all [] d = refl
  non_nil-run_all (s ∷ ss) d = elim (Bool-cases (has s d)) [
    | inl held ↦ rw (delete-has s d held, held, non_nil) (non_nil-run_all ss d)
    | inr lost ↦
        rw (delete-misses s d lost, lost, non_nil) (ap (λ l. not_found ∷ l) (non_nil-run_all ss d))
  ]

  missing-le : (ss : List S) (d : Str) → missing ss d ≤ length ss
  unfolding missing
  missing-le [] d = omega arith
  missing-le (s ∷ ss) d = ground (arith, missing-le ss d)

  missing_all :
      (ss : List S) (d : Str)
      → (missing ss d == length ss) ≡ (if any (λ s. has s d) ss then false else true)
  unfolding missing
  missing_all [] d = refl
  missing_all (s ∷ ss) d = ground (arith, missing_all ss d, missing-le ss d)

  pub any-run_all :
      (ss : List S) (d e : Str)
      → any (λ s. has s e) (run_all (λ s. c.delete s d) ss).0
        ≡ (if str_eqb d e then false else any (λ s. has s e) ss)
  any-run_all [] d e = ground arith
  any-run_all (s ∷ ss) d e = ground (arith, has-delete s d e, any-run_all ss d e)

  delete_answer :
      (s : S) (ss : List S) (d : Str)
      → (parallel (λ x. c.delete x d) (s, ss)).1
        ≡ filter_not_found (replicate (missing (s ∷ ss) d) not_found) (length (s ∷ ss))
  delete_answer s ss d =
      ap (λ es. filter_not_found es (length (s ∷ ss))) (non_nil-run_all (s ∷ ss) d)

  filter-missing :
      (ss : Stores S) (d : Str) (n : ℕ)
      → missing (all_stores ss) d ≡ n
      → filter_not_found (replicate n not_found) (length (all_stores ss))
        ≡ (if has_any ss d then none else some not_found)
  unfolding missing
  filter-missing ss d zero e = ground (arith, e, missing_all (all_stores ss) d)
  filter-missing ss d (suc n) e =
      filter_not_found-replicate n (length (all_stores ss))
      ∙ (ground (arith, e, missing_all (all_stores ss) d))

  delete_lem :
      (ss : Stores S) (d : Str)
      → ((fanout c).delete ss d).1 ≡ (if has_any ss d then none else some not_found)
  delete_lem (s, ss) d = delete_answer s ss d ∙ filter-missing (s, ss) d (missing (s ∷ ss) d) refl

  -- A fan-out over stores without faults is a store without faults: it has what any of them has, finds it, reports content as missing
  -- exactly if no store has it, and deletes it everywhere.
  pub fanout-IsLawful : IsLawful (fanout c) has_any
  fanout-IsLawful = record {
    info-has = λ ss d h. first_of-has (all_stores ss) d h;
    info-misses = λ ss d h. first_of-misses (all_stores ss) d h;
    delete-has = λ ss d h. delete_lem ss d ∙ (rw h refl);
    delete-misses = λ ss d h. delete_lem ss d ∙ (rw h refl);
    has-delete = λ ss d e. any-run_all (all_stores ss) d e;
  }
