-- ===== src/Executors/Pool/Laws.antt =====
-- pkg/executors/network/cniprovider/pool.go: no namespace is lost, handed out twice or released twice.
use bons_ci.Base.{
  ℕ, suc, ◌+◌, ◌==◌, Bool, true, false, List, [], ◌∷◌, ◌++◌, ◌≡◌, inl, inr, refl, sym, ◌∙◌, ap,
  subst, arith, if◌then◌else◌, if_true, if_false, ltb, length, Bool-cases,
}
use bons_ci.Executors.Pool.{
  CniNs, NsPool, get, register, AfterPut, kept, above_target, to_release, put, schedule,
  cleanup_to_target_size, end_cleanup, close, evict,
}
use bons_ci.Executors.Pool.Places.{
  count, count-append, count-middle, count-ids, ids, pop_last-cases, length-append_one, evict-count,
  evict-length, length-evict,
}
use bons_ci.Executors.Pool.Steps.{
  System, start, taken, created, registered, given_back, scheduled, cleaned, closed_by, Step, take,
  create, allocate, give_back, start_timer, clean_up, finish_cleanup, close_pool, release, Steps,
  stay, then_step,
}

-- How often a namespace stands in one of the places.
abbrev pub places : System → ℕ → ℕ
places s i =
    count i (ids s.pool.available)
    + count i s.in_use
    + count i s.pending
    + count i s.releasing
    + count i s.released

pub record IsSound (s : System) : Type 0 where
  -- What is created is in one place, and what is not is in none.
  pub one_place : (i : ℕ) → places s i ≡ (if ltb i s.next then 1 else 0)
  -- An open pool counts what is available and what is in use; a closed one has nothing available.
  pub sized : s.pool.closed ≡ false → s.pool.actual_size ≡ length s.pool.available + length s.in_use
  pub emptied : s.pool.closed ≡ true → s.pool.available ≡ []
  -- There is at most one cleanup.
  pub one_cleanup : s.timers + s.cleaning ≡ (if s.pool.cleanup_scheduled then 1 else 0)

start-IsSound : (target_size : ℕ) → IsSound (start target_size)
start-IsSound target_size = record {
  one_place = λ i. ground arith;
  sized = λ h. omega arith;
  emptied = λ h. refl;
  one_cleanup = omega arith;
}

take-IsSound : (s : System) → IsSound s → IsSound (taken s (get s.pool))
take-IsSound s v = elim (pop_last-cases s.pool.available) [
  | inl (e, f) ↦ rw (e, get) v
  | inr (rest, x, e, f) ↦
      rw (e, get)
        (record {
          one_place =
              λ i. omega (arith, v.one_place i, ap (λ l. count i (ids l)) f, count-ids i rest x);
          sized = λ h. omega (arith, v.sized h, ap (λ l. length l) f, length-append_one rest x);
          emptied = λ h.
              absurd
                (omega (arith, ap (λ l. length l) (sym f ∙ v.emptied h), length-append_one rest x));
          one_cleanup = v.one_cleanup;
        })
]

create-IsSound : (s : System) → IsSound s → IsSound (created s)
create-IsSound s v = record {
  one_place = λ i. ground (arith, v.one_place i);
  sized = v.sized;
  emptied = v.emptied;
  one_cleanup = v.one_cleanup;
}

allocate-IsSound :
    (s : System) (a b : List ℕ) (i : ℕ)
    → s.pending ≡ a ++ i ∷ b
    → IsSound s
    → IsSound (registered s (a ++ b) i (register s.pool))
allocate-IsSound s a b i e v =
    let more : NsPool = record s.pool { actual_size = s.pool.actual_size + 1 } in
    let sound = λ (r : NsPool × Bool). IsSound (registered s (a ++ b) i r) in
    elim (Bool-cases s.pool.closed) [
      | inl shut ↦ subst sound (sym (if_true (s.pool, false) (more, true) shut)) (record {
        one_place = λ j. omega (arith, v.one_place j, ap (count j) e, count-middle j i a b);
        sized = v.sized;
        emptied = v.emptied;
        one_cleanup = v.one_cleanup;
      })
      | inr open_ ↦ subst sound (sym (if_false (s.pool, false) (more, true) open_)) (record {
        one_place = λ j. omega (arith, v.one_place j, ap (count j) e, count-middle j i a b);
        sized = λ h. omega (arith, v.sized h);
        emptied = v.emptied;
        one_cleanup = v.one_cleanup;
      })
    ]

length-middle : (i : ℕ) (a b : List ℕ) → length (a ++ i ∷ b) ≡ suc (length (a ++ b))
length-middle i [] b = refl
length-middle i (x ∷ a) b = ap suc (length-middle i a b)

give_back-IsSound :
    (s : System) (now : ℕ) (a b : List ℕ) (i : ℕ)
    → s.in_use ≡ a ++ i ∷ b
    → IsSound s
    → IsSound (given_back s (a ++ b) i (put now s.pool i))
give_back-IsSound s now a b i e v =
    let ns : CniNs = record { id = i; last_used = now } in
    let more : NsPool = record s.pool { available = s.pool.available ++ ns ∷ [] } in
    let high = ltb s.pool.target_size s.pool.actual_size in
    let after = if high then above_target else kept in
    let sound = λ (r : NsPool × AfterPut). IsSound (given_back s (a ++ b) i r) in
    let one : (j : ℕ) → count j s.in_use ≡ (if i == j then 1 else 0) + count j (a ++ b) =
      λ j. ap (count j) e ∙ count-middle j i a b in
    let size : length s.in_use ≡ suc (length (a ++ b)) =
      ap (λ l. length l) e ∙ length-middle i a b in
    let longer = length-append_one s.pool.available ns in
    elim (Bool-cases s.pool.closed) [
      | inl shut ↦ subst sound (sym (if_true (s.pool, to_release) (more, after) shut)) (record {
        one_place = λ j. omega (arith, v.one_place j, one j);
        sized = λ h. cc (h, shut);
        emptied = v.emptied;
        one_cleanup = v.one_cleanup;
      })
      | inr open_ ↦
          subst sound (sym (if_false (s.pool, to_release) (more, after) open_))
            (elim (Bool-cases high) [
              | inl up ↦
                  subst (λ o. sound (more, o)) (sym (if_true above_target kept up))
                    (record {
                      one_place =
                          λ j. omega (arith, v.one_place j, one j, count-ids j s.pool.available ns);
                      sized = λ h. omega (arith, v.sized h, size, longer);
                      emptied = λ h. cc (h, open_);
                      one_cleanup = v.one_cleanup;
                    })
              | inr low ↦
                  subst (λ o. sound (more, o)) (sym (if_false above_target kept low))
                    (record {
                      one_place =
                          λ j. omega (arith, v.one_place j, one j, count-ids j s.pool.available ns);
                      sized = λ h. omega (arith, v.sized h, size, longer);
                      emptied = λ h. cc (h, open_);
                      one_cleanup = v.one_cleanup;
                    })
            ])
    ]

start_timer-IsSound :
    (s : System) (n : ℕ) → s.above ≡ suc n → IsSound s → IsSound (scheduled s n (schedule s.pool))
start_timer-IsSound s n e v =
    let marked : NsPool = record s.pool { cleanup_scheduled = true } in
    let sound = λ (r : NsPool × Bool). IsSound (scheduled s n r) in
    elim (Bool-cases s.pool.cleanup_scheduled) [
      | inl on ↦ subst sound (sym (if_true (s.pool, false) (marked, true) on)) (record {
        one_place = v.one_place;
        sized = v.sized;
        emptied = v.emptied;
        one_cleanup = v.one_cleanup;
      })
      | inr off ↦ subst sound (sym (if_false (s.pool, false) (marked, true) off)) (record {
        one_place = v.one_place;
        sized = v.sized;
        emptied = v.emptied;
        one_cleanup = ground (arith, v.one_cleanup, off);
      })
    ]

clean_up-IsSound :
    (s : System) (now n : ℕ)
    → s.timers ≡ suc n
    → IsSound s
    → IsSound (cleaned s n (cleanup_to_target_size now s.pool))
clean_up-IsSound s now n e v =
    let p = s.pool in
    let cut = evict now p.target_size p.actual_size p.available in
    record {
      one_place = λ j. omega (
        arith,
        v.one_place j,
        evict-count j now p.target_size p.actual_size p.available,
        count-append j (ids cut.released) s.releasing,
      );
      sized = λ h. omega (
        arith,
        v.sized h,
        evict-length now p.target_size p.actual_size p.available,
        length-evict now p.target_size p.actual_size p.available,
      );
      emptied = λ h. ap (λ l. (evict now p.target_size p.actual_size l).available) (v.emptied h);
      one_cleanup = omega (arith, v.one_cleanup, e);
    }

finish_cleanup-IsSound :
    (s : System) (n : ℕ)
    → s.cleaning ≡ suc n
    → IsSound s
    → IsSound (record s { pool = end_cleanup s.pool; cleaning = n })
finish_cleanup-IsSound s n e v = record {
  one_place = v.one_place;
  sized = v.sized;
  emptied = v.emptied;
  one_cleanup = ground (arith, v.one_cleanup, e);
}

close_pool-IsSound : (s : System) → IsSound s → IsSound (closed_by s (close s.pool))
close_pool-IsSound s v = record {
  one_place = λ j. omega (arith, v.one_place j, count-append j (ids s.pool.available) s.releasing);
  sized = λ h. cc;
  emptied = λ h. refl;
  one_cleanup = v.one_cleanup;
}

release-IsSound :
    (s : System) (a b : List ℕ) (i : ℕ)
    → s.releasing ≡ a ++ i ∷ b
    → IsSound s
    → IsSound (record s { releasing = a ++ b; released = i ∷ s.released })
release-IsSound s a b i e v = record {
  one_place = λ j. omega (arith, v.one_place j, ap (count j) e, count-middle j i a b);
  sized = v.sized;
  emptied = v.emptied;
  one_cleanup = v.one_cleanup;
}

pub step-IsSound : {s t : System} → Step s t → IsSound s → IsSound t
step-IsSound (take s) v = take-IsSound s v
step-IsSound (create s) v = create-IsSound s v
step-IsSound (allocate s a b i e) v = allocate-IsSound s a b i e v
step-IsSound (give_back s now a b i e) v = give_back-IsSound s now a b i e v
step-IsSound (start_timer s n e) v = start_timer-IsSound s n e v
step-IsSound (clean_up s now n e) v = clean_up-IsSound s now n e v
step-IsSound (finish_cleanup s n e) v = finish_cleanup-IsSound s n e v
step-IsSound (close_pool s) v = close_pool-IsSound s v
step-IsSound (release s a b i e) v = release-IsSound s a b i e v

steps-IsSound : {s t : System} → Steps s t → IsSound s → IsSound t
steps-IsSound (stay s) v = v
steps-IsSound (then_step p x) v = step-IsSound x (steps-IsSound p v)

-- In every state that a new pool reaches, each namespace created so far is in one place, once (available, in use, on its way into
-- the pool, to be released, or released) and no other namespace is in any; an open pool counts what is available and what is in use, a
-- closed one has nothing available, and there is at most one cleanup.
pub reachable-IsSound : (target_size : ℕ) (s : System) → Steps (start target_size) s → IsSound s
reachable-IsSound target_size s p = steps-IsSound p (start-IsSound target_size)
