-- ===== src/Executors/Pool/Cleanup.antt =====
-- pkg/executors/network/cniprovider/pool.go: which namespaces a cleanup takes, the order of get and put, and the filler.
use bons_ci.Base.{
  ℕ, suc, ◌+◌, ◌-◌, ◌≤◌, Bool, true, false, ◌&&◌, List, [], ◌∷◌, ◌++◌, Option, none, some, ◌≡◌,
  refl, sym, ◌∙◌, ap, subst, arith, if◌then◌else◌, if_true, if_false, ltb, leb, length, all,
  Bool-cases, inl, inr,
}
use bons_ci.Executors.Pool.{
  CniNs, NsPool, get, put, evict, cleanup_to_target_size, above_target_grace_period, fill_loop,
}
use bons_ci.Executors.Pool.Places.{
  register_open, put_open, with_last, pop_last-append, evict-length, length-append_one,
}

abbrev pub is_idle : ℕ → CniNs → Bool
is_idle now ns = leb above_target_grace_period (now - ns.last_used)

-- The first namespace is idle.
abbrev pub head_is_idle : ℕ → List CniNs → Bool
head_is_idle now [] = false
head_is_idle now (ns ∷ rest) = is_idle now ns

evict-append :
    (now target n : ℕ) (xs : List CniNs)
    → xs ≡ (evict now target n xs).released ++ (evict now target n xs).available
evict-append now target n [] = refl
evict-append now target n (x ∷ xs) = ground (arith, evict-append now target (n - 1) xs)

evict-is_idle :
    (now target n : ℕ) (xs : List CniNs) → all (is_idle now) (evict now target n xs).released ≡ true
evict-is_idle now target n [] = refl
evict-is_idle now target n (x ∷ xs) = ground (arith, evict-is_idle now target (n - 1) xs)

evict_ends :
    (now target n : ℕ) (xs : List CniNs)
    → (ltb target (evict now target n xs).actual_size
        && head_is_idle now (evict now target n xs).available)
      ≡ false
evict_ends now target n [] = ground arith
evict_ends now target n (x ∷ xs) = ground (arith, evict_ends now target (n - 1) xs)

evict-target :
    (now target n : ℕ) (xs : List CniNs) → target ≤ n → target ≤ (evict now target n xs).actual_size
evict-target now target n [] h = h
evict-target now target n (x ∷ xs) h = ground (arith, evict-target now target (n - 1) xs)

-- A cleanup of a pool that is not below its target takes namespaces from the least recently used on, each of them
-- idle for the grace period, and counts them; it never goes below the target, and ends at the target or where the next
-- namespace is not idle or there is none.
pub cleanup_to_target_size_lem :
    (now : ℕ) (p : NsPool)
    → p.target_size ≤ p.actual_size
    → let (q, out) = cleanup_to_target_size now p in
      (p.available ≡ out ++ q.available)
      × (q.actual_size + length out ≡ p.actual_size)
      × (all (is_idle now) out ≡ true)
      × (p.target_size ≤ q.actual_size)
      × ((ltb p.target_size q.actual_size && head_is_idle now q.available) ≡ false)
cleanup_to_target_size_lem now p h =
    let n = p.actual_size in
    (
      evict-append now p.target_size n p.available,
      evict-length now p.target_size n p.available,
      evict-is_idle now p.target_size n p.available,
      evict-target now p.target_size n p.available h,
      evict_ends now p.target_size n p.available,
    )

-- In an open pool, what was put last is what get gives, and the other namespaces stay.
pub get-put :
    (now : ℕ) (p : NsPool) (i : ℕ)
    → p.closed ≡ false
    → get (put now p i).0 ≡ (p, some (record { id = i; last_used = now }))
get-put now p i h =
    ap get (put_open now p i h)
    ∙ (rw (pop_last-append p.available (record { id = i; last_used = now }), get) refl)

-- The namespaces of a list of results.
abbrev pub successes : List (Option ℕ) → ℕ
successes [] = 0
successes (none ∷ rs) = successes rs
successes (some i ∷ rs) = suc (successes rs)

abbrev grown : ℕ → NsPool → ℕ → NsPool
grown now p i = with_last now (record p { actual_size = p.actual_size + 1 }) i

module _ (now : ℕ) (p : NsPool) (rs : List (Option ℕ)) (h : p.closed ≡ false) where
  fill_full : (r : Option ℕ) → leb p.target_size p.actual_size ≡ true → fill_loop now p (r ∷ rs) ≡ p
  unfolding fill_loop
  fill_full none k = if_false _ _ h ∙ if_true _ _ k
  fill_full (some i) k = if_false _ _ h ∙ if_true _ _ k

  fill_retry :
      leb p.target_size p.actual_size ≡ false → fill_loop now p (none ∷ rs) ≡ fill_loop now p rs
  unfolding fill_loop
  fill_retry k = if_false _ _ h ∙ if_false _ _ k

  fill_grown :
      (i : ℕ)
      → leb p.target_size p.actual_size ≡ false
      → fill_loop now p (some i ∷ rs) ≡ fill_loop now (grown now p i) rs
  unfolding fill_loop
  fill_grown i k =
      if_false _ _ h
      ∙ if_false _ _ k
      ∙ ap (λ q. fill_loop now q rs)
          (ap {A = NsPool × Bool} (λ r. (put now r.0 i).0) (register_open p h)
            ∙ put_open now (record p { actual_size = p.actual_size + 1 }) i h)

abbrev IsFilled : NsPool → List (Option ℕ) → NsPool → Type 0
IsFilled p rs q =
    (q.actual_size ≡ (
      if leb p.target_size (p.actual_size + successes rs)
      then p.target_size
      else p.actual_size + successes rs))
    × (q.actual_size + length p.available ≡ p.actual_size + length q.available)

-- While nobody else uses an open pool that is not above its target, the filler brings it up to the target, or as far as namespaces are
-- created, and makes as many available as it adds.
pub fill_loop_lem :
    (now : ℕ) (p : NsPool) (rs : List (Option ℕ))
    → p.closed ≡ false
    → p.actual_size ≤ p.target_size
    → let q = fill_loop now p rs in
      (q.actual_size ≡ (
        if leb p.target_size (p.actual_size + successes rs)
        then p.target_size
        else p.actual_size + successes rs))
      × (q.actual_size + length p.available ≡ p.actual_size + length q.available)
unfolding fill_loop
fill_loop_lem now p [] h k = ground (arith, k)
fill_loop_lem now p (none ∷ rs) h k = elim (Bool-cases (leb p.target_size p.actual_size)) [
  | inl full ↦
      subst (IsFilled p (none ∷ rs)) (sym (fill_full now p rs h none full))
        (ground (arith, k, full))
  | inr room ↦
      subst (IsFilled p (none ∷ rs)) (sym (fill_retry now p rs h room)) (fill_loop_lem now p rs h k)
]
fill_loop_lem now p (some i ∷ rs) h k = elim (Bool-cases (leb p.target_size p.actual_size)) [
  | inl full ↦
      subst (IsFilled p (some i ∷ rs)) (sym (fill_full now p rs h (some i) full))
        (ground (arith, k, full))
  | inr room ↦
      let (size, held) = fill_loop_lem now (grown now p i) rs h (ground (arith, k, room)) in
      subst (IsFilled p (some i ∷ rs)) (sym (fill_grown now p rs h i room)) (
        ground (arith, size),
        omega (arith, held, length-append_one p.available (record { id = i; last_used = now })),
      )
]
