-- ===== src/Executors/Pool/Drain.antt =====
-- pkg/executors/network/cniprovider/pool.go: a closed pool can get rid of every namespace.
use bons_ci.Base.{
  ℕ, true, false, List, [], ◌∷◌, ◌≡◌, refl, ◌∙◌, ap, subst, arith, if◌then◌else◌, ltb,
}
use bons_ci.Executors.Pool.{to_release}
use bons_ci.Executors.Pool.Places.{count, ids, register_shut, put_shut}
use bons_ci.Executors.Pool.Steps.{
  System, start, registered, given_back, Step, allocate, give_back, release, Steps, stay, then_step,
}
use bons_ci.Executors.Pool.Laws.{reachable-IsSound}

Steps-trans : {s t u : System} → Steps s t → Steps t u → Steps s u
Steps-trans p (stay u) = p
Steps-trans p (then_step q x) = then_step (Steps-trans p q) x

-- A state of a closed pool, with nothing available, that steps reach, in which no namespace was created since.
record Later (s t : System) : Type 0 where
  steps : Steps s t
  same_next : t.next ≡ s.next
  shut : t.pool.closed ≡ true

after : {s t u : System} → Later t u → Steps s t → t.next ≡ s.next → Later s u
after x p e = record { steps = Steps-trans p x.steps; same_next = x.same_next ∙ e; shut = x.shut }

one_step : {s t : System} → Step s t → Steps s t
one_step {s} x = then_step (stay s) x

drain_pending :
    (l : List ℕ) (s : System)
    → s.pending ≡ l
    → s.pool.closed ≡ true
    → (t : System) × Later s t × (t.pending ≡ [])
drain_pending [] s e h = (s, record { steps = stay s; same_next = refl; shut = h }, e)
drain_pending (i ∷ l) s e h =
    let x : Step s (registered s l i (s.pool, false)) =
      subst (λ r. Step s (registered s l i r)) (register_shut s.pool h) (allocate s [] l i e) in
    let (t, later, done) = drain_pending l (registered s l i (s.pool, false)) refl h in
    (t, after later (one_step x) refl, done)

drain_in_use :
    (l : List ℕ) (s : System)
    → s.in_use ≡ l
    → s.pending ≡ []
    → s.pool.closed ≡ true
    → (t : System) × Later s t × (t.pending ≡ []) × (t.in_use ≡ [])
drain_in_use [] s e k h = (s, record { steps = stay s; same_next = refl; shut = h }, k, e)
drain_in_use (i ∷ l) s e k h =
    let x : Step s (given_back s l i (s.pool, to_release)) =
      subst (λ r. Step s (given_back s l i r)) (put_shut 0 s.pool i h) (give_back s 0 [] l i e) in
    let (t, later, no_pending, done) =
      drain_in_use l (given_back s l i (s.pool, to_release)) refl k h in
    (t, after later (one_step x) refl, no_pending, done)

drain_releasing :
    (l : List ℕ) (s : System)
    → s.releasing ≡ l
    → s.pending ≡ []
    → s.in_use ≡ []
    → s.pool.closed ≡ true
    → (t : System) × Later s t × (t.pending ≡ []) × (t.in_use ≡ []) × (t.releasing ≡ [])
drain_releasing [] s e k j h = (s, record { steps = stay s; same_next = refl; shut = h }, k, j, e)
drain_releasing (i ∷ l) s e k j h =
    let t : System = record s { releasing = l; released = i ∷ s.released } in
    let x : Step s t = release s [] l i e in
    let (u, later, no_pending, no_use, done) = drain_releasing l t refl k j h in
    (u, after later (one_step x) refl, no_pending, no_use, done)

-- From every state with a closed pool that a new pool reaches there are steps, in which nothing is created, to a state in
-- which nothing is available, in use, on its way into the pool or to be released, and each namespace created so far has been
-- released exactly once.
pub closed_can_drain :
    (target_size : ℕ) (s : System)
    → Steps (start target_size) s
    → s.pool.closed ≡ true
    → (t : System) × Steps s t
      × (t.next ≡ s.next)
      × (t.pool.available ≡ [])
      × (t.in_use ≡ [])
      × (t.pending ≡ [])
      × (t.releasing ≡ [])
      × ((i : ℕ) → count i t.released ≡ (if ltb i s.next then 1 else 0))
closed_can_drain target_size s p h =
    let (a, to_a, a_pending) = drain_pending s.pending s refl h in
    let (b, to_b, b_pending, b_in_use) = drain_in_use a.in_use a refl a_pending to_a.shut in
    let (t, to_t, t_pending, t_in_use, t_releasing) =
      drain_releasing b.releasing b refl b_pending b_in_use to_b.shut in
    let path = Steps-trans (Steps-trans to_a.steps to_b.steps) to_t.steps in
    let same = to_t.same_next ∙ to_b.same_next ∙ to_a.same_next in
    let v = reachable-IsSound target_size t (Steps-trans p path) in
    let none_left = v.emptied to_t.shut in
    (
      t,
      path,
      same,
      none_left,
      t_in_use,
      t_pending,
      t_releasing,
      λ i. omega (
        arith,
        ap (λ l. count i (ids l)) none_left,
        ap (count i) t_in_use,
        ap (count i) t_pending,
        ap (count i) t_releasing,
        v.one_place i,
        ap {B = ℕ} (λ n. if ltb i n then 1 else 0) same,
      ),
    )
