-- ===== src/Executors/Tests.antt =====
-- pkg/executors: runs of the code on small pools.
use bons_ci.Base.{
  ℕ, ◌+◌, ◌≤◌, true, false, ◌&&◌, List, [], ◌∷◌, ◌++◌, Option, none, some, ◌≡◌, refl, arith,
  if◌then◌else◌, ltb, length, all,
}
use bons_ci.Executors.Pool.{NsPool, new_ns_pool, get, register, put, cleanup_to_target_size, close}
use bons_ci.Executors.Pool.Places.{count}
use bons_ci.Executors.Pool.Steps.{
  System, start, created, registered, given_back, closed_by, create, allocate, give_back,
  close_pool, Steps, stay, then_step,
}
use bons_ci.Executors.Pool.Laws.{IsSound, reachable-IsSound}
use bons_ci.Executors.Pool.Drain.{closed_can_drain}
use bons_ci.Executors.Pool.Cleanup.{cleanup_to_target_size_lem, get-put, is_idle, head_is_idle}

-- Two namespaces are made, one is given back, and the pool is closed while the other is in use.
abbrev two_in_use : System
two_in_use =
    let s = created (start 1) in
    let t = created (registered s [] 0 (register s.pool)) in registered t [] 1 (register t.pool)

abbrev one_back : System
one_back = given_back two_in_use (1 ∷ []) 0 (put 5 two_in_use.pool 0)

abbrev shut : System
shut = closed_by one_back (close one_back.pool)

steps_to_shut : Steps (start 1) shut
steps_to_shut =
    let s = created (start 1) in
    let t = registered s [] 0 (register s.pool) in
    let u = created t in
    then_step
      (then_step
        (then_step
          (then_step
            (then_step (then_step (stay (start 1)) (create (start 1))) (allocate s [] [] 0 refl))
            (create t))
          (allocate u [] [] 1 refl))
        (give_back two_in_use 5 (1 ∷ []) [] 0 refl))
      (close_pool one_back)

reachable-IsSound_example : IsSound shut
reachable-IsSound_example = reachable-IsSound 1 shut steps_to_shut

closed_can_drain_example :
    (t : System) × Steps shut t
    × (t.next ≡ shut.next)
    × (t.pool.available ≡ [])
    × (t.in_use ≡ [])
    × (t.pending ≡ [])
    × (t.releasing ≡ [])
    × ((i : ℕ) → count i t.released ≡ (if ltb i shut.next then 1 else 0))
closed_can_drain_example = closed_can_drain 1 shut steps_to_shut refl

-- A namespace that is given back to a closed pool is still counted.
closed_size : (put 9 shut.pool 1).0.actual_size ≡ 1
closed_size = refl

abbrev full : NsPool
full = record (new_ns_pool 1) {
  actual_size = 3;
  available = record { id = 0; last_used = 0 } ∷ record { id = 1; last_used = 10 } ∷ [];
}

cleanup_to_target_size_lem_example :
    let (q, out) = cleanup_to_target_size 300000000005 full in
    (full.available ≡ out ++ q.available)
    × (q.actual_size + length out ≡ full.actual_size)
    × (all (is_idle 300000000005) out ≡ true)
    × (full.target_size ≤ q.actual_size)
    × ((ltb full.target_size q.actual_size && head_is_idle 300000000005 q.available) ≡ false)
cleanup_to_target_size_lem_example = cleanup_to_target_size_lem 300000000005 full (omega arith)

cleanup_one : (cleanup_to_target_size 300000000005 full).0.actual_size ≡ 2
cleanup_one = refl

get_last : get (put 7 full 2).0 ≡ (full, some (record { id = 2; last_used = 7 }))
get_last = get-put 7 full 2 refl

abbrev results : List (Option ℕ)
results = some 0 ∷ none ∷ some 1 ∷ some 2 ∷ []
