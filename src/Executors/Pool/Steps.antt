-- ===== src/Executors/Pool/Steps.antt =====
-- pkg/executors/network/cniprovider/pool.go: callers, the filler, the cleanup and the closing of a pool as a step
-- relation. A step ends where a lock is given back or a namespace is created or released. A caller gives a namespace
-- back once. The filler takes and gives back namespaces as a caller does.
use bons_ci.Base.{ℕ, suc, ◌+◌, Bool, true, false, List, [], ◌∷◌, ◌++◌, Option, none, some, ◌≡◌}
use bons_ci.Executors.Pool.{
  CniNs, NsPool, new_ns_pool, get, register, AfterPut, kept, above_target, to_release, put,
  schedule, cleanup_to_target_size, end_cleanup, close,
}
use bons_ci.Executors.Pool.Places.{ids}

pub record System : Type 0 where
  pub pool : NsPool
  pub in_use : List ℕ
  -- Created, and not yet registered.
  pub pending : List ℕ
  -- To be released, and released.
  pub releasing : List ℕ
  pub released : List ℕ
  -- Calls of put that have seen too many namespaces, timers, and cleanups that have not ended.
  pub above : ℕ
  pub timers : ℕ
  pub cleaning : ℕ
  -- The identity of the next namespace.
  pub next : ℕ

abbrev pub start : ℕ → System
start target_size = record {
  pool = new_ns_pool target_size;
  in_use = [];
  pending = [];
  releasing = [];
  released = [];
  above = 0;
  timers = 0;
  cleaning = 0;
  next = 0;
}

abbrev pub taken : System → NsPool × Option CniNs → System
taken s (p, none) = record s { pool = p }
taken s (p, some ns) = record s { pool = p; in_use = ns.id ∷ s.in_use }

abbrev pub created : System → System
created s = record s { next = s.next + 1; pending = s.next ∷ s.pending }

abbrev pub registered : System → List ℕ → ℕ → NsPool × Bool → System
registered s rest i (p, true) = record s { pool = p; pending = rest; in_use = i ∷ s.in_use }
registered s rest i (p, false) = record s { pool = p; pending = rest; releasing = i ∷ s.releasing }

abbrev pub given_back : System → List ℕ → ℕ → NsPool × AfterPut → System
given_back s rest i (p, kept) = record s { pool = p; in_use = rest }
given_back s rest i (p, above_target) = record s { pool = p; in_use = rest; above = s.above + 1 }
given_back s rest i (p, to_release) = record s {
  pool = p;
  in_use = rest;
  releasing = i ∷ s.releasing;
}

abbrev pub scheduled : System → ℕ → NsPool × Bool → System
scheduled s n (p, true) = record s { pool = p; above = n; timers = s.timers + 1 }
scheduled s n (p, false) = record s { pool = p; above = n }

abbrev pub cleaned : System → ℕ → NsPool × List CniNs → System
cleaned s n (p, out) = record s {
  pool = p;
  timers = n;
  cleaning = s.cleaning + 1;
  releasing = ids out ++ s.releasing;
}

abbrev pub closed_by : System → NsPool × List CniNs → System
closed_by s (p, out) = record s { pool = p; releasing = ids out ++ s.releasing }

pub data Step : System → System → Type 0 where
  take : (s : System) → Step s (taken s (get s.pool))
  create : (s : System) → Step s (created s)
  allocate :
      (s : System) (a b : List ℕ) (i : ℕ)
      → s.pending ≡ a ++ i ∷ b
      → Step s (registered s (a ++ b) i (register s.pool))
  give_back :
      (s : System) (now : ℕ) (a b : List ℕ) (i : ℕ)
      → s.in_use ≡ a ++ i ∷ b
      → Step s (given_back s (a ++ b) i (put now s.pool i))
  start_timer : (s : System) (n : ℕ) → s.above ≡ suc n → Step s (scheduled s n (schedule s.pool))
  clean_up :
      (s : System) (now n : ℕ)
      → s.timers ≡ suc n
      → Step s (cleaned s n (cleanup_to_target_size now s.pool))
  finish_cleanup :
      (s : System) (n : ℕ)
      → s.cleaning ≡ suc n
      → Step s (record s { pool = end_cleanup s.pool; cleaning = n })
  close_pool : (s : System) → Step s (closed_by s (close s.pool))
  release :
      (s : System) (a b : List ℕ) (i : ℕ)
      → s.releasing ≡ a ++ i ∷ b
      → Step s (record s { releasing = a ++ b; released = i ∷ s.released })

pub data Steps : System → System → Type 0 where
  stay : (s : System) → Steps s s
  then_step : {s t u : System} → Steps s t → Step t u → Steps s u
