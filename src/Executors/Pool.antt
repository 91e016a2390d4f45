-- ===== src/Executors/Pool.antt =====
-- pkg/executors/network/cniprovider/pool.go: the pool of network namespaces. Times are in nanoseconds.
-- A method that leaves its lock before it ends gives what it does after that as a result.
pub mod Places
pub mod Steps
pub mod Laws
pub mod Drain
pub mod Cleanup
use bons_ci.Base.{
  ℕ, zero, suc, ◌+◌, ◌-◌, Bool, true, false, ◌&&◌, List, [], ◌∷◌, ◌++◌, Option, none, some,
  if◌then◌else◌, length, ltb, leb,
}

abbrev pub above_target_grace_period : ℕ
above_target_grace_period = 300000000000

-- `cniNS`, with its identity.
pub record CniNs : Type 0 where
  pub id : ℕ
  pub last_used : ℕ

pub record NsPool : Type 0 where
  pub target_size : ℕ
  pub actual_size : ℕ
  -- The least recently used first.
  pub available : List CniNs
  pub closed : Bool
  pub cleanup_scheduled : Bool

abbrev pub new_ns_pool : ℕ → NsPool
new_ns_pool target_size = record {
  target_size = target_size;
  actual_size = 0;
  available = [];
  closed = false;
  cleanup_scheduled = false;
}

abbrev pub pop_last : List CniNs → Option (List CniNs × CniNs)
pop_last [] = none
pop_last (ns ∷ rest) = elim (pop_last rest) [
  | none ↦ some ([], ns)
  | some (before, l) ↦ some (ns ∷ before, l)
]

-- `get` under its lock; with `none` it goes on to `allocNew`.
abbrev pub get : NsPool → NsPool × Option CniNs
get p = elim (pop_last p.available) [
  | none ↦ (p, none)
  | some (rest, ns) ↦ (record p { available = rest }, some ns)
]

-- `allocNew` after the creation of the namespace: whether the pool takes it, which is released otherwise.
abbrev pub register : NsPool → NsPool × Bool
register p = if p.closed then (p, false) else (record p { actual_size = p.actual_size + 1 }, true)

-- What `put` does after its lock: nothing, an attempt to schedule a cleanup, or a release.
pub data AfterPut : Type 0 where
  kept above_target to_release : AfterPut

abbrev pub put : ℕ → NsPool → ℕ → NsPool × AfterPut
put now p id = if p.closed then (p, to_release) else (
  record p { available = p.available ++ record { id = id; last_used = now } ∷ [] },
  if ltb p.target_size p.actual_size then above_target else kept,
)

-- The swap of `cleanupScheduled`, and whether it starts a timer.
abbrev pub schedule : NsPool → NsPool × Bool
schedule p =
    if p.cleanup_scheduled then (p, false) else (record p { cleanup_scheduled = true }, true)

pub record Evicted : Type 0 where
  pub actual_size : ℕ
  pub available : List CniNs
  pub released : List CniNs

-- The loop of `cleanupToTargetSize`.
abbrev pub evict : ℕ → ℕ → ℕ → List CniNs → Evicted
evict now target n [] = record { actual_size = n; available = []; released = [] }
evict now target n (ns ∷ rest) =
    let more = evict now target (n - 1) rest in
    if ltb target n && leb above_target_grace_period (now - ns.last_used)
    then record more { released = ns ∷ more.released }
    else record { actual_size = n; available = ns ∷ rest; released = [] }

abbrev pub cleanup_to_target_size : ℕ → NsPool → NsPool × List CniNs
cleanup_to_target_size now p =
    let e = evict now p.target_size p.actual_size p.available in
    (record p { actual_size = e.actual_size; available = e.available }, e.released)

-- The deferred store of `runCleanup`.
abbrev pub end_cleanup : NsPool → NsPool
end_cleanup p = record p { cleanup_scheduled = false }

-- `close` under its lock, and what it releases.
abbrev pub close : NsPool → NsPool × List CniNs
close p = (
  record p { closed = true; available = []; actual_size = p.actual_size - length p.available },
  p.available,
)

-- `fillLoop` while nobody else uses the pool, up to the end of its context; with the results of `newNS`.
unfoldable pub fill_loop : ℕ → NsPool → List (Option ℕ) → NsPool
fill_loop now p [] = p
fill_loop now p (none ∷ rs) =
    let retry = fill_loop now p rs in
    if p.closed then p else if leb p.target_size p.actual_size then p else retry
fill_loop now p (some id ∷ rs) =
    let filled = fill_loop now (put now (register p).0 id).0 rs in
    if p.closed then p else if leb p.target_size p.actual_size then p else filled
