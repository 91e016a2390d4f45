-- ===== src/Fshash/Access/Dedup/Laws.antt =====
-- pkg/fshash/access/dedup.go: how an event is classified.
use bons_ci.Base.{
  Str, ◌+◌, Bool, true, false, List, [], ◌∷◌, Option, none, some, if◌then◌else◌, ◌≡◌, refl, sym,
  ◌∙◌, ap, subst, arith, inl, inr, Option-cases, Bool-cases,
}
use bons_ci.Fshash.Layer.Chain.{LayerId, Chain}
use bons_ci.Fshash.Layer.Resolver.{is_file_visible, needs_rehash}
use bons_ci.Fshash.Cache.Sharded.{ShardedStore}
use bons_ci.Fshash.Cache.Sharded.Laws.{IsValidStore, peek, sharded_get_total}
use bons_ci.Fshash.Access.Bloom.{test}
use bons_ci.Fshash.Access.Bloom.Laws.{IsValidFilter, add-test, test_and_add_lem}
use bons_ci.Fshash.Access.Tracker.{FileHash, record_hash}
use bons_ci.Fshash.Access.Dedup.{
  Action, Deduplicator, find_cached, resolve_cached, compute_step, process, compute, reuse, skip,
  exclude,
}

-- A filter and a cache that are well-formed, and counters that account for every event.
abbrev pub IsValid : Deduplicator → Type 0
IsValid d =
    IsValidFilter d.filter
    × IsValidStore d.cache
    × (d.received ≡ d.computed + d.reused + d.skipped + d.excluded)

-- The hash of the lowest layer of the chain that has one for the path.
abbrev pub first_cached : ShardedStore FileHash → Str → List LayerId → Option FileHash
first_cached ss path [] = none
first_cached ss path (l ∷ ls) = elim (peek ss l path) [
  | some h ↦ some h
  | none ↦ first_cached ss path ls
]

first_cached-same :
    (ss next : ShardedStore FileHash) (path : Str) (ls : List LayerId)
    → ((j : LayerId) (q : Str) → peek next j q ≡ peek ss j q)
    → first_cached next path ls ≡ first_cached ss path ls
first_cached-same ss next path [] same = refl
first_cached-same ss next path (l ∷ ls) same =
    ground (arith, same l path, first_cached-same ss next path ls same)

find_cached_lem :
    (ss : ShardedStore FileHash) (path : Str) (ls : List LayerId)
    → IsValidStore ss
    → (next : ShardedStore FileHash) × (find_cached ss path ls
        ≡ some (next, first_cached ss path ls))
      × IsValidStore next
unfolding find_cached
find_cached_lem ss path [] v = (ss, refl, v)
find_cached_lem ss path (l ∷ ls) v =
    let (next, e, valid, same) = sharded_get_total ss l path v in
    elim (Option-cases (peek ss l path)) [
      | inr (h, found) ↦
          let seen : first_cached ss path (l ∷ ls) ≡ some h = rw (first_cached, found) refl in
          (next, rw (find_cached, e, found) (ap (λ z. some (next, z)) (sym seen)), valid)
      | inl missing ↦
          let unseen : first_cached ss path (l ∷ ls) ≡ first_cached ss path ls =
            rw (first_cached, missing) refl in
          let (last, f, w) = find_cached_lem next path ls valid in
          (
            last,
            rw (find_cached, e, missing)
                (f
                  ∙ ap (λ z. some (last, z)) (first_cached-same ss next path ls same ∙ sym unseen)),
            w,
          )
    ]

-- The classification that the comments of `Process` describe.
abbrev pub classify : Bool → Bool → Option FileHash → (LayerId → Bool) → Action
classify false found hit stale = exclude
classify true true hit stale = skip
classify true false none stale = compute
classify true false (some h) stale = if stale h.layer_id then compute else reuse h

-- The counters with one more event received and one more action counted.
resolve_cached_lem :
    (d : Deduplicator) (id : LayerId) (path : Str) (chain : Chain) (hit : Option FileHash)
    → IsValidFilter d.filter
    → IsValidStore d.cache
    → d.received ≡ d.computed + d.reused + d.skipped + d.excluded + 1
    → (next : Deduplicator) × (resolve_cached d id path chain hit
        ≡ (next, classify true false hit (needs_rehash d.layers chain path)))
      × IsValid next
      × (next.filter ≡ d.filter)
      × (next.layers ≡ d.layers)
unfolding resolve_cached compute_step
resolve_cached_lem d id path chain none vf vc e =
    ((compute_step d).0, refl, (vf, vc, omega arith), refl, refl)
resolve_cached_lem d id path chain (some h) vf vc e =
    elim (Bool-cases (needs_rehash d.layers chain path h.layer_id)) [
      | inl stale ↦
          ((compute_step d).0, rw (resolve_cached, stale) refl, (vf, vc, omega arith), refl, refl)
      | inr fresh ↦ (
        record d { reused = d.reused + 1; tracker = record_hash d.tracker id h },
        rw (resolve_cached, fresh) refl,
        (vf, vc, omega arith),
        refl,
        refl,
      )
    ]

-- `process_total`, with what `process_again` needs: the layers stay, and a visible path is found in the
-- filter afterwards.
process_full :
    (d : Deduplicator) (id : LayerId) (path : Str) (chain : Chain)
    → IsValid d
    → (next : Deduplicator) × (found : Bool) × (test d.filter id path ≡ some found)
      × (process d id path chain
          ≡ some (
            next,
            classify
                (is_file_visible d.layers chain path)
                found
                (first_cached d.cache path chain.layers)
                (needs_rehash d.layers chain path),
          ))
      × IsValid next
      × (next.layers ≡ d.layers)
      × (is_file_visible d.layers chain path ≡ true → test next.filter id path ≡ some true)
unfolding process
process_full d id path chain v =
    let (filter, found, added, tested, both) = test_and_add_lem d.filter v.0 id path in
    let (other, added_too, valid_other, seen) = add-test d.filter v.0 id path in
    let same : other ≡ filter = ground arith in
    let valid_filter : IsValidFilter filter = subst IsValidFilter same valid_other in
    let now_seen : test filter id path ≡ some true = ap (λ f. test f id path) (sym same) ∙ seen in
    let (cache, looked, valid_cache) = find_cached_lem d.cache path chain.layers v.1 in
    let started = record d { received = d.received + 1; filter = filter; cache = cache } in
    let (next, resolved, valid, kept, layers_kept) =
      resolve_cached_lem started id path chain (first_cached d.cache path chain.layers) valid_filter
        valid_cache (omega arith) in
    elim (Bool-cases (is_file_visible d.layers chain path)) [
      | inr hidden ↦ (
        record d { received = d.received + 1; excluded = d.excluded + 1 },
        found,
        tested,
        rw (process, hidden) refl,
        (v.0, v.1, omega arith),
        refl,
        λ shown. absurd (ground arith),
      )
      | inl shown ↦ elim (Bool-cases found) [
        | inl dup ↦ (
          record d { received = d.received + 1; filter = filter; skipped = d.skipped + 1 },
          found,
          tested,
          rw (process, shown, both, dup) refl,
          (valid_filter, v.1, omega arith),
          refl,
          λ _. now_seen,
        )
        | inr new ↦ (
          next,
          found,
          tested,
          rw (process, shown, both, new, looked) (ap some resolved),
          valid,
          layers_kept,
          λ _. ap (λ f. test f id path) kept ∙ now_seen,
        )
      ]
    ]

-- On a well-formed deduplicator an event is processed without a panic, the result is well-formed, and
-- the action is decided by the visibility of the path, the answer of the filter before the event, and the
-- lowest cached hash with its need of a rehash, in that order.
pub process_total :
    (d : Deduplicator) (id : LayerId) (path : Str) (chain : Chain)
    → IsValid d
    → (next : Deduplicator) × (found : Bool) × (test d.filter id path ≡ some found)
      × (process d id path chain
          ≡ some (
            next,
            classify
                (is_file_visible d.layers chain path)
                found
                (first_cached d.cache path chain.layers)
                (needs_rehash d.layers chain path),
          ))
      × IsValid next
process_total d id path chain v =
    let (next, found, tested, run, valid, _, _) = process_full d id path chain v in
    (next, found, tested, run, valid)

classify-skip :
    (visible found : Bool) (hit : Option FileHash) (stale : LayerId → Bool)
    → visible ≡ true
    → found ≡ true
    → classify visible found hit stale ≡ skip
classify-skip visible found hit stale h k = rw (h, k) refl

-- A second event of the same layer on a visible path is skipped.
pub process_again :
    (d : Deduplicator) (id : LayerId) (path : Str) (chain : Chain)
    → IsValid d
    → is_file_visible d.layers chain path ≡ true
    → (once twice : Deduplicator) × (a : Action) × (process d id path chain ≡ some (once, a))
      × (process once id path chain ≡ some (twice, skip))
process_again d id path chain v shown =
    let (once, found, tested, first, valid, kept, seen) = process_full d id path chain v in
    let (twice, again, tested_again, second, _, _, _) = process_full once id path chain valid in
    let repeated : again ≡ true = let both = sym tested_again ∙ seen shown in ground arith in
    let still : is_file_visible once.layers chain path ≡ true =
      ap (λ s. is_file_visible s chain path) kept ∙ shown in
    (
      once,
      twice,
      _,
      first,
      second
          ∙ ap (λ z. some (twice, z))
              (classify-skip (is_file_visible once.layers chain path) again
                (first_cached once.cache path chain.layers) (needs_rehash once.layers chain path)
                still repeated),
    )
