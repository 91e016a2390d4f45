-- ===== src/Layermerkle/Resolver/Caching.antt =====
-- pkg/layermerkle: the search with a cache, and the search by the file system alone.
use bons_ci.Base.{
  Str, ℕ, Bool, List, [], ◌∷◌, Option, none, some, if◌then◌else◌, length, reverse, ◌≡◌, refl, sym,
  ◌∙◌, ◌⊎◌, inl, inr, Option-cases, Bool-cases, arith, ap,
}
use bons_ci.Layermerkle.Layer.{LayerRegistry, find_layer}
use bons_ci.Layermerkle.StatCache.{StatCache}
use bons_ci.Layermerkle.Types.{LayerId, StatKey, StatResult, ResolveError}
use bons_ci.Layermerkle.Resolver.{
  Lstat, fs_stat, Owner, owner, failed, stat_in_layer, by_result, search_down, find_owner_layer,
}

module _ (registry : LayerRegistry) (lstat : Lstat) where
  -- What the file system says of a path in a layer; `none` for an unknown layer.
  abbrev pub true_stat : StatKey → Option StatResult
  true_stat (layer, rel_path) = elim (find_layer registry layer) [
    | none ↦ none
    | some info ↦ some (fs_stat lstat info rel_path)
  ]

  -- What one layer says: it owns the path, hides it, or leaves it to those below.
  abbrev pub decide_layer : LayerId → Option StatResult → Owner → Owner
  decide_layer layer (some StatResult.present) rest = owner layer
  decide_layer layer (some StatResult.whiteout) rest = failed ResolveError.whiteout
  decide_layer layer _ rest = rest

  -- The owner by the file system alone, from the top of the stack down.
  abbrev pub true_search : (ℕ → Bool) → List LayerId → Str → Owner
  true_search cancelled [] rel_path = failed ResolveError.layer_not_found
  true_search cancelled (layer ∷ below) rel_path =
      let rest = true_search cancelled below rel_path in
      if cancelled (length below)
      then failed ResolveError.context
      else decide_layer layer (true_stat (layer, rel_path)) rest

  module _ (sc : StatCache) where
    open sc use {
      Cache, IsValid, peek, get, put, get-peek, get_keeps, get-IsValid, put_total, put_sound,
    }

    -- Every cached result is what the file system says.
    abbrev pub Coherent : Cache → Type 0
    Coherent c = (k : StatKey) → (peek c k ≡ none) ⊎ (peek c k ≡ true_stat k)

    Coherent-true :
        (c : Cache) (k : StatKey) (w : StatResult)
        → Coherent c
        → peek c k ≡ some w
        → true_stat k ≡ some w
    Coherent-true c k w h e = elim (h k) [ inl n ↦ absurd (ground arith) | inr t ↦ sym t ∙ e ]

    true-Coherent :
        (c : Cache)
        → ((k : StatKey) (w : StatResult) → peek c k ≡ some w → true_stat k ≡ some w)
        → Coherent c
    true-Coherent c h k = elim (Option-cases (peek c k)) [
      | inl n ↦ inl n
      | inr (w, e) ↦ inr (e ∙ sym (h k w e))
    ]

    pub stat_in_layer-true_stat :
        (c : Cache) (layer : LayerId) (rel_path : Str)
        → IsValid c
        → Coherent c
        → (c' : Cache) × (stat_in_layer sc registry lstat c layer rel_path
            ≡ some (c', true_stat (layer, rel_path)))
          × IsValid c'
          × Coherent c'
    unfolding stat_in_layer
    stat_in_layer-true_stat c layer rel_path v h =
        let k : StatKey = (layer, rel_path) in
        let kept : Coherent (get c k).0 =
          true-Coherent (get c k).0 (λ q w e. Coherent-true c q w h (sym (get_keeps c k q) ∙ e)) in
        elim (Option-cases (get c k).1) [
          | inr (w, e) ↦
              let t : true_stat k ≡ some w = Coherent-true c k w h (sym (get-peek c k) ∙ e) in
              ((get c k).0, rw (e, t, stat_in_layer), get-IsValid c k v, kept)
          | inl e ↦ elim (Option-cases (find_layer registry layer)) [
            | inl n ↦
                let t : true_stat k ≡ none = rw (n, true_stat) in
                ((get c k).0, rw (e, t, n, stat_in_layer), get-IsValid c k v, kept)
            | inr (info, n) ↦
                let r : StatResult = fs_stat lstat info rel_path in
                let t : true_stat k ≡ some r = rw (n, true_stat) in
                let (c', p, v') = put_total (get c k).0 k r (get-IsValid c k v) in
                (
                  c',
                  rw (e, t, n, p, stat_in_layer),
                  v',
                  true-Coherent c' (λ q w s.
                      elim (put_sound (get c k).0 c' k q r w (get-IsValid c k v) p s) [
                        | inl (kq, rw') ↦ ap true_stat (sym kq) ∙ (t ∙ ap some rw')
                        | inr old ↦ Coherent-true (get c k).0 q w kept old
                      ]),
                )
          ]
        ]

    -- A run that ends in the given answer, with a valid cache of true results.
    abbrev pub Answers : Option (Cache × Owner) → Owner → Type 0
    Answers run answer = (c : Cache) × (run ≡ some (c, answer)) × IsValid c × Coherent c

    by_result-Answers :
        (layer : LayerId) (r : Option StatResult) (c : Cache)
        (next : Cache → Option (Cache × Owner)) (rest : Owner)
        → IsValid c
        → Coherent c
        → Answers (next c) rest
        → Answers (by_result sc registry lstat layer (some (c, r)) next) (decide_layer layer r rest)
    by_result-Answers layer none c next rest v h a = a
    by_result-Answers layer (some StatResult.present) c next rest v h a = (c, refl, v, h)
    by_result-Answers layer (some StatResult.whiteout) c next rest v h a = (c, refl, v, h)
    by_result-Answers layer (some _) c next rest v h a = a

    search_down-true_search :
        (cancelled : ℕ → Bool) (stack : List LayerId) (rel_path : Str) (c : Cache)
        → IsValid c
        → Coherent c
        → Answers
            (search_down sc registry lstat cancelled stack rel_path c)
            (true_search cancelled stack rel_path)
    unfolding search_down
    search_down-true_search cancelled [] rel_path c v h = (c, refl, v, h)
    search_down-true_search cancelled (layer ∷ below) rel_path c v h =
        elim (Bool-cases (cancelled (length below))) [
          | inl stop ↦ rw stop (c, refl, v, h)
          | inr on ↦
              let (c1, e1, v1, h1) = stat_in_layer-true_stat c layer rel_path v h in
              rw (on, e1)
                (by_result-Answers layer (true_stat (layer, rel_path)) c1 _ _ v1 h1
                  (search_down-true_search cancelled below rel_path c1 v1 h1))
        ]

    -- A resolver with any valid cache that holds true results does not panic, finds the owner that the
    -- file system alone determines, and leaves a valid cache of true results.
    pub find_owner_layer-true_search :
        (cancelled : ℕ → Bool) (stack : List LayerId) (rel_path : Str) (c : Cache)
        → IsValid c
        → Coherent c
        → Answers
            (find_owner_layer sc registry lstat cancelled stack rel_path c)
            (true_search cancelled (reverse stack) rel_path)
    unfolding find_owner_layer
    find_owner_layer-true_search cancelled stack = search_down-true_search cancelled (reverse stack)
