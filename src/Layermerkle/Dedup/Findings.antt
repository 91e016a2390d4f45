-- ===== src/Layermerkle/Dedup/Findings.antt =====
-- pkg/layermerkle/deduplicator.go: entries are filed under the top layer alone.
use bons_ci.Base.{
  Str, str_eqb, str_eqb_iff, Bool, true, false, List, [], ◌∷◌, ◌++◌, some, inl, inr, ◌≡◌, sym, ap,
  ◌∙◌, subst, Bool-cases, Option-cases,
}
use bons_ci.Layermerkle.Types.{LayerId, ResolveError}
use bons_ci.Layermerkle.Resolver.{below}
use bons_ci.Layermerkle.HashCache.{HashCache, Laws}
use bons_ci.Layermerkle.Dedup.{
  LayerFileResolver, FileHasher, DedupError, hash_failed, path_failed, no_owner, whiteout, Resolved,
  found, failed, resolve, resolve_slow, compute_hash, propagate,
}
use bons_ci.Layermerkle.Dedup.Laws.{
  answer, top_lem, resolve_lem, resolve_miss, resolve_hit, from_miss, from_hit, AbsPath-cases,
  Owner-cases,
}

module _ {S : Type 0} (c : HashCache S) (laws : Laws S c) (r : LayerFileResolver)
    (hasher : FileHasher) (bs : List LayerId) (l : LayerId) (p : Str) where
  open laws use {IsValid, peek, get-peek, peek-get, get-IsValid, peek-set, set-IsValid}

  abbrev stack : List LayerId
  stack = bs ++ l ∷ []

  -- A hash that is answered stands under the top layer.
  IsFiled : S × Resolved → Type 0
  IsFiled (s, a) = IsValid s × ((h : Str) → answer a ≡ inr h → peek s l p ≡ some h)

  failed-IsFiled : (s : S) (e : DedupError) → IsValid s → IsFiled (s, failed e)
  unfolding IsFiled
  failed-IsFiled s e v = (v, λ h q. cc)

  propagate-IsFiled :
      (s : S) (o : LayerId) (h : Str) (b : Bool)
      → IsValid s
      → peek s o p ≡ some h
      → IsFiled (propagate c r hasher s stack o p h, found h o b)
  unfolding IsFiled
  propagate-IsFiled s o h b v k = rw (top_lem bs l) (elim (Bool-cases (str_eqb l o)) [
    | inl same ↦ let e : l ≡ o = (str_eqb_iff l o).0 same in rw same (v, λ j q. cc (k, q, e))
    | inr other ↦ rw other (set-IsValid s l p h v, λ j q. cc (peek-set s l p h v, q))
  ])

  compute_hash-IsFiled :
      (s : S) (o : LayerId) → IsValid s → IsFiled (compute_hash c r hasher s stack o p)
  compute_hash-IsFiled s o v = elim (AbsPath-cases (r.diff_abs_path o p)) [
    | inl (x, f) ↦ rw (f, compute_hash) (failed-IsFiled s (path_failed x) v)
    | inr (d, q, f) ↦ elim (Option-cases (hasher (below d q))) [
      | inl g ↦ rw (f, compute_hash) (rw (g, compute_hash) (failed-IsFiled s hash_failed v))
      | inr (h, g) ↦
          rw (f, compute_hash)
            (rw (g, compute_hash)
              (propagate-IsFiled (c.set s o p h) o h false (set-IsValid s o p h v)
                (peek-set s o p h v)))
    ]
  ]

  resolve_slow-IsFiled : (s : S) → IsValid s → IsFiled (resolve_slow c r hasher s stack p)
  unfolding resolve_slow
  resolve_slow-IsFiled s v = elim (Owner-cases (r.find_owner_layer stack p)) [
    | inl (ResolveError.whiteout, f) ↦ rw (f, resolve_slow) (failed-IsFiled s whiteout v)
    | inl (ResolveError.layer_not_found, f) ↦
        rw (f, resolve_slow) (failed-IsFiled s (no_owner ResolveError.layer_not_found) v)
    | inl (ResolveError.context, f) ↦
        rw (f, resolve_slow) (failed-IsFiled s (no_owner ResolveError.context) v)
    | inr (o, f) ↦ elim (Option-cases (c.get s o p).1) [
      | inl g ↦
          subst IsFiled (sym (resolve_miss c r hasher s stack o p f g))
            (compute_hash-IsFiled (c.get s o p).0 o (get-IsValid s o p v))
      | inr (h, g) ↦ subst IsFiled (sym (resolve_hit c r hasher s stack o p h f g)) (
          propagate-IsFiled (c.get s o p).0 o h true (get-IsValid s o p v)
            (peek-get s o o p p v ∙ sym (get-peek s o p v) ∙ g))
    ]
  ]

  resolve-IsFiled : (s : S) → IsValid s → IsFiled (resolve c r hasher s stack p)
  unfolding IsFiled
  resolve-IsFiled s v = rw (resolve_lem c r hasher s bs l p) (elim (Option-cases (c.get s l p).1) [
    | inl g ↦
        subst IsFiled (sym (from_miss c r hasher s stack l p g))
          (resolve_slow-IsFiled (c.get s l p).0 (get-IsValid s l p v))
    | inr (h, g) ↦
        subst IsFiled (sym (from_hit c r hasher s stack l p h g))
          (get-IsValid s l p v, λ j q. cc (peek-get s l l p p v, get-peek s l p v, g, q))
  ])

  -- Over a valid cache, once a request has got a hash, a request for the path in any stack with the same top layer
  -- gets that hash from the cache, with the top layer as its owner, whatever layers lie below.
  pub resolve-same_top :
      (s : S) (h : Str) (cs : List LayerId)
      → IsValid s
      → answer (resolve c r hasher s stack p).1 ≡ inr h
      → (resolve c r hasher (resolve c r hasher s stack p).0 (cs ++ l ∷ []) p).1 ≡ found h l true
  unfolding IsFiled
  resolve-same_top s h cs v e =
      let (w, filed) = resolve-IsFiled s v in
      let s' = (resolve c r hasher s stack p).0 in
      let g = get-peek s' l p w ∙ filed h e in
      ap (λ x. x.1)
        (resolve_lem c r hasher s' cs l p ∙ from_hit c r hasher s' (cs ++ l ∷ []) l p h g)
