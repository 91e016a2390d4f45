-- ===== src/Layermerkle/Dedup/Laws.antt =====
-- pkg/layermerkle/deduplicator.go: what a request is answered, with a cache and without.
use bons_ci.Base.{
  Str, str_eqb, str_eqb_iff, true, ◌&&◌, List, [], ◌∷◌, ◌++◌, none, some, ◌⊎◌, inl, inr, ◌≡◌, refl,
  sym, ap, ◌∙◌, subst, arith, Bool-cases, Option-cases,
}
use bons_ci.Base.Segments.{Segments}
use bons_ci.Layermerkle.Types.{LayerId, ResolveError}
use bons_ci.Layermerkle.Resolver.{Owner, owner, AbsPath, below, no_path}
use bons_ci.Layermerkle.Resolver as Resolver
use bons_ci.Layermerkle.HashCache.{HashCache, Laws, noop}
use bons_ci.Layermerkle.Dedup.{
  LayerFileResolver, FileHasher, DedupError, whiteout, hash_failed, no_owner, path_failed, Resolved,
  found, failed, top, resolve, resolve_from, resolve_slow, compute_hash, propagate,
}

-- The hash or the error of a result, without the owner.
abbrev pub answer : Resolved → DedupError ⊎ Str
answer (found h o f) = inr h
answer (failed e) = inl e

pub top_lem : (ls : List LayerId) (l : LayerId) → top (ls ++ l ∷ []) ≡ l
top_lem [] l = refl
top_lem (k ∷ []) l = refl
top_lem (k ∷ m ∷ ls) l = top_lem (m ∷ ls) l

module _ {S : Type 0} (c : HashCache S) (r : LayerFileResolver) (hasher : FileHasher) where
  -- `Resolve` on a stack with a layer.
  pub resolve_lem :
      (s : S) (ls : List LayerId) (l : LayerId) (p : Str)
      → resolve c r hasher s (ls ++ l ∷ []) p ≡ resolve_from c r hasher l s (ls ++ l ∷ []) p
  unfolding resolve
  resolve_lem s [] l p = refl
  resolve_lem s (k ∷ ls) l p =
      ap (λ t. resolve_from c r hasher t s (k ∷ (ls ++ l ∷ [])) p) (top_lem (k ∷ ls) l)

pub AbsPath-cases :
    (a : AbsPath)
    → ((e : ResolveError) × (a ≡ no_path e)) ⊎ ((d : Str) × (q : Segments) × (a ≡ below d q))
AbsPath-cases (no_path e) = inl (e, refl)
AbsPath-cases (below d q) = inr (d, q, refl)

pub Owner-cases :
    (a : Owner) → ((e : ResolveError) × (a ≡ Resolver.failed e)) ⊎ ((o : LayerId) × (a ≡ owner o))
Owner-cases (Resolver.failed e) = inl (e, refl)
Owner-cases (owner o) = inr (o, refl)

module _ {S : Type 0} (c : HashCache S) (r : LayerFileResolver) (hasher : FileHasher) (s : S)
    (stack : List LayerId) (o : LayerId) (p : Str) where
  pub resolve_miss :
      r.find_owner_layer stack p ≡ owner o
      → (c.get s o p).1 ≡ none
      → resolve_slow c r hasher s stack p ≡ compute_hash c r hasher (c.get s o p).0 stack o p
  unfolding resolve_slow
  resolve_miss f g = rw (f, resolve_slow) (rw (g, resolve_slow))

  pub resolve_hit :
      (h : Str)
      → r.find_owner_layer stack p ≡ owner o
      → (c.get s o p).1 ≡ some h
      → resolve_slow c r hasher s stack p
        ≡ (propagate c r hasher (c.get s o p).0 stack o p h, found h o true)
  unfolding resolve_slow
  resolve_hit h f g = rw (f, resolve_slow) (rw (g, resolve_slow))

  pub from_miss :
      (c.get s o p).1 ≡ none
      → resolve_from c r hasher o s stack p ≡ resolve_slow c r hasher (c.get s o p).0 stack p
  from_miss g = rw (g, resolve_from)

  pub from_hit :
      (h : Str)
      → (c.get s o p).1 ≡ some h
      → resolve_from c r hasher o s stack p ≡ ((c.get s o p).0, found h o true)
  from_hit h g = rw (g, resolve_from)

-- What a resolver and a hasher answer for a path whose owner is known, and for a stack.
module _ (r : LayerFileResolver) (hasher : FileHasher) where
  unfoldable pub hash_owned : LayerId → Str → DedupError ⊎ Str
  hash_owned o p = elim (r.diff_abs_path o p) [
    | no_path e ↦ inl (path_failed e)
    | below dir q ↦ elim (hasher (below dir q)) [ none ↦ inl hash_failed | some h ↦ inr h ]
  ]

  unfoldable pub hash_uncached : List LayerId → Str → DedupError ⊎ Str
  unfolding hash_owned
  hash_uncached stack p = elim (r.find_owner_layer stack p) [
    | Resolver.failed ResolveError.whiteout ↦ inl whiteout
    | Resolver.failed e ↦ inl (no_owner e)
    | owner o ↦ hash_owned o p
  ]

  without_cache :
      (ls : List LayerId) (l : LayerId) (p : Str)
      → answer (resolve noop r hasher tt (ls ++ l ∷ []) p).1 ≡ hash_uncached (ls ++ l ∷ []) p
  unfolding resolve_slow hash_uncached
  without_cache ls l p = rw (resolve_lem noop r hasher tt ls l p) (ground arith)

  uncached_owner :
      (stack : List LayerId) (o : LayerId) (p : Str)
      → r.find_owner_layer stack p ≡ owner o
      → hash_uncached stack p ≡ hash_owned o p
  unfolding hash_uncached
  uncached_owner stack o p e = rw (e, hash_uncached)

module _ {S : Type 0} (c : HashCache S) (laws : Laws S c) (r : LayerFileResolver)
    (hasher : FileHasher) (below_of : LayerId → List LayerId) where
  open laws use {IsValid, peek, get-peek, peek-get, get-IsValid, peek-set, peek-set_ne, set-IsValid}

  -- The stack that ends at a layer.
  abbrev stack_of : LayerId → List LayerId
  stack_of l = below_of l ++ l ∷ []

  -- Each hash that the cache holds is what the stack of its layer gives.
  abbrev IsCoherent : S → Type 0
  IsCoherent s =
      (l : LayerId) (p h : Str)
      → peek s l p ≡ some h
      → hash_uncached r hasher (stack_of l) p ≡ inr h

  get-IsCoherent :
      (s : S) (l : LayerId) (p : Str) → IsValid s → IsCoherent s → IsCoherent (c.get s l p).0
  get-IsCoherent s l p v k j q h e = k j q h (sym (peek-get s l j p q v) ∙ e)

  set-IsCoherent :
      (s : S) (o : LayerId) (p h : Str)
      → IsValid s
      → IsCoherent s
      → hash_uncached r hasher (stack_of o) p ≡ inr h
      → IsCoherent (c.set s o p h)
  set-IsCoherent s o p h v k e j q h' f = elim (Bool-cases (str_eqb o j && str_eqb p q)) [
    | inl same ↦
        let same_layer : o ≡ j = (str_eqb_iff o j).0 (ground arith) in
        let same_path : p ≡ q = (str_eqb_iff p q).0 (ground arith) in cc (peek-set s o p h v)
    | inr other ↦ elim (peek-set_ne s o j p q h v other) [
      | inl kept ↦ k j q h' (sym kept ∙ f)
      | inr gone ↦ cc
    ]
  ]

  module _
      (own_top : (l o : LayerId) (p : Str)
        → r.find_owner_layer (stack_of l) p ≡ owner o
        → r.find_owner_layer (stack_of o) p ≡ owner o) where
    -- What a request leaves behind and answers, where its stack is that of its top layer.
    IsAnswered : LayerId → Str → S × Resolved → Type 0
    IsAnswered l p (s, a) =
        (answer a ≡ hash_uncached r hasher (stack_of l) p) × IsValid s × IsCoherent s

    owner_answer :
        (l o : LayerId) (p : Str)
        → r.find_owner_layer (stack_of l) p ≡ owner o
        → hash_uncached r hasher (stack_of o) p ≡ hash_uncached r hasher (stack_of l) p
    owner_answer l o p e =
        uncached_owner r hasher (stack_of o) o p (own_top l o p e)
        ∙ sym (uncached_owner r hasher (stack_of l) o p e)

    propagate-IsCoherent :
        (s : S) (l o : LayerId) (p h : Str)
        → IsValid s
        → IsCoherent s
        → hash_uncached r hasher (stack_of l) p ≡ inr h
        → IsValid (propagate c r hasher s (stack_of l) o p h)
          × IsCoherent (propagate c r hasher s (stack_of l) o p h)
    propagate-IsCoherent s l o p h v k e =
        rw (top_lem (below_of l) l) (elim (Bool-cases (str_eqb l o)) [
          | inl same ↦ rw same (v, k)
          | inr other ↦ rw other (set-IsValid s l p h v, set-IsCoherent s l p h v k e)
        ])

    compute_hash-IsAnswered :
        (s : S) (l o : LayerId) (p : Str)
        → IsValid s
        → IsCoherent s
        → r.find_owner_layer (stack_of l) p ≡ owner o
        → IsAnswered l p (compute_hash c r hasher s (stack_of l) o p)
    unfolding IsAnswered hash_owned
    compute_hash-IsAnswered s l o p v k e =
        let whole = uncached_owner r hasher (stack_of l) o p e in
        elim (AbsPath-cases (r.diff_abs_path o p)) [
          | inl (x, f) ↦ rw (f, compute_hash) (sym (whole ∙ (rw (f, hash_owned))), v, k)
          | inr (d, q, f) ↦ elim (Option-cases (hasher (below d q))) [
            | inl g ↦
                rw (f, compute_hash)
                  (rw (g, compute_hash) (sym (whole ∙ (rw (f, g, hash_owned))), v, k))
            | inr (h, g) ↦
                let known : hash_uncached r hasher (stack_of l) p ≡ inr h =
                  whole ∙ (rw (f, g, hash_owned)) in
                rw (f, compute_hash)
                  (rw (g, compute_hash)
                    (let kept =
                        propagate-IsCoherent (c.set s o p h) l o p h (set-IsValid s o p h v)
                          (set-IsCoherent s o p h v k (owner_answer l o p e ∙ known)) known in
                      (sym known, kept.0, kept.1)))
          ]
        ]

    failed_answer :
        (s : S) (l : LayerId) (p : Str) (x : ResolveError)
        → IsValid s
        → IsCoherent s
        → r.find_owner_layer (stack_of l) p ≡ Resolver.failed x
        → IsAnswered l p (resolve_slow c r hasher s (stack_of l) p)
    unfolding IsAnswered resolve_slow hash_uncached
    failed_answer s l p ResolveError.whiteout v k f =
        rw (f, resolve_slow, hash_uncached) (refl, v, k)
    failed_answer s l p ResolveError.layer_not_found v k f =
        rw (f, resolve_slow, hash_uncached) (refl, v, k)
    failed_answer s l p ResolveError.context v k f =
        rw (f, resolve_slow, hash_uncached) (refl, v, k)

    resolve_slow-IsAnswered :
        (s : S) (l : LayerId) (p : Str)
        → IsValid s
        → IsCoherent s
        → IsAnswered l p (resolve_slow c r hasher s (stack_of l) p)
    unfolding IsAnswered resolve_slow hash_uncached
    resolve_slow-IsAnswered s l p v k = elim (Owner-cases (r.find_owner_layer (stack_of l) p)) [
      | inl (x, f) ↦ failed_answer s l p x v k f
      | inr (o, f) ↦ elim (Option-cases (c.get s o p).1) [
        | inl g ↦ subst (IsAnswered l p) (sym (resolve_miss c r hasher s (stack_of l) o p f g)) (
            compute_hash-IsAnswered (c.get s o p).0 l o p (get-IsValid s o p v)
              (get-IsCoherent s o p v k) f)
        | inr (h, g) ↦
            let known = sym (owner_answer l o p f) ∙ k o p h (sym (get-peek s o p v) ∙ g) in
            let kept =
              propagate-IsCoherent (c.get s o p).0 l o p h (get-IsValid s o p v)
                (get-IsCoherent s o p v k) known in
            subst (IsAnswered l p) (sym (resolve_hit c r hasher s (stack_of l) o p h f g))
              (sym known, kept.0, kept.1)
      ]
    ]

    resolve_from-IsAnswered :
        (s : S) (l : LayerId) (p : Str)
        → IsValid s
        → IsCoherent s
        → IsAnswered l p (resolve_from c r hasher l s (stack_of l) p)
    unfolding IsAnswered
    resolve_from-IsAnswered s l p v k = elim (Option-cases (c.get s l p).1) [
      | inl g ↦ subst (IsAnswered l p) (sym (from_miss c r hasher s (stack_of l) l p g)) (
          resolve_slow-IsAnswered (c.get s l p).0 l p (get-IsValid s l p v)
            (get-IsCoherent s l p v k))
      | inr (h, g) ↦ subst (IsAnswered l p) (sym (from_hit c r hasher s (stack_of l) l p h g)) (
        sym (k l p h (sym (get-peek s l p v) ∙ g)),
        get-IsValid s l p v,
        get-IsCoherent s l p v k,
      )
    ]

    -- Where every stack is the one of its top layer, and the stack of an owner has that owner: over a valid cache
    -- whose hashes are those of the stacks, a request gets the hash or the error that it gets with no cache, and
    -- leaves such a cache.
    pub resolve-noop :
        (s : S) (l : LayerId) (p : Str)
        → IsValid s
        → IsCoherent s
        → (answer (resolve c r hasher s (stack_of l) p).1
            ≡ answer (resolve noop r hasher tt (stack_of l) p).1)
          × IsValid (resolve c r hasher s (stack_of l) p).0
          × IsCoherent (resolve c r hasher s (stack_of l) p).0
    unfolding IsAnswered
    resolve-noop s l p v k = rw (resolve_lem c r hasher s (below_of l) l p) (
        let (a, b, d) = resolve_from-IsAnswered s l p v k in
        (a ∙ sym (without_cache r hasher (below_of l) l p), b, d))
