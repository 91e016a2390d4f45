-- ===== src/Layermerkle/HashCache/Expiry.antt =====
-- pkg/layermerkle/cache.go: what TTLHashCache answers over any inner cache that keeps the laws.
use bons_ci.Base.{
  Str, str_key, str_eqb_iff, ℕ, ◌-◌, true, none, some, if◌then◌else◌, ltb, ◌≡◌, refl, inl, inr,
  arith, Bool-cases, key_eq_refl,
}
use bons_ci.Base.Dict.{lookup-insert, lookup-delete}
use bons_ci.Layermerkle.Types.{LayerId}
use bons_ci.Layermerkle.HashCache.{HashCache, Laws, TtlCache, time_key, is_stale, ttl_get, ttl_set}

module _ {S : Type 0} (inner : HashCache S) (laws : Laws S inner) where
  -- A read finds what the inner cache holds, unless the entry was written longer than the time to live
  -- before; the inner cache stays valid.
  pub ttl_get_lem :
      (c : TtlCache inner) (now : ℕ) (l : LayerId) (p : Str)
      → laws.IsValid c.state
      → ((ttl_get inner c now l p).1
          ≡ (if is_stale inner c now l p then none else laws.peek c.state l p))
        × laws.IsValid (ttl_get inner c now l p).0.state
  unfolding ttl_get
  ttl_get_lem c now l p v = elim (Bool-cases (is_stale inner c now l p)) [
    | inl e ↦ rw (e, ttl_get) (refl, laws.delete-IsValid c.state l p v)
    | inr e ↦ rw (e, ttl_get) (laws.get-peek c.state l p v, laws.get-IsValid c.state l p v)
  ]

  -- An entry that a read finds to be over its time is gone for every later read.
  pub ttl_get-stale :
      (c : TtlCache inner) (now later : ℕ) (l : LayerId) (p : Str)
      → laws.IsValid c.state
      → is_stale inner c now l p ≡ true
      → (ttl_get inner (ttl_get inner c now l p).0 later l p).1 ≡ none
  unfolding ttl_get
  ttl_get-stale c now later l p v e = ground (
    arith,
    lookup-delete (time_key inner l p) (time_key inner l p) c.times,
    str_eqb_iff (time_key inner l p) (time_key inner l p),
    laws.get-peek (inner.delete c.state l p) l p (laws.delete-IsValid c.state l p v),
    laws.peek-delete c.state l l p p v,
    key_eq_refl l,
    key_eq_refl p,
  )

  -- A hash that was written is read back until its time is over, and not after it.
  pub ttl_get-ttl_set :
      (c : TtlCache inner) (then_at now : ℕ) (l : LayerId) (p h : Str)
      → laws.IsValid c.state
      → (ttl_get inner (ttl_set inner c then_at l p h) now l p).1
        ≡ (if ltb c.ttl (now - then_at) then none else some h)
  unfolding ttl_get ttl_set
  ttl_get-ttl_set c then_at now l p h v =
      let key = time_key inner l p in
      let same = str_eqb_iff key key in
      ground (
        arith,
        lookup-insert key key then_at c.times,
        same,
        laws.peek-set c.state l p h v,
        laws.get-peek (inner.set c.state l p h) l p (laws.set-IsValid c.state l p h v),
      )
