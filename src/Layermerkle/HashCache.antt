-- ===== src/Layermerkle/HashCache.antt =====
-- pkg/layermerkle/cache.go: the interface of hash caches, the cache that holds nothing, and the one that
-- forgets after a time. Statistics and hooks are left out of the interface; times are numbers.
pub mod Lru
pub mod Expiry
use bons_ci.Base.{
  Str, str_key, str_eqb, str_eqb_iff, ℕ, ◌-◌, Bool, true, false, ◌&&◌, ◌||◌, List, [], ◌∷◌, ◌++◌,
  Option, none, some, if◌then◌else◌, ltb, ◌≡◌, ◌⊎◌, refl, inl, inr, ap, ◌∙◌, arith, Option-cases,
  Bool-cases,
}
use bons_ci.Base.Dict.{lookup, insert, delete, lookup-insert}
use bons_ci.Layermerkle.Types.{LayerId}

-- `HashCache`: a read may change the state, as it moves an entry to the front.
pub record HashCache (S : Type 0) : Type 0 where
  pub get : S → LayerId → Str → S × Option Str
  pub set : S → LayerId → Str → Str → S
  pub delete : S → LayerId → Str → S
  pub delete_layer : S → LayerId → S
  pub len : S → ℕ

-- What a user of a cache relies on: what it holds, as a function of the state, and how each operation
-- changes it. A write may make the cache forget other entries, and changes none.
pub record Laws (S : Type 0) (c : HashCache S) : Type 1 where
  pub IsValid : S → Type 0
  pub peek : S → LayerId → Str → Option Str
  pub get-peek : (s : S) (l : LayerId) (p : Str) → IsValid s → (c.get s l p).1 ≡ peek s l p
  pub peek-get :
      (s : S) (l j : LayerId) (p q : Str) → IsValid s → peek (c.get s l p).0 j q ≡ peek s j q
  pub get-IsValid : (s : S) (l : LayerId) (p : Str) → IsValid s → IsValid (c.get s l p).0
  pub peek-set : (s : S) (l : LayerId) (p h : Str) → IsValid s → peek (c.set s l p h) l p ≡ some h
  pub peek-set_ne :
      (s : S) (l j : LayerId) (p q h : Str)
      → IsValid s
      → (str_eqb l j && str_eqb p q) ≡ false
      → (peek (c.set s l p h) j q ≡ peek s j q) ⊎ (peek (c.set s l p h) j q ≡ none)
  pub set-IsValid : (s : S) (l : LayerId) (p h : Str) → IsValid s → IsValid (c.set s l p h)
  pub peek-delete :
      (s : S) (l j : LayerId) (p q : Str)
      → IsValid s
      → peek (c.delete s l p) j q ≡ (if str_eqb l j && str_eqb p q then none else peek s j q)
  pub delete-IsValid : (s : S) (l : LayerId) (p : Str) → IsValid s → IsValid (c.delete s l p)
  pub peek-delete_layer :
      (s : S) (l j : LayerId) (q : Str)
      → IsValid s
      → peek (c.delete_layer s l) j q ≡ (if str_eqb l j then none else peek s j q)
  pub delete_layer-IsValid : (s : S) (l : LayerId) → IsValid s → IsValid (c.delete_layer s l)

-- `NoopHashCache`
abbrev pub noop : HashCache (Unit {0})
noop = record {
  get = λ s l p. (s, none);
  set = λ s l p h. s;
  delete = λ s l p. s;
  delete_layer = λ s l. s;
  len = λ s. 0;
}

module _ {S : Type 0} (inner : HashCache S) where
  -- `TTLHashCache`, with its ttl and the times of the writes.
  pub record TtlCache : Type 0 where
    pub state : S
    pub ttl : ℕ
    pub times : List (Str × ℕ)

  abbrev pub new_ttl : S → ℕ → TtlCache
  new_ttl s ttl = record { state = s; ttl = ttl; times = [] }

  -- fmt.Sprintf("%s\x00%s", layerID, relPath)
  abbrev pub time_key : LayerId → Str → Str
  time_key l p = l ++ 0 ∷ p

  -- The entry was written longer than the ttl before now.
  abbrev pub is_stale : TtlCache → ℕ → LayerId → Str → Bool
  is_stale c now l p = elim (lookup (time_key l p) c.times) [
    | none ↦ false
    | some t ↦ ltb c.ttl (now - t)
  ]

  unfoldable pub ttl_get : TtlCache → ℕ → LayerId → Str → TtlCache × Option Str
  ttl_get c now l p =
      if is_stale c now l p
      then (
        record c { state = inner.delete c.state l p; times = delete (time_key l p) c.times },
        none,
      )
      else let r = inner.get c.state l p in (record c { state = r.0 }, r.1)

  unfoldable pub ttl_set : TtlCache → ℕ → LayerId → Str → Str → TtlCache
  ttl_set c now l p h = record c {
    state = inner.set c.state l p h;
    times = insert (time_key l p) now c.times;
  }

  unfoldable pub ttl_delete : TtlCache → LayerId → Str → TtlCache
  ttl_delete c l p = record c { state = inner.delete c.state l p }

  unfoldable pub ttl_delete_layer : TtlCache → LayerId → TtlCache
  ttl_delete_layer c l = record c { state = inner.delete_layer c.state l }

  abbrev pub ttl_len : TtlCache → ℕ
  ttl_len c = inner.len c.state
