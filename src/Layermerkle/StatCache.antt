-- ===== src/Layermerkle/StatCache.antt =====
-- What the resolvers of pkg/layermerkle ask of their caches of stat results.
use bons_ci.Base.{Option, some, ◌≡◌, ◌⊎◌}
use bons_ci.Layermerkle.Types.{StatKey, StatResult}

-- A cache may forget, and never invents. `put` may fail only on a cache that is not valid.
pub record StatCache : Type 1 where
  pub Cache : Type 0
  pub IsValid : Cache → Type 0
  pub peek : Cache → StatKey → Option StatResult
  pub get : Cache → StatKey → Cache × Option StatResult
  pub put : Cache → StatKey → StatResult → Option Cache
  pub get-peek : (c : Cache) (k : StatKey) → (get c k).1 ≡ peek c k
  pub get_keeps : (c : Cache) (k q : StatKey) → peek (get c k).0 q ≡ peek c q
  pub get-IsValid : (c : Cache) (k : StatKey) → IsValid c → IsValid (get c k).0
  pub put_total :
      (c : Cache) (k : StatKey) (v : StatResult)
      → IsValid c
      → (c' : Cache) × (put c k v ≡ some c') × IsValid c'
  pub put_sound :
      (c c' : Cache) (k q : StatKey) (v w : StatResult)
      → IsValid c
      → put c k v ≡ some c'
      → peek c' q ≡ some w
      → ((k ≡ q) × (v ≡ w)) ⊎ (peek c q ≡ some w)
