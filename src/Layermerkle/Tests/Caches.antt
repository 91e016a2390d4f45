-- ===== src/Layermerkle/Tests/Caches.antt =====
-- pkg/layermerkle/cache.go: the sharded cache under a time to live.
use bons_ci.Base.{str_key, codes, str_eqb, false, ◌&&◌, none, some, if◌then◌else◌, ◌≡◌, ◌⊎◌}
use bons_ci.Layermerkle.HashCache.{TtlCache, new_ttl}
use bons_ci.Layermerkle.HashCache.Lru.{LruCache, new_lru, get_hash, set_hash}
use bons_ci.Layermerkle.HashCache.Lru.Laws.{lru, new_lru-IsValid, get_hash-set_hash}

abbrev small : LruCache
small = new_lru 512

abbrev timed : TtlCache lru
timed = new_ttl lru small 60

get_hash-set_hash_example :
    ((get_hash (set_hash small (codes "l1") (codes "f") (codes "h")) (codes "l1") (codes "f")).1 ≡ (
      if str_eqb (codes "l1") (codes "l1") && str_eqb (codes "f") (codes "f")
      then some (codes "h")
      else (get_hash small (codes "l1") (codes "f")).1))
    ⊎ (((str_eqb (codes "l1") (codes "l1") && str_eqb (codes "f") (codes "f")) ≡ false)
        × ((get_hash
              (set_hash small (codes "l1") (codes "f") (codes "h"))
              (codes "l1")
              (codes "f")).1
            ≡ none))
get_hash-set_hash_example =
    get_hash-set_hash small (codes "l1") (codes "l1") (codes "f") (codes "f") (codes "h")
      (new_lru-IsValid 512)
