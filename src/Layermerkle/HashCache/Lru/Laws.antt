-- ===== src/Layermerkle/HashCache/Lru/Laws.antt =====
-- pkg/layermerkle/cache.go: the 256 shards together keep the laws of the interface.
use bons_ci.Base.{
  Str, str_key, str_eqb, str_eqb_iff, ℕ, ◌<◌, true, false, ◌&&◌, List, [], ◌∷◌, ◌++◌, Option, none,
  some, if◌then◌else◌, length, key_eq_sym, ◌≡◌, ◌⊎◌, refl, inl, inr, sym, ◌∙◌, ap, subst, arith,
  Bool-cases, Option-cases, All, set, get_elem?, All-get_elem?, All-set, All-map, All-replicate,
  get_elem?-set, get_elem?-set_ne, get_elem?-lt, get_elem?-map, length-set, length-map,
  length-replicate, ◌==◌, ==_iff,
}
use bons_ci.Base.Bits.{bit_and-le}
use bons_ci.Base.Dict.{lookup}
use bons_ci.Layermerkle.Types.{LayerId, StatKey, stat_key, same_key}
use bons_ci.Layermerkle.HashCache.{HashCache, Laws}
use bons_ci.Layermerkle.HashCache.Lru.{
  CacheShard, LruCache, new_lru, new_shard, per_shard, get_at, set_at, delete_at, delete_layer_at,
  shard_index, fnv32, change_shard, get_hash, set_hash, delete_hash, delete_layer_hashes,
  len_hashes,
}
use bons_ci.Layermerkle.HashCache.Lru.Shards.{
  IsValidShard, get_at_lem, set_at_lem, delete_at_lem, delete_layer_at_lem,
}

-- There are 256 shards, each of them valid.
abbrev pub IsValidCache : LruCache → Type 0
IsValidCache c = (length c.shards ≡ 256) × All IsValidShard c.shards

abbrev peek_in : List CacheShard → StatKey → Option Str
peek_in ss k = elim (get_elem? ss (shard_index k)) [ none ↦ none | some s ↦ lookup k s.entries ]

-- The hash that the shard of a key has for it.
abbrev pub peek_hash : LruCache → LayerId → Str → Option Str
peek_hash c l p = peek_in c.shards (l, p)

shard_index-lt : (k : StatKey) → shard_index k < 256
unfolding shard_index
shard_index-lt k = omega (arith, bit_and-le (fnv32 (k.0 ++ 0 ∷ k.1)) 255)

shard_at :
    (c : LruCache) (k : StatKey)
    → IsValidCache c
    → (s : CacheShard) × (get_elem? c.shards (shard_index k) ≡ some s) × IsValidShard s
shard_at c k v =
    let (s, e) = get_elem?-lt c.shards (shard_index k) (omega (arith, shard_index-lt k, v.0)) in
    (s, e, All-get_elem? IsValidShard c.shards (shard_index k) s v.1 e)

-- The shard of a key replaced by another.
replaced :
    (c : LruCache) (k j : StatKey) (t : CacheShard)
    → IsValidCache c
    → peek_in (set c.shards (shard_index k) t) j
      ≡ (if shard_index k == shard_index j then lookup j t.entries else peek_in c.shards j)
replaced c k j t v = elim (Bool-cases (shard_index k == shard_index j)) [
  | inl h ↦
      let same : shard_index k ≡ shard_index j = (==_iff (shard_index k) (shard_index j)).0 h in
      let there = get_elem?-set c.shards (shard_index k) t (omega (arith, shard_index-lt k, v.0)) in
      ground (arith, there, same)
  | inr h ↦ ground (arith, get_elem?-set_ne c.shards (shard_index k) (shard_index j) t h)
]

replaced-IsValid :
    (c : LruCache) (k : StatKey) (t : CacheShard)
    → IsValidCache c
    → IsValidShard t
    → (length (set c.shards (shard_index k) t) ≡ 256)
      × All IsValidShard (set c.shards (shard_index k) t)
replaced-IsValid c k t v w = (
  length-set c.shards (shard_index k) t ∙ v.0,
  All-set IsValidShard c.shards (shard_index k) t v.1 w,
)

abbrev pub lru : HashCache LruCache
lru = record {
  get = get_hash;
  set = set_hash;
  delete = delete_hash;
  delete_layer = delete_layer_hashes;
  len = len_hashes;
}

get_shards :
    (c : LruCache) (l : LayerId) (p : Str) (s : CacheShard)
    → get_elem? c.shards (shard_index (l, p)) ≡ some s
    → ((get_hash c l p).0.shards ≡ set c.shards (shard_index (l, p)) (get_at s (l, p)).0)
      × ((get_hash c l p).1 ≡ (get_at s (l, p)).1)
unfolding get_hash
get_shards c l p s e = rw (get_hash, e) (refl, refl)

-- What the cache holds for a key of the shard.
own_shard :
    (c : LruCache) (k j : StatKey) (s : CacheShard)
    → get_elem? c.shards (shard_index k) ≡ some s
    → shard_index k == shard_index j ≡ true
    → peek_in c.shards j ≡ lookup j s.entries
own_shard c k j s e h =
    let same : shard_index k ≡ shard_index j = (==_iff (shard_index k) (shard_index j)).0 h in
    ground (arith, e, same)

index_refl : (k : StatKey) → shard_index k == shard_index k ≡ true
index_refl k = (==_iff (shard_index k) (shard_index k)).1 refl

pub get_peek :
    (c : LruCache) (l : LayerId) (p : Str) → IsValidCache c → (get_hash c l p).1 ≡ peek_hash c l p
get_peek c l p v =
    let (s, e, w) = shard_at c (l, p) v in
    let (_, answer) = get_shards c l p s e in
    let (same, _, _) = get_at_lem s (l, p) (l, p) w in
    answer ∙ same ∙ sym (own_shard c (l, p) (l, p) s e (index_refl (l, p)))

pub peek_get :
    (c : LruCache) (l j : LayerId) (p q : Str)
    → IsValidCache c
    → peek_hash (get_hash c l p).0 j q ≡ peek_hash c j q
peek_get c l j p q v =
    let (s, e, w) = shard_at c (l, p) v in
    let (shards, _) = get_shards c l p s e in
    let (_, same, _) = get_at_lem s (l, p) (j, q) w in
    ap (λ ss. peek_in ss (j, q)) shards
    ∙ replaced c (l, p) (j, q) (get_at s (l, p)).0 v
    ∙ ground (arith, same, own_shard c (l, p) (j, q) s e)

IsValid_replaced :
    (c next : LruCache) (k : StatKey) (t : CacheShard)
    → IsValidCache c
    → next.shards ≡ set c.shards (shard_index k) t
    → IsValidShard t
    → IsValidCache next
IsValid_replaced c next k t v shards w =
    subst (λ ss. (length ss ≡ 256) × All IsValidShard ss) (sym shards) (replaced-IsValid c k t v w)

pub get_IsValid :
    (c : LruCache) (l : LayerId) (p : Str) → IsValidCache c → IsValidCache (get_hash c l p).0
get_IsValid c l p v =
    let (s, e, w) = shard_at c (l, p) v in
    let (shards, _) = get_shards c l p s e in
    let (_, _, valid) = get_at_lem s (l, p) (l, p) w in
    IsValid_replaced c (get_hash c l p).0 (l, p) (get_at s (l, p)).0 v shards valid

set_shards :
    (c : LruCache) (l : LayerId) (p h : Str) (s : CacheShard)
    → get_elem? c.shards (shard_index (l, p)) ≡ some s
    → (set_hash c l p h).shards ≡ set c.shards (shard_index (l, p)) (set_at s (l, p) h)
unfolding set_hash change_shard
set_shards c l p h s e = rw (set_hash, change_shard, e) refl

pub peek_set :
    (c : LruCache) (l : LayerId) (p h : Str)
    → IsValidCache c
    → peek_hash (set_hash c l p h) l p ≡ some h
peek_set c l p h v =
    let (s, e, w) = shard_at c (l, p) v in
    let (there, _, _) = set_at_lem s (l, p) (l, p) h w in
    ap (λ ss. peek_in ss (l, p)) (set_shards c l p h s e)
    ∙ replaced c (l, p) (l, p) (set_at s (l, p) h) v
    ∙ ground (arith, index_refl (l, p), there)

pub peek_set_ne :
    (c : LruCache) (l j : LayerId) (p q h : Str)
    → IsValidCache c
    → (str_eqb l j && str_eqb p q) ≡ false
    → (peek_hash (set_hash c l p h) j q ≡ peek_hash c j q)
      ⊎ (peek_hash (set_hash c l p h) j q ≡ none)
unfolding same_key
peek_set_ne c l j p q h v ne =
    let (s, e, w) = shard_at c (l, p) v in
    let (_, kept, _) = set_at_lem s (l, p) (j, q) h w in
    let now =
      ap (λ ss. peek_in ss (j, q)) (set_shards c l p h s e)
      ∙ replaced c (l, p) (j, q) (set_at s (l, p) h) v in
    ground (arith, now, kept, ne, own_shard c (l, p) (j, q) s e)

pub set_IsValid :
    (c : LruCache) (l : LayerId) (p h : Str) → IsValidCache c → IsValidCache (set_hash c l p h)
set_IsValid c l p h v =
    let (s, e, w) = shard_at c (l, p) v in
    let (_, _, valid) = set_at_lem s (l, p) (l, p) h w in
    IsValid_replaced c (set_hash c l p h) (l, p) (set_at s (l, p) h) v (set_shards c l p h s e)
      valid

delete_shards :
    (c : LruCache) (l : LayerId) (p : Str) (s : CacheShard)
    → get_elem? c.shards (shard_index (l, p)) ≡ some s
    → (delete_hash c l p).shards ≡ set c.shards (shard_index (l, p)) (delete_at s (l, p))
unfolding delete_hash change_shard
delete_shards c l p s e = rw (delete_hash, change_shard, e) refl

same_index :
    (l j : LayerId) (p q : Str)
    → (str_eqb l j && str_eqb p q) ≡ true
    → shard_index (l, p) == shard_index (j, q) ≡ true
unfolding same_key
same_index l j p q h =
    let same : (l, p) ≡ (j, q) = (stat_key.eqb_iff (l, p) (j, q)).0 h in
    (==_iff (shard_index (l, p)) (shard_index (j, q))).1 (ap shard_index same)

pub peek_delete :
    (c : LruCache) (l j : LayerId) (p q : Str)
    → IsValidCache c
    → peek_hash (delete_hash c l p) j q
      ≡ (if str_eqb l j && str_eqb p q then none else peek_hash c j q)
unfolding same_key
peek_delete c l j p q v =
    let (s, e, w) = shard_at c (l, p) v in
    let (gone, _) = delete_at_lem s (l, p) (j, q) w in
    ap (λ ss. peek_in ss (j, q)) (delete_shards c l p s e)
    ∙ replaced c (l, p) (j, q) (delete_at s (l, p)) v
    ∙ ground (arith, gone, own_shard c (l, p) (j, q) s e, same_index l j p q)

pub delete_IsValid :
    (c : LruCache) (l : LayerId) (p : Str) → IsValidCache c → IsValidCache (delete_hash c l p)
delete_IsValid c l p v =
    let (s, e, w) = shard_at c (l, p) v in
    let (_, valid) = delete_at_lem s (l, p) (l, p) w in
    IsValid_replaced c (delete_hash c l p) (l, p) (delete_at s (l, p)) v (delete_shards c l p s e)
      valid

pub peek_delete_layer :
    (c : LruCache) (l j : LayerId) (q : Str)
    → IsValidCache c
    → peek_hash (delete_layer_hashes c l) j q ≡ (if str_eqb l j then none else peek_hash c j q)
unfolding delete_layer_hashes
peek_delete_layer c l j q v =
    let (s, e, w) = shard_at c (j, q) v in
    let (gone, _) = delete_layer_at_lem s l (j, q) w in
    ground (
      arith,
      get_elem?-map (λ t. delete_layer_at t l) c.shards (shard_index (j, q)) s e,
      e,
      gone,
      key_eq_sym l j,
    )

pub delete_layer_IsValid :
    (c : LruCache) (l : LayerId) → IsValidCache c → IsValidCache (delete_layer_hashes c l)
unfolding delete_layer_hashes
delete_layer_IsValid c l v = (
  length-map (λ t. delete_layer_at t l) c.shards ∙ v.0,
  All-map IsValidShard IsValidShard (λ t. delete_layer_at t l) c.shards
      (λ t w. (delete_layer_at_lem t l ([], []) w).1) v.1,
)

-- The sharded cache keeps what its users rely on.
abbrev pub lru_laws : Laws LruCache lru
lru_laws = record {
  IsValid = IsValidCache;
  peek = peek_hash;
  get-peek = get_peek;
  peek-get = peek_get;
  get-IsValid = get_IsValid;
  peek-set = peek_set;
  peek-set_ne = peek_set_ne;
  set-IsValid = set_IsValid;
  peek-delete = peek_delete;
  delete-IsValid = delete_IsValid;
  peek-delete_layer = peek_delete_layer;
  delete_layer-IsValid = delete_layer_IsValid;
}

pub new_lru-IsValid : (total : ℕ) → IsValidCache (new_lru total)
unfolding new_lru
new_lru-IsValid total = (
  length-replicate 256 (new_shard (per_shard total)),
  All-replicate IsValidShard 256 (new_shard (per_shard total)) (tt, omega arith, ground arith),
)

-- A hash that is set in a valid cache is what the next read of its file in its layer answers, and the read
-- of another file answers as before or finds nothing.
pub get_hash-set_hash :
    (c : LruCache) (l j : LayerId) (p q h : Str)
    → IsValidCache c
    → ((get_hash (set_hash c l p h) j q).1
        ≡ (if str_eqb l j && str_eqb p q then some h else (get_hash c j q).1))
      ⊎ (((str_eqb l j && str_eqb p q) ≡ false) × ((get_hash (set_hash c l p h) j q).1 ≡ none))
get_hash-set_hash c l j p q h v = elim (Bool-cases (str_eqb l j && str_eqb p q)) [
  | inl e ↦
      let (same_l, same_p) : (l ≡ j) × (p ≡ q) = ground (arith, str_eqb_iff l j, str_eqb_iff p q) in
      inl (
        ground (arith, get_peek (set_hash c l p h) j q (set_IsValid c l p h v), peek_set c l p h v))
  | inr e ↦ ground (
    arith,
    get_peek (set_hash c l p h) j q (set_IsValid c l p h v),
    get_peek c j q v,
    peek_set_ne c l j p q h v e,
  )
]

pub peek_hash-new_lru : (total : ℕ) (l : LayerId) (p : Str) → peek_hash (new_lru total) l p ≡ none
unfolding new_lru lookup
peek_hash-new_lru total l p =
    elim (Option-cases (get_elem? (new_lru total).shards (shard_index (l, p)))) [
      | inl e ↦ rw (e, peek_in)
      | inr (s, e) ↦
          let bare : s.entries ≡ [] =
            All-get_elem? (λ x. x.entries ≡ []) (new_lru total).shards (shard_index (l, p)) s
              (All-replicate (λ x. x.entries ≡ []) 256 (new_shard (per_shard total)) refl) e in
          rw (e, peek_in) (ap (λ m. lookup (l, p) m) bare)
    ]
