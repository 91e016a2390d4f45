-- ===== src/Fshash/Cache/Sharded/Laws.antt =====
-- pkg/fshash/cache/store.go: what the sharded store answers.
use bons_ci.Base.{
  Str, str_key, ℕ, zero, suc, ◌+◌, ◌*◌, ◌/◌, ◌≤◌, Option, none, some, length, length-set,
  length-replicate, All, All-get_elem?, get_elem?-lt, get_elem?, set, ◌==◌, All-set, get_elem?-set,
  get_elem?-set_ne, get_elem?-bound, ==_iff, All-replicate, ◌≡◌, refl, ap, sym, ◌∙◌, arith, inl,
  inr, Bool-cases,
}
use bons_ci.Base.Bits.{bit_and-le}
use bons_ci.Base.Dict.{lookup}
use bons_ci.Fshash.Layer.Chain.{LayerId}
use bons_ci.Fshash.Cache.Shard.{Shard, new_shard, invalidate_by_prefix, size}
use bons_ci.Fshash.Cache.Shard
use bons_ci.Fshash.Cache.Shard.Laws.{
  lookup-put, put-IsValid, get-IsValid, get-lookup, invalidate_by_prefix-IsValid, distinct,
}
use bons_ci.Fshash.Cache.Sharded.{
  ShardedStore, composite_key, shard_index, get_shard, with_shard, get, put, double_until,
  shard_count, default_if_zero, at_least, new_sharded_store, fnv_hash,
}

double_until-ge : (fuel n count : ℕ) → n ≤ double_until fuel n count
unfolding double_until
double_until-ge zero n count = omega arith
double_until-ge (suc fuel) n count = ground (arith, double_until-ge fuel (n * 2) count)

module _ {V : Type 0} where
  -- One shard for each value of the masked hash, and each shard well-formed.
  abbrev pub IsValidStore : ShardedStore V → Type 0
  IsValidStore ss = (length ss.shards ≡ ss.shard_mask + 1) × All Shard.Laws.IsValid ss.shards

  -- What the shard of the key holds.
  unfoldable pub peek : ShardedStore V → LayerId → Str → Option V
  peek ss id path = elim (get_shard ss (composite_key id path)) [
    | none ↦ none
    | some s ↦ lookup (composite_key id path) s.entries
  ]

  pub shard_of :
      (ss : ShardedStore V) (key : Str)
      → IsValidStore ss
      → (s : Shard V) × (get_shard ss key ≡ some s) × Shard.Laws.IsValid s
  unfolding get_shard shard_index
  shard_of ss key h =
      let (s, e) =
        get_elem?-lt ss.shards (shard_index ss key)
          (omega (arith, bit_and-le (fnv_hash key) ss.shard_mask)) in
      (s, e, All-get_elem? Shard.Laws.IsValid ss.shards (shard_index ss key) s h.1 e)

  with_shard-IsValid :
      (ss : ShardedStore V) (key : Str) (s : Shard V)
      → IsValidStore ss
      → Shard.Laws.IsValid s
      → IsValidStore (with_shard ss key s)
  with_shard-IsValid ss key s h k = (
    length-set ss.shards (shard_index ss key) s ∙ h.0,
    All-set Shard.Laws.IsValid ss.shards (shard_index ss key) s h.1 k,
  )

  get_shard-with_shard :
      (ss : ShardedStore V) (key : Str) (s : Shard V)
      → IsValidStore ss
      → get_shard (with_shard ss key s) key ≡ some s
  unfolding get_shard shard_index
  get_shard-with_shard ss key s h =
      get_elem?-set ss.shards (shard_index ss key) s
        (omega (arith, bit_and-le (fnv_hash key) ss.shard_mask))

  -- Replacing the shard of a key by one that answers as it does changes no answer.
  peek-with_shard :
      (ss : ShardedStore V) (key : Str) (s t : Shard V) (j : LayerId) (q : Str)
      → get_shard ss key ≡ some s
      → ((k : Str) → lookup k t.entries ≡ lookup k s.entries)
      → peek (with_shard ss key t) j q ≡ peek ss j q
  unfolding peek get_shard shard_index
  peek-with_shard ss key s t j q e same =
      let i = shard_index ss key in
      let m = shard_index ss (composite_key j q) in
      elim (Bool-cases (i == m)) [
        | inr apart ↦ rw (peek, get_shard, get_elem?-set_ne ss.shards i m t apart) refl
        | inl equal ↦
            let there : i ≡ m = (==_iff i m).0 equal in
            let before : get_elem? ss.shards m ≡ some s =
              ap (get_elem? ss.shards) (sym there) ∙ e in
            let now : get_elem? (set ss.shards i t) m ≡ some t =
              ap (get_elem? (set ss.shards i t)) (sym there)
              ∙ get_elem?-set ss.shards i t (get_elem?-bound ss.shards i s e) in
            rw (peek, get_shard, now, before) (same (composite_key j q))
      ]

  -- On a valid store a write does not panic, keeps the store valid, and is read back.
  pub sharded_put_total :
      (ss : ShardedStore V) (id : LayerId) (path : Str) (v : V)
      → IsValidStore ss
      → (next : ShardedStore V) × (put ss id path v ≡ some next)
        × IsValidStore next
        × (peek next id path ≡ some v)
  unfolding put peek
  sharded_put_total ss id path v h =
      let key = composite_key id path in
      let (s, e, k) = shard_of ss key h in
      let t = Shard.put s key v in
      (
        with_shard ss key t,
        rw (put, e) refl,
        with_shard-IsValid ss key t h (put-IsValid s key v k),
        rw (peek, get_shard-with_shard ss key t h) (lookup-put s key v k),
      )

  -- On a valid store a read does not panic, keeps the store valid, answers what the store holds for the
  -- key, and changes no answer.
  pub sharded_get_total :
      (ss : ShardedStore V) (id : LayerId) (path : Str)
      → IsValidStore ss
      → (next : ShardedStore V) × (get ss id path ≡ some (next, peek ss id path))
        × IsValidStore next
        × ((j : LayerId) (q : Str) → peek next j q ≡ peek ss j q)
  unfolding get peek
  sharded_get_total ss id path h =
      let key = composite_key id path in
      let (s, e, k) = shard_of ss key h in
      let t = (Shard.get s key).0 in
      (
        with_shard ss key t,
        rw (get, peek, e, (get-lookup s key key).0) refl,
        with_shard-IsValid ss key t h (get-IsValid s key k),
        λ j q. peek-with_shard ss key s t j q e (λ o. (get-lookup s key o).1),
      )

new_shard-IsValid : (V : Type 0) (c : ℕ) → 1 ≤ c → Shard.Laws.IsValid (new_shard {V = V} c)
unfolding new_shard size
new_shard-IsValid V c h = (refl, omega arith, h)

pub new_sharded_store-IsValid :
    (V : Type 0) (requested max_entries : ℕ)
    → IsValidStore (new_sharded_store {V = V} requested max_entries)
unfolding new_sharded_store shard_count
new_sharded_store-IsValid V requested max_entries =
    let n = shard_count requested in
    let cap = at_least 16 (default_if_zero 65536 max_entries / n) in
    let some_shards =
      double_until-ge (default_if_zero 16 requested) 1 (default_if_zero 16 requested) in
    (
      omega (arith, length-replicate n (new_shard {V = V} cap)),
      All-replicate Shard.Laws.IsValid n (new_shard cap) (new_shard-IsValid V cap (ground arith)),
    )
