-- ===== src/Layermerkle/Tests.antt =====
-- pkg/layermerkle: runs of the code on small inputs.
mod Trees
mod Caches
mod Dedups
use bons_ci.Base.{
  Str, codes, str_eqb, ℕ, ◌+◌, ◌≤◌, Bool, true, false, not, ◌&&◌, ◌||◌, List, [], ◌∷◌, none, some,
  is_some, if◌then◌else◌, ◌≡◌, refl, list_eqb, str_key, inl,
}
use bons_ci.Base.Dict.{lookup}
use bons_ci.Base.Segments.{split, parent}
use bons_ci.Layermerkle.Types.{StatKey, StatResult, ResolveError, same_key}
use bons_ci.Layermerkle.Layer.{
  LayerInfo, LayerRegistry, find_layer, opaque_whiteout_name, opaque_marker,
}
use bons_ci.Layermerkle.Ring.{
  RingStatCache, new_ring, zero_slot, evict_at_hand, update_slot, put, invalidate_layer, len,
}
use bons_ci.Layermerkle.Ring.Laws.{
  IsValid, peek, at_hand, new_ring-IsValid, put_total, put-IsValid, peek-put, len-put,
  peek-invalidate_layer,
}
use bons_ci.Layermerkle.Resolver.{Lstat, failed, find_owner_layer}
use bons_ci.Layermerkle.Resolver.Caching.{
  true_search, Answers, Coherent, find_owner_layer-true_search,
}
use bons_ci.Layermerkle.Resolver.MapCache.{ring_stat_cache}
use bons_ci.Layermerkle.Whiteout.{
  Location, build_whiteout_index, is_masked, has_file_whiteout, ancestor_is_opaque,
}
use bons_ci.Layermerkle.Whiteout.Index.{among, is_masked-build_whiteout_index}

abbrev key_a : StatKey
key_a = (codes "l1", codes "a")

abbrev ring : RingStatCache
ring = new_ring 4

abbrev ring_a : RingStatCache
ring_a = record {
  slots =
      record { key = key_a; result = StatResult.present; valid = true }
      ∷ zero_slot
      ∷ zero_slot
      ∷ zero_slot
      ∷ [];
  hand = 1;
  cap = 4;
  hits = 0;
  misses = 0;
  evicted = 0;
}

ring-IsValid : IsValid ring
ring-IsValid = (new_ring-IsValid 4 key_a).0

put_run : put ring key_a StatResult.present ≡ some ring_a
unfolding put new_ring evict_at_hand update_slot
put_run = refl

peek-put_example : peek ring_a key_a ≡ (
    if same_key key_a key_a
    then some StatResult.present
    else if not (is_some (peek ring key_a)) && at_hand ring key_a
    then none
    else peek ring key_a)
peek-put_example = peek-put ring ring_a key_a key_a StatResult.present ring-IsValid put_run

abbrev info : LayerInfo
info = record { id = codes "l1"; diff_path = codes "d1"; chain_id = [] }

abbrev registry : LayerRegistry
registry = (codes "l1", info) ∷ []

-- The layer holds "d/f" and an opaque marker in "d".
abbrev lstat : Lstat
lstat dir p =
    list_eqb str_key p (codes "d" ∷ codes "f" ∷ [])
    || list_eqb str_key p (codes "d" ∷ opaque_marker ∷ [])

abbrev file : Str
file = codes "d/f"

abbrev never : ℕ → Bool
never i = false

ring-Coherent : Coherent registry lstat ring_stat_cache ring
ring-Coherent k = inl (new_ring-IsValid 4 k).1

find_owner_layer-true_search_example :
    Answers registry lstat ring_stat_cache
      (find_owner_layer ring_stat_cache registry lstat never (codes "l1" ∷ []) file ring)
      (true_search registry lstat never (codes "l1" ∷ []) file)
find_owner_layer-true_search_example =
    find_owner_layer-true_search registry lstat ring_stat_cache never (codes "l1" ∷ []) file ring
      ring-IsValid ring-Coherent

find_run : find_layer registry (codes "l1") ≡ some info
unfolding lookup
find_run = refl

file_here : lstat (codes "d1") (split file) ≡ true
unfolding split
file_here = refl

marker_here : lstat (codes "d1") (opaque_whiteout_name (parent (split file))) ≡ true
unfolding split opaque_whiteout_name
marker_here = refl

abbrev entries : List Location
entries = ([], codes ".wh.f") ∷ (codes "d" ∷ [], opaque_marker) ∷ []

is_masked-build_whiteout_index_example :
    is_masked (build_whiteout_index entries) (codes "d" ∷ [], codes "g") ≡ (
      has_file_whiteout (among entries) (codes "d" ∷ [], codes "g")
      || ancestor_is_opaque (among entries) (codes "d" ∷ [], codes "g"))
is_masked-build_whiteout_index_example =
    is_masked-build_whiteout_index entries (codes "d" ∷ []) (codes "g") refl
