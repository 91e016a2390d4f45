-- ===== src/Layermerkle/Types.antt =====
-- pkg/layermerkle: the identifiers and results that its parts share.
use bons_ci.Base.{Str, str_eqb, str_eqb_iff, Bool, true, ◌&&◌, ◌≡◌, ◌↔◌, arith, Key}

-- A layer, by its digest.
abbrev pub LayerId : Type 0
LayerId = Str

-- A layer and a path in it: `statKey`, `statRingKey` and `cacheKey`.
abbrev pub StatKey : Type 0
StatKey = Str × Str

pub data StatResult : Type 0 where
  unknown present absent whiteout : StatResult

pub data ResolveError : Type 0 where
  layer_not_found whiteout context : ResolveError

-- `==` on keys.
unfoldable pub same_key : StatKey → StatKey → Bool
same_key a b = str_eqb a.0 b.0 && str_eqb a.1 b.1

pub same_key_iff : (a b : StatKey) → (same_key a b ≡ true) ↔ (a ≡ b)
unfolding same_key
same_key_iff (x, y) (u, v) = ground (arith, str_eqb_iff x u, str_eqb_iff y v)

instance abbrev pub stat_key : Key StatKey
stat_key = record { eqb = same_key; eqb_iff = same_key_iff }
