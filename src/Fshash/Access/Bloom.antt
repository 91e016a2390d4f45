-- ===== src/Fshash/Access/Bloom.antt =====
-- pkg/fshash/access/filter.go: `BloomFilter`. The sizes that `NewBloomFilter` finds by floating point are
-- parameters; a word is a number below 2^64. A method holds the mutex throughout.

pub mod Words
pub mod Laws
use Prim.Native.Nat.{bit_and, bit_or, bit_xor}
use bons_ci.Base.{
  Str, ℕ, zero, suc, ◌+◌, ◌-◌, ◌*◌, ◌/◌, ◌%◌, ◌^◌, Bool, true, false, List, [], ◌∷◌, ◌++◌, Option,
  none, some, if◌then◌else◌, get_elem?, set, replicate, length, ◌==◌, ◌&&◌, not,
}
use bons_ci.Fshash.Layer.Chain.{LayerId}
use bons_ci.Fshash.Cache.Sharded.{composite_key, two_to_64, offset64, prime64, fnv_loop}

pub record BloomFilter : Type 0 where
  pub bits : List ℕ
  pub k : ℕ
  pub n : ℕ
  pub mask : ℕ

-- The filter that `NewBloomFilter` returns, for its number of bits and of hashes.
unfoldable pub new_bloom_filter : ℕ → ℕ → BloomFilter
new_bloom_filter m k = record {
  bits = replicate (if m / 64 == 0 then 1 else m / 64) 0;
  k = if k == 0 then 1 else k;
  n = 0;
  mask = m - 1;
}

abbrev pub offset2 : ℕ
offset2 = 2166136261

unfoldable pub dual_hash : LayerId → Str → ℕ × ℕ
unfolding composite_key fnv_loop
dual_hash id path =
    (fnv_loop offset64 (composite_key id path), fnv_loop offset2 (composite_key id path))

-- `(h1 + uint64(i)*h2) & bf.mask`
unfoldable pub position : BloomFilter → ℕ × ℕ → ℕ → ℕ
position f h i = bit_and ((h.0 + i * h.1) % two_to_64) f.mask

-- The positions of the rounds i, i + 1, … of a loop.
unfoldable pub positions : BloomFilter → ℕ × ℕ → ℕ → ℕ → List ℕ
unfolding position
positions f h zero i = []
positions f h (suc rounds) i = position f h i ∷ positions f h rounds (i + 1)

-- `bits[pos/64] & (1 << (pos%64)) != 0`; `none` is the panic of an index out of range.
unfoldable pub has_bit : List ℕ → ℕ → Option Bool
has_bit bits pos = elim (get_elem? bits (pos / 64)) [
  | none ↦ none
  | some w ↦ some (not (bit_and w (2 ^ (pos % 64)) == 0))
]

-- `bits[pos/64] |= 1 << (pos % 64)`
unfoldable pub set_bit : List ℕ → ℕ → Option (List ℕ)
set_bit bits pos = elim (get_elem? bits (pos / 64)) [
  | none ↦ none
  | some w ↦ some (set bits (pos / 64) (bit_or w (2 ^ (pos % 64))))
]

-- The loop of `Test`, which ends at the first position that is clear.
unfoldable pub test_all : List ℕ → List ℕ → Option Bool
unfolding has_bit
test_all bits [] = some true
test_all bits (p ∷ ps) = elim (has_bit bits p) [
  | none ↦ none
  | some false ↦ some false
  | some true ↦ test_all bits ps
]

-- The loop of `Add`.
unfoldable pub set_all : List ℕ → List ℕ → Option (List ℕ)
unfolding set_bit
set_all bits [] = some bits
set_all bits (p ∷ ps) = elim (set_bit bits p) [ none ↦ none | some next ↦ set_all next ps ]

-- The loop of `TestAndAdd`.
unfoldable pub test_and_set_all : List ℕ → List ℕ → Bool → Option (List ℕ × Bool)
unfolding has_bit set_bit
test_and_set_all bits [] present = some (bits, present)
test_and_set_all bits (p ∷ ps) present = elim (has_bit bits p) [
  | none ↦ none
  | some b ↦ elim (set_bit bits p) [
    | none ↦ none
    | some next ↦ test_and_set_all next ps (if b then present else false)
  ]
]

unfoldable pub test : BloomFilter → LayerId → Str → Option Bool
unfolding dual_hash positions test_all
test f id path = test_all f.bits (positions f (dual_hash id path) f.k 0)

unfoldable pub add : BloomFilter → LayerId → Str → Option BloomFilter
unfolding dual_hash positions set_all
add f id path = elim (set_all f.bits (positions f (dual_hash id path) f.k 0)) [
  | none ↦ none
  | some bits ↦ some (record f { bits = bits; n = f.n + 1 })
]

unfoldable pub test_and_add : BloomFilter → LayerId → Str → Option (BloomFilter × Bool)
unfolding dual_hash positions test_and_set_all
test_and_add f id path =
    elim (test_and_set_all f.bits (positions f (dual_hash id path) f.k 0) true) [
      | none ↦ none
      | some (bits, present) ↦ some (record f { bits = bits; n = f.n + 1 }, present)
    ]

unfoldable pub reset : BloomFilter → BloomFilter
reset f = record f { bits = replicate (length f.bits) 0; n = 0 }

unfoldable pub count : BloomFilter → ℕ
count f = f.n

-- The loop of `popcount`: it clears the lowest bit that is set.
unfoldable pub popcount : ℕ → ℕ → ℕ
popcount zero x = 0
popcount (suc fuel) x =
    let rest = popcount fuel (bit_and x (x - 1)) in if x == 0 then 0 else rest + 1
