-- ===== src/Fshash/Access/Bloom/Laws.antt =====
-- pkg/fshash/access/filter.go: what a filter answers.
use bons_ci.Base.{
  Str, ℕ, zero, suc, ◌+◌, ◌-◌, ◌*◌, ◌/◌, ◌%◌, ◌^◌, ◌<◌, ◌≤◌, Bool, true, false, List, some,
  if◌then◌else◌, ◌==◌, length, length-replicate, All, replicate, ◌≡◌, refl, sym, ◌∙◌, ap, arith,
}
use bons_ci.Base.Bits.{bit_and-le}
use bons_ci.Fshash.Layer.Chain.{LayerId}
use bons_ci.Fshash.Cache.Sharded.{two_to_64}
use bons_ci.Fshash.Access.Bloom.{
  BloomFilter, new_bloom_filter, dual_hash, position, positions, test, add, test_and_add, reset,
}
use bons_ci.Fshash.Access.Bloom.Words.{
  Within, all_set, test_all_lem, set_all_lem, test_and_set_all_lem, all_set-more, all_set-own,
  bit_of-blank,
}

-- The mask keeps every position within the words, and there is a round.
abbrev pub IsValidFilter : BloomFilter → Type 0
IsValidFilter f = (f.mask < length f.bits * 64) × (1 ≤ f.k)

power_words : (e : ℕ) → 2 ^ e - 1 < (if 2 ^ e / 64 == 0 then 1 else 2 ^ e / 64) * 64
power_words zero = ground arith
power_words (suc zero) = ground arith
power_words (suc (suc zero)) = ground arith
power_words (suc (suc (suc zero))) = ground arith
power_words (suc (suc (suc (suc zero)))) = ground arith
power_words (suc (suc (suc (suc (suc zero))))) = ground arith
power_words (suc (suc (suc (suc (suc (suc e)))))) =
    let split : 2 ^ suc (suc (suc (suc (suc (suc e))))) ≡ 2 ^ e * 64 = omega arith in ground arith

-- The filter of a power of two of bits is well-formed.
pub new_bloom_filter-IsValid : (e k : ℕ) → IsValidFilter (new_bloom_filter (2 ^ e) k)
unfolding new_bloom_filter
new_bloom_filter-IsValid e k =
    let words = if 2 ^ e / 64 == 0 then 1 else 2 ^ e / 64 in
    (omega (arith, power_words e, length-replicate {A = ℕ} words 0), ground arith)

positions-Within :
    (f : BloomFilter) (h : ℕ × ℕ) (rounds i : ℕ)
    → IsValidFilter f
    → All (Within f.bits) (positions f h rounds i)
unfolding positions position
positions-Within f h zero i v = tt
positions-Within f h (suc rounds) i v = (
  omega (arith, bit_and-le ((h.0 + i * h.1) % two_to_64) f.mask),
  positions-Within f h rounds (i + 1) v,
)

abbrev pub places : BloomFilter → LayerId → Str → List ℕ
places f id path = positions f (dual_hash id path) f.k 0

-- The positions depend on the mask only.
positions-mask :
    (f g : BloomFilter) (h : ℕ × ℕ) (rounds i : ℕ)
    → f.mask ≡ g.mask
    → positions f h rounds i ≡ positions g h rounds i
unfolding positions position
positions-mask f g h zero i e = refl
positions-mask f g h (suc rounds) i e = rw (e, positions-mask f g h rounds (i + 1) e) refl

test_lem :
    (f : BloomFilter) (id : LayerId) (path : Str)
    → IsValidFilter f
    → test f id path ≡ some (all_set f.bits (places f id path))
unfolding test
test_lem f id path v =
    test_all_lem f.bits (places f id path) (positions-Within f (dual_hash id path) f.k 0 v)

blank-places :
    (f : BloomFilter) (h : ℕ × ℕ) (n rounds i : ℕ)
    → 1 ≤ rounds
    → all_set (replicate n 0) (positions f h rounds i) ≡ false
unfolding positions
blank-places f h n zero i k = absurd (omega arith)
blank-places f h n (suc rounds) i k = ground (arith, bit_of-blank n (position f h i))

module _ (f : BloomFilter) (v : IsValidFilter f) where
  -- `add-test` and `add_keeps` at once.
  added :
      (id : LayerId) (path : Str)
      → (next : BloomFilter) × (add f id path ≡ some next)
        × IsValidFilter next
        × (test next id path ≡ some true)
        × ((j : LayerId) (q : Str) → test f j q ≡ some true → test next j q ≡ some true)
  unfolding add
  added id path =
      let h = dual_hash id path in
      let (bits, e, l, b) = set_all_lem f.bits (places f id path) (positions-Within f h f.k 0 v) in
      let next = record f { bits = bits; n = f.n + 1 } in
      let valid : IsValidFilter next = (omega (arith, v.0), v.1) in
      let same : (j : LayerId) (q : Str) → places next j q ≡ places f j q =
        λ j q. positions-mask next f (dual_hash j q) f.k 0 refl in
      (
        next,
        rw (add, e) refl,
        valid,
        test_lem next id path valid
            ∙ ap some (
                ap (all_set bits) (same id path)
                ∙ all_set-own bits (places f id path) (λ q k. ground (arith, b q))),
        λ j q k.
            let before : all_set f.bits (places f j q) ≡ true =
              let both = sym (test_lem f j q v) ∙ k in ground arith in
            test_lem next j q valid
            ∙ ap some (
                ap (all_set bits) (same j q)
                ∙ all_set-more f.bits bits (places f j q) (λ p on. ground (arith, b p)) before),
      )

  -- On a well-formed filter `Add` succeeds and keeps it well-formed, and afterwards the pair added is
  -- found.
  pub add-test :
      (id : LayerId) (path : Str)
      → (next : BloomFilter) × (add f id path ≡ some next)
        × IsValidFilter next
        × (test next id path ≡ some true)
  add-test id path = let (next, e, valid, seen, _) = added id path in (next, e, valid, seen)

  -- On a well-formed filter a pair that is found is still found after any `Add`: there are no false
  -- negatives.
  pub add_keeps :
      (id j : LayerId) (path q : Str) (next : BloomFilter)
      → add f id path ≡ some next
      → test f j q ≡ some true
      → test next j q ≡ some true
  add_keeps id j path q next e h =
      let (other, e', _, _, kept) = added id path in
      let same : other ≡ next = let both = sym e' ∙ e in ground arith in
      ap (λ z. test z j q) (sym same) ∙ kept j q h

  -- `TestAndAdd` adds as `Add` does and answers what `Test` answers before.
  pub test_and_add_lem :
      (id : LayerId) (path : Str)
      → (next : BloomFilter) × (found : Bool) × (add f id path ≡ some next)
        × (test f id path ≡ some found)
        × (test_and_add f id path ≡ some (next, found))
  unfolding add test test_and_add
  test_and_add_lem id path =
      let ps = places f id path in
      let (bits, e, g) =
        test_and_set_all_lem f.bits ps true (positions-Within f (dual_hash id path) f.k 0 v) in
      (
        record f { bits = bits; n = f.n + 1 },
        all_set f.bits ps,
        rw (add, e) refl,
        test_all_lem f.bits ps (positions-Within f (dual_hash id path) f.k 0 v),
        rw (test_and_add, g) refl,
      )

  -- After `Reset` nothing is found.
  pub reset-test : (id : LayerId) (path : Str) → test (reset f) id path ≡ some false
  unfolding reset
  reset-test id path =
      let valid : IsValidFilter (reset f) =
        (omega (arith, v.0, length-replicate {A = ℕ} (length f.bits) 0), v.1) in
      test_lem (reset f) id path valid
      ∙ ap some (blank-places (reset f) (dual_hash id path) (length f.bits) f.k 0 v.1)
