-- ===== src/Fshash/Access/Bloom/Words.antt =====
-- pkg/fshash/access/filter.go: the loops over the positions of a key.
use Prim.Native.Nat.{bit_or}
use bons_ci.Base.{
  ℕ, ◌/◌, ◌%◌, ◌^◌, ◌<◌, Bool, true, false, ◌&&◌, ◌||◌, List, [], ◌∷◌, none, some, if◌then◌else◌,
  ◌==◌, get_elem?, set, length, length-set, all, any, All, get_elem?-lt, get_elem?-set,
  get_elem?-set_ne, replicate, ◌≡◌, refl, sym, ◌∙◌, ap, arith, inl, inr, Bool-cases, ==_iff,
  Bool-ext, Option-cases, All-get_elem?, All-replicate,
}
use bons_ci.Base.Bits.{bit, bit-zero, bit-bit_or_pow, test_bit}
use bons_ci.Fshash.Access.Bloom.{has_bit, set_bit, test_all, set_all, test_and_set_all}

-- A position within the words.
abbrev pub Within : List ℕ → ℕ → Type 0
Within bits p = p / 64 < length bits

-- The bit at a position; clear out of range.
unfoldable pub bit_of : List ℕ → ℕ → Bool
bit_of bits p = elim (get_elem? bits (p / 64)) [ none ↦ false | some w ↦ bit (p % 64) w == 1 ]

pub has_bit_lem : (bits : List ℕ) (p : ℕ) → Within bits p → has_bit bits p ≡ some (bit_of bits p)
unfolding has_bit bit_of
has_bit_lem bits p h =
    let (w, e) = get_elem?-lt bits (p / 64) h in
    rw (has_bit, bit_of, e) (ap some (test_bit (p % 64) w))

same_place : (p q : ℕ) → p / 64 ≡ q / 64 → (p % 64 == q % 64) ≡ (p == q)
same_place p q h = Bool-ext (p % 64 == q % 64) (p == q) (ground arith)

either : (b : Bool) (d : ℕ) → ((if b then 1 else d) == 1) ≡ (b || d == 1)
either true d = refl
either false d = refl

pub set_bit_lem :
    (bits : List ℕ) (p : ℕ)
    → Within bits p
    → (next : List ℕ) × (set_bit bits p ≡ some next)
      × (length next ≡ length bits)
      × ((q : ℕ) → bit_of next q ≡ (p == q || bit_of bits q))
unfolding set_bit bit_of
set_bit_lem bits p h =
    let (w, e) = get_elem?-lt bits (p / 64) h in
    let v = bit_or w (2 ^ (p % 64)) in
    (
      set bits (p / 64) v,
      rw (set_bit, e) refl,
      length-set bits (p / 64) v,
      λ q. elim (Bool-cases (p / 64 == q / 64)) [
        | inr apart ↦ rw (bit_of, get_elem?-set_ne bits (p / 64) (q / 64) v apart) (ground arith)
        | inl same ↦
            let there : p / 64 ≡ q / 64 = (==_iff (p / 64) (q / 64)).0 same in
            let now : get_elem? (set bits (p / 64) v) (q / 64) ≡ some v =
              ap (get_elem? (set bits (p / 64) v)) (sym there) ∙ get_elem?-set bits (p / 64) v h in
            let before : get_elem? bits (q / 64) ≡ some w = ap (get_elem? bits) (sym there) ∙ e in
            rw (bit_of, now, before, bit-bit_or_pow (p % 64) (q % 64) w, same_place p q there)
              (either (p == q) (bit (q % 64) w))
      ],
    )

-- The positions all are set.
abbrev pub all_set : List ℕ → List ℕ → Bool
all_set bits ps = all (bit_of bits) ps

pub test_all_lem :
    (bits ps : List ℕ) → All (Within bits) ps → test_all bits ps ≡ some (all_set bits ps)
unfolding test_all
test_all_lem bits [] h = refl
test_all_lem bits (p ∷ ps) h = elim (Bool-cases (bit_of bits p)) [
  | inl e ↦ rw (test_all, has_bit_lem bits p h.0, e) (test_all_lem bits ps h.1)
  | inr e ↦ rw (test_all, has_bit_lem bits p h.0, e) refl
]

Within-length :
    (bits next ps : List ℕ)
    → length next ≡ length bits
    → All (Within bits) ps
    → All (Within next) ps
Within-length bits next [] e h = tt
Within-length bits next (p ∷ ps) e h = (omega arith, Within-length bits next ps e h.1)

-- What `Add` and `TestAndAdd` leave: the positions set, and the bits that were set before.
pub set_all_lem :
    (bits ps : List ℕ)
    → All (Within bits) ps
    → (next : List ℕ) × (set_all bits ps ≡ some next)
      × (length next ≡ length bits)
      × ((q : ℕ) → bit_of next q ≡ (any (λ p. p == q) ps || bit_of bits q))
unfolding set_all
set_all_lem bits [] h = (bits, refl, refl, λ q. refl)
set_all_lem bits (p ∷ ps) h =
    let (mid, e, l, b) = set_bit_lem bits p h.0 in
    let (next, f, m, c) = set_all_lem mid ps (Within-length bits mid ps l h.1) in
    (next, rw (set_all, e) f, m ∙ l, λ q. ground (arith, b q, c q))

pub all_set-more :
    (bits next ps : List ℕ)
    → ((q : ℕ) → bit_of bits q ≡ true → bit_of next q ≡ true)
    → all_set bits ps ≡ true
    → all_set next ps ≡ true
all_set-more bits next [] more h = refl
all_set-more bits next (p ∷ ps) more h = ground (arith, more p, all_set-more bits next ps more)

all_set-same :
    (bits next ps : List ℕ)
    → ((q : ℕ) → bit_of next q ≡ bit_of bits q)
    → all_set next ps ≡ all_set bits ps
all_set-same bits next [] same = refl
all_set-same bits next (p ∷ ps) same = ground (arith, same p, all_set-same bits next ps same)

answer_step :
    (bits mid : List ℕ) (p : ℕ) (ps : List ℕ) (present : Bool)
    → ((q : ℕ) → bit_of mid q ≡ (p == q || bit_of bits q))
    → ((if bit_of bits p then present else false) && all_set mid ps)
      ≡ (present && all_set bits (p ∷ ps))
answer_step bits mid p ps present b = elim (Bool-cases (bit_of bits p)) [
  | inr clear ↦ rw clear (ground arith)
  | inl on ↦
      let unchanged : (q : ℕ) → bit_of mid q ≡ bit_of bits q = λ q. elim (Bool-cases (p == q)) [
        | inl e ↦
            let there : bit_of bits q ≡ true = ap (bit_of bits) (sym ((==_iff p q).0 e)) ∙ on in
            ground (arith, b q)
        | inr e ↦ ground (arith, b q)
      ] in
      rw (on, all_set-same bits mid ps unchanged) refl
]

-- `TestAndAdd` sets as `Add` does, and answers whether all positions were set before, a repeated one too.
pub test_and_set_all_lem :
    (bits ps : List ℕ) (present : Bool)
    → All (Within bits) ps
    → (next : List ℕ) × (set_all bits ps ≡ some next)
      × (test_and_set_all bits ps present ≡ some (next, present && all_set bits ps))
unfolding set_all test_and_set_all
test_and_set_all_lem bits [] true h = (bits, refl, refl)
test_and_set_all_lem bits [] false h = (bits, refl, refl)
test_and_set_all_lem bits (p ∷ ps) present h =
    let (mid, e, l, b) = set_bit_lem bits p h.0 in
    let bp = bit_of bits p in
    let (next, f, g) =
      test_and_set_all_lem mid ps (if bp then present else false)
        (Within-length bits mid ps l h.1) in
    (
      next,
      rw (set_all, e) f,
      rw (test_and_set_all, has_bit_lem bits p h.0, e)
          (g ∙ ap (λ z. some (next, z)) (answer_step bits mid p ps present b)),
    )

pub all_set-own :
    (bits ps : List ℕ)
    → ((q : ℕ) → any (λ p. p == q) ps ≡ true → bit_of bits q ≡ true)
    → all_set bits ps ≡ true
all_set-own bits [] h = refl
all_set-own bits (p ∷ ps) h =
    ground (arith, h p, ==_iff p p, all_set-own bits ps (λ q k. h q (ground arith)))

pub bit_of-blank : (n p : ℕ) → bit_of (replicate n 0) p ≡ false
unfolding bit_of
bit_of-blank n p =
    let zeros : List ℕ = replicate n 0 in
    elim (Option-cases (get_elem? zeros (p / 64))) [
      | inl e ↦ rw (bit_of, e) refl
      | inr (w, e) ↦
          let blank : w ≡ 0 =
            All-get_elem? (λ x. x ≡ 0) zeros (p / 64) w (All-replicate (λ x. x ≡ 0) n 0 refl) e in
          rw (bit_of, e, blank, bit-zero (p % 64)) (ground arith)
    ]
