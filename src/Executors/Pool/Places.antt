-- ===== src/Executors/Pool/Places.antt =====
-- pkg/executors/network/cniprovider/pool.go: how often a namespace stands in a list.
use bons_ci.Base.{
  ℕ, suc, ◌+◌, ◌-◌, ◌==◌, true, false, List, [], ◌∷◌, ◌++◌, none, some, ◌≡◌, ◌⊎◌, inl, inr, refl,
  ap, arith, if◌then◌else◌, if_true, if_false, ltb, length,
}
use bons_ci.Executors.Pool.{
  CniNs, NsPool, register, AfterPut, kept, above_target, to_release, put, pop_last, evict,
}

pub register_shut : (p : NsPool) → p.closed ≡ true → register p ≡ (p, false)
register_shut p h = if_true (p, false) (record p { actual_size = p.actual_size + 1 }, true) h

pub register_open :
    (p : NsPool)
    → p.closed ≡ false
    → register p ≡ (record p { actual_size = p.actual_size + 1 }, true)
register_open p h = if_false (p, false) (record p { actual_size = p.actual_size + 1 }, true) h

module _ (now : ℕ) (p : NsPool) (i : ℕ) where
  -- The pool with a namespace behind the others.
  abbrev pub with_last : NsPool
  with_last = record p { available = p.available ++ record { id = i; last_used = now } ∷ [] }

  abbrev after_open : AfterPut
  after_open = if ltb p.target_size p.actual_size then above_target else kept

  pub put_shut : p.closed ≡ true → put now p i ≡ (p, to_release)
  put_shut h = if_true (p, to_release) (with_last, after_open) h

  pub put_open : p.closed ≡ false → (put now p i).0 ≡ with_last
  put_open h =
      ap {A = NsPool × AfterPut} (λ r. r.0) (if_false (p, to_release) (with_last, after_open) h)

abbrev pub count : ℕ → List ℕ → ℕ
count i [] = 0
count i (x ∷ xs) = (if x == i then 1 else 0) + count i xs

pub count-append : (i : ℕ) (xs ys : List ℕ) → count i (xs ++ ys) ≡ count i xs + count i ys
count-append i [] ys = omega arith
count-append i (x ∷ xs) ys = omega (arith, count-append i xs ys)

-- Taking one element out of a list.
pub count-middle :
    (i x : ℕ) (a b : List ℕ) → count i (a ++ x ∷ b) ≡ (if x == i then 1 else 0) + count i (a ++ b)
count-middle i x a b = omega (arith, count-append i a (x ∷ b), count-append i a b)

abbrev pub ids : List CniNs → List ℕ
ids [] = []
ids (ns ∷ rest) = ns.id ∷ ids rest

pub ids-append : (xs ys : List CniNs) → ids (xs ++ ys) ≡ ids xs ++ ids ys
ids-append [] ys = refl
ids-append (x ∷ xs) ys = ap (λ l. x.id ∷ l) (ids-append xs ys)

pub count-ids :
    (i : ℕ) (xs : List CniNs) (x : CniNs)
    → count i (ids (xs ++ x ∷ [])) ≡ count i (ids xs) + (if x.id == i then 1 else 0)
count-ids i [] x = omega arith
count-ids i (y ∷ ys) x = omega (arith, count-ids i ys x)

-- Popping undoes appending.
pub pop_last-append : (xs : List CniNs) (x : CniNs) → pop_last (xs ++ x ∷ []) ≡ some (xs, x)
pop_last-append [] x = refl
pop_last-append (y ∷ ys) x = rw (pop_last-append ys x) refl

pub length-append_one : (xs : List CniNs) (x : CniNs) → length (xs ++ x ∷ []) ≡ suc (length xs)
length-append_one [] x = refl
length-append_one (y ∷ ys) x = ap suc (length-append_one ys x)

pub pop_last-cases :
    (xs : List CniNs)
    → ((pop_last xs ≡ none) × (xs ≡ []))
      ⊎ ((rest : List CniNs) × (x : CniNs) × (pop_last xs ≡ some (rest, x)) × (xs ≡ rest ++ x ∷ []))
pop_last-cases [] = inl (refl, refl)
pop_last-cases (y ∷ ys) = elim (pop_last-cases ys) [
  | inl (e, f) ↦ inr ([], y, rw e refl, ap (λ l. y ∷ l) f)
  | inr (rest, x, e, f) ↦ inr (y ∷ rest, x, rw e refl, ap (λ l. y ∷ l) f)
]

-- An eviction cuts a list, and the size goes down by what is cut off.
pub evict-count :
    (i now target n : ℕ) (xs : List CniNs)
    → count i (ids xs)
      ≡ count i (ids (evict now target n xs).released)
        + count i (ids (evict now target n xs).available)
evict-count i now target n [] = refl
evict-count i now target n (x ∷ xs) = ground (arith, evict-count i now target (n - 1) xs)

pub evict-length :
    (now target n : ℕ) (xs : List CniNs)
    → (evict now target n xs).actual_size + length (evict now target n xs).released ≡ n
evict-length now target n [] = omega arith
evict-length now target n (x ∷ xs) = ground (arith, evict-length now target (n - 1) xs)

pub length-evict :
    (now target n : ℕ) (xs : List CniNs)
    → length (evict now target n xs).available + length (evict now target n xs).released ≡ length xs
length-evict now target n [] = refl
length-evict now target n (x ∷ xs) = ground (arith, length-evict now target (n - 1) xs)
