-- ===== src/Dirsync/Handlers/Laws.antt =====
-- internal/dirsync/handler.go and actions.go: what combined handlers do, and what the counters count.
use bons_ci.Base.{
  ◌+◌, Bool, true, not, ◌&&◌, List, [], ◌∷◌, Option, none, some, keep, count_if, length, is_some,
  ◌≡◌, ◌⊎◌, refl, inl, inr, arith, Option-cases, Bool-cases,
}
use bons_ci.Dirsync.Types.{ExclusivePath, CommonPath, PathKind, file, dir, link, other, unknown}
use bons_ci.Dirsync.Handlers.{
  Handler, chain_handlers, multi_handlers, predicate_handler, handle_all, ExclusiveCounts,
  CommonCounts, total_exclusive, count_kind, count_exclusive, count_common, type_mismatch,
  only_changed, only_unchanged,
}

abbrev pub first_of {ℓ} : {A : Type ℓ} → List A → Option A
first_of [] = none
first_of (x ∷ xs) = some x

module _ {S E X : Type 0} where
  -- A chain of handlers fails with the first of the errors that a fan-out to them finds, and if it does not
  -- fail it leaves the same state.
  pub chain_handlers-multi_handlers :
      (hs : List (Handler S E X)) (s : S) (e : E)
      → ((chain_handlers hs s e).1 ≡ first_of (multi_handlers hs s e).1)
        × (((chain_handlers hs s e).0 ≡ (multi_handlers hs s e).0)
            ⊎ (is_some (chain_handlers hs s e).1 ≡ true))
  chain_handlers-multi_handlers [] s e = (refl, inl refl)
  chain_handlers-multi_handlers (h ∷ hs) s e =
      let (errors, states) = chain_handlers-multi_handlers hs (h s e).0 e in
      elim (Option-cases (h s e).1) [
        | inl ok ↦ ground (arith, ok, errors, states)
        | inr (x, failed) ↦ ground (arith, failed)
      ]

  -- A gated handler called for each entry does what the handler does for the entries that pass the gate.
  pub handle_all-predicate :
      (p : E → Bool) (h : Handler S E X) (s : S) (es : List E)
      → handle_all (predicate_handler p h) s es ≡ handle_all h s (keep p es)
  handle_all-predicate p h s [] = refl
  handle_all-predicate p h s (e ∷ es) =
      let rest = handle_all-predicate p h (h s e).0 es in
      elim (Bool-cases (p e)) [
        | inl pass ↦ ground (arith, pass, rest)
        | inr stop ↦ ground (arith, stop, handle_all-predicate p h s es)
      ]

abbrev pub count_all : {C E : Type 0} → (C → E → C) → C → List E → C
count_all f c [] = c
count_all f c (e ∷ es) = count_all f (f c e) es

count_kind_total :
    (c : ExclusiveCounts) (k : PathKind)
    → (total_exclusive (count_kind c k) ≡ total_exclusive c + 1)
      × ((count_kind c k).collapsed ≡ c.collapsed)
count_kind_total c file = (omega arith, refl)
count_kind_total c dir = (omega arith, refl)
count_kind_total c link = (omega arith, refl)
count_kind_total c other = (omega arith, refl)
count_kind_total c unknown = (omega arith, refl)

-- The four counters of exclusive entries add up to the number of the entries, and collapsed entries are
-- counted besides.
pub count_exclusive_total :
    (c : ExclusiveCounts) (es : List ExclusivePath)
    → (total_exclusive (count_all count_exclusive c es) ≡ total_exclusive c + length es)
      × ((count_all count_exclusive c es).collapsed ≡ c.collapsed + count_if (λ e. e.collapsed) es)
unfolding count_exclusive
count_exclusive_total c [] = (omega arith, omega arith)
count_exclusive_total c (e ∷ es) =
    let rest = count_exclusive_total (count_exclusive c e) es in
    let one = count_kind_total c e.kind in ground (arith, rest, one)

-- Every common entry is counted once: as a mismatch of types, as not compared, as equal or as changed.
pub count_common_total :
    (c : CommonCounts) (es : List CommonPath)
    → ((count_all count_common c es).total ≡ c.total + length es)
      × ((count_all count_common c es).mismatch ≡ c.mismatch + count_if type_mismatch es)
      × ((count_all count_common c es).changed
          ≡ c.changed + count_if (λ e. not (type_mismatch e) && only_changed e) es)
      × ((count_all count_common c es).equal
          ≡ c.equal + count_if (λ e. not (type_mismatch e) && only_unchanged e) es)
unfolding count_common
count_common_total c [] = (omega arith, omega arith, omega arith, omega arith)
count_common_total c (e ∷ es) =
    let rest = count_common_total (count_common c e) es in ground (arith, rest)
