-- ===== src/Content/Split/Findings.antt =====
-- core/content/store/composite/split/store.go: what Delete reports where the store to read misses the content.
use bons_ci.Base.{Str, str_eqb_iff, Bool, true, false, List, ◌∷◌, some, any, ◌≡◌, refl, ◌∙◌, arith}
use bons_ci.Content.{not_found, Store, IsLawful}
use bons_ci.Content.Fanout.{all_stores}
use bons_ci.Content.Fanout.Laws.{any-run_all}
use bons_ci.Content.Split.{split, first_error}

-- Over stores without faults, where the store to read misses content that a store to write has, Delete removes it
-- from all stores and fails with `ErrNotFound`.
pub delete_missed :
    {S : Type 0}
    → (c : Store S) (has : S → Str → Bool) → IsLawful c has
    → (r w : S) (ws : List S) (d : Str) → has r d ≡ false
    → has w d ≡ true
    → let result = (split c).delete (r, w ∷ ws) d in
      (any (λ s. has s d) (all_stores (r, w ∷ ws)) ≡ true)
      × (any (λ s. has s d) (all_stores result.0) ≡ false)
      × (result.1 ≡ some not_found)
delete_missed c has lawful r w ws d h k = (
  ground (arith, h, k),
  any-run_all c has lawful (r ∷ w ∷ ws) d d ∙ (ground (arith, str_eqb_iff d d)),
  rw (lawful.delete-misses r d h, first_error) refl,
)
