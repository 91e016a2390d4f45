-- ===== src/Base/Perm.antt =====
-- The sorts of Base.Sort as permutations.
use mathlib.Core.List.{Permᴰ}
use mathlib.Core.List.Permᴰ
use bons_ci.Base.{Str, List, [], ◌∷◌, refl}
use bons_ci.Base.Order.{compare_str, Ordering}
use bons_ci.Base.Sort.{insert_by, sort_by}

module _ {ℓ} {A : Type ℓ} (key : A → Str) where
  insert_by-Permᴰ : (a : A) (xs : List A) → Permᴰ (insert_by key a xs) (a ∷ xs)
  insert_by-Permᴰ a [] = Permᴰ.refl (a ∷ [])
  insert_by-Permᴰ a (b ∷ bs) =
      elim (compare_str (key a) (key b))
        as (λ o.
          Permᴰ (elim o [ Ordering.gt ↦ b ∷ insert_by key a bs | _ ↦ a ∷ b ∷ bs ]) (a ∷ b ∷ bs)) [
            | Ordering.gt ↦
                Permᴰ.trans (Permᴰ.cons refl (insert_by-Permᴰ a bs)) (Permᴰ.swap refl refl)
            | Ordering.lt ↦ Permᴰ.refl (a ∷ b ∷ bs)
            | Ordering.eq ↦ Permᴰ.refl (a ∷ b ∷ bs)
          ]

  -- A sort has what the list has.
  pub sort_by-list : (xs : List A) → Permᴰ (sort_by key xs) xs
  sort_by-list [] = Permᴰ.nil
  sort_by-list (a ∷ xs) =
      Permᴰ.trans (insert_by-Permᴰ a (sort_by key xs)) (Permᴰ.cons refl (sort_by-list xs))
