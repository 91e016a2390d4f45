-- ===== src/Content.antt =====
-- core/content/store/composite: stores of content over other stores. A store is a state with the operations of the
-- interface content.Store that the two use; readers, writers and walks are left out.
pub mod Fanout
pub mod Split
mod Tests
use bons_ci.Base.{
  Str, codes, str_eqb, Bool, true, false, List, [], ◌∷◌, ◌++◌, Option, none, some, ◌⊎◌, inl, inr,
  ◌≡◌, if◌then◌else◌,
}

-- What `errdefs.IsNotFound` says of an error, and its texts, one for each error that is joined.
pub record StoreError : Type 0 where
  pub is_not_found : Bool
  pub texts : List Str

-- `errdefs.ErrNotFound`
abbrev pub not_found : StoreError
not_found = record { is_not_found = true; texts = codes "not found" ∷ [] }

pub record Info : Type 0 where
  pub digest : Str
  pub labels : List (Str × Str)

pub record Status : Type 0 where
  pub ref : Str
  pub offset : Str

pub record Store (S : Type 0) : Type 0 where
  pub info : S → Str → StoreError ⊎ Info
  pub delete : S → Str → S × Option StoreError
  pub abort : S → Str → S × Option StoreError
  pub update : S → Info → S × (Info × Option StoreError)
  pub status : S → Str → StoreError ⊎ Status
  pub list_statuses : S → StoreError ⊎ List Status

-- A store without faults: it has the content of some digests, finds what it has, and deletes it.
pub record IsLawful {S : Type 0} (c : Store S) (has : S → Str → Bool) : Type 0 where
  pub info-has : (s : S) (d : Str) → has s d ≡ true → (i : Info) × (c.info s d ≡ inr i)
  pub info-misses : (s : S) (d : Str) → has s d ≡ false → c.info s d ≡ inl not_found
  pub delete-has : (s : S) (d : Str) → has s d ≡ true → (c.delete s d).1 ≡ none
  pub delete-misses : (s : S) (d : Str) → has s d ≡ false → (c.delete s d).1 ≡ some not_found
  pub has-delete :
      (s : S) (d e : Str) → has (c.delete s d).0 e ≡ (if str_eqb d e then false else has s e)
