-- ===== src/Prelude/Filters.antt =====
-- The elements of a list that have a property, in their order, as a relation.
use grin_with_golang.Prelude.{List, [], ◌∷◌, ◌++◌, ◌≡◌, refl, ap}

pub data Filters {A : Type 0} (P : A → Type 0) : List A → List A → Type 0 where
  nil : Filters P [] []
  keep : {x : A} {xs ys : List A} → P x → Filters P xs ys → Filters P (x ∷ xs) (x ∷ ys)
  drop : {x : A} {xs ys : List A} → ¬ P x → Filters P xs ys → Filters P (x ∷ xs) ys

module _ {A : Type 0} (P : A → Type 0) where
  -- an element that has the property and stands between others
  pub Filters-middle :
      (before after : List A) (x : A) {ys : List A}
      → P x
      → Filters P (before ++ x ∷ after) ys
      → (b a : List A) × (ys ≡ b ++ x ∷ a)
  Filters-middle [] after x h (keep {ys = ys} p fs) = ([], ys, refl)
  Filters-middle [] after x h (drop p fs) = absurd (p h)
  Filters-middle (y ∷ before) after x h (keep p fs) =
      let (b, a, same) = Filters-middle before after x h fs in (y ∷ b, a, ap (λ zs. y ∷ zs) same)
  Filters-middle (y ∷ before) after x h (drop p fs) = Filters-middle before after x h fs

  -- an element that does not have it
  pub Filters-without :
      (before after : List A) (x : A) {ys : List A}
      → ¬ P x
      → Filters P (before ++ x ∷ after) ys
      → Filters P (before ++ after) ys
  Filters-without [] after x h (keep p fs) = absurd (h p)
  Filters-without [] after x h (drop p fs) = fs
  Filters-without (y ∷ before) after x h (keep p fs) = keep p (Filters-without before after x h fs)
  Filters-without (y ∷ before) after x h (drop p fs) = drop p (Filters-without before after x h fs)

  pub Filters-unique : {xs ys zs : List A} → Filters P xs ys → Filters P xs zs → ys ≡ zs
  Filters-unique nil nil = refl
  Filters-unique (keep {x = x} p fs) (keep q gs) = ap (λ ws. x ∷ ws) (Filters-unique fs gs)
  Filters-unique (keep p fs) (drop q gs) = absurd (q p)
  Filters-unique (drop p fs) (keep q gs) = absurd (p q)
  Filters-unique (drop p fs) (drop q gs) = Filters-unique fs gs
