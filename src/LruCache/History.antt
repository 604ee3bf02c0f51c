-- ===== src/LruCache/History.antt =====
-- The history that specifies the cache of src/09_dsa/01_lru_cache: a list of keys with values, the
-- most recently used first.
use grin_with_golang.Prelude.{
  List, Option, [], arith, none, refl, some, ◌≡◌, ◌≢◌, ◌∷◌, ℕ, Bool, false, true, if◌then◌else◌,
  leb, length,
}
use mathlib.Core.Logic.{ite}

module _ {K V : Type 0} where
  unfoldable pub drop_last : List (K × V) → List (K × V)
  drop_last [] = []
  drop_last (x ∷ []) = []
  drop_last (x ∷ y ∷ xs) = x ∷ drop_last (y ∷ xs)

module _ {K V : Type 0} (dec : Discrete K) where
  unfoldable pub lookup : K → List (K × V) → Option V
  lookup k [] = none
  lookup k ((j, v) ∷ h) = ite (dec k j) (some v) (lookup k h)

  unfoldable pub drop_key : K → List (K × V) → List (K × V)
  drop_key k [] = []
  drop_key k ((j, v) ∷ h) = ite (dec k j) h ((j, v) ∷ drop_key k h)

  pub lookup-drop_other :
      (k j : K) (h : List (K × V)) → k ≢ j → lookup j (drop_key k h) ≡ lookup j h
  unfolding lookup drop_key
  lookup-drop_other k j [] p = refl
  lookup-drop_other k j ((i, v) ∷ h) p = ground (arith, lookup-drop_other k j h)

  pub lookup-drop_key-none :
      (k j : K) (h : List (K × V)) → lookup j h ≡ none → lookup j (drop_key k h) ≡ none
  unfolding lookup drop_key
  lookup-drop_key-none k j [] p = refl
  lookup-drop_key-none k j ((i, v) ∷ h) p = ground (arith, lookup-drop_key-none k j h)

  -- a hit moves the key to the front
  unfoldable pub spec_get : List (K × V) → K → List (K × V) × Option V
  spec_get h k = elim (lookup k h) [ none ↦ (h, none) | some v ↦ ((k, v) ∷ drop_key k h, some v) ]

  -- a new key takes the place of the least recently used one when the history is full
  unfoldable pub spec_put : ℕ → List (K × V) → K → V → List (K × V)
  spec_put capacity h k v = elim (lookup k h) [
    | none ↦ (k, v) ∷ (if leb capacity (length h) then drop_last h else h)
    | some _ ↦ (k, v) ∷ drop_key k h
  ]

  unfoldable pub spec_delete : List (K × V) → K → List (K × V) × Bool
  spec_delete h k = elim (lookup k h) [ none ↦ (h, false) | some _ ↦ (drop_key k h, true) ]

  pub lookup-drop_last-none :
      (j : K) (h : List (K × V)) → lookup j h ≡ none → lookup j (drop_last h) ≡ none
  unfolding lookup drop_last
  lookup-drop_last-none j [] p = refl
  lookup-drop_last-none j (x ∷ []) p = refl
  lookup-drop_last-none j ((i, v) ∷ y ∷ h) p = ground (arith, lookup-drop_last-none j (y ∷ h))
