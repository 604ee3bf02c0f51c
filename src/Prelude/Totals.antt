-- ===== src/Prelude/Totals.antt =====
-- Sums of a weight over a list.
use mathlib.Core.Option.{some-injective, none-ne-some}
use grin_with_golang.Prelude.{
  List, [], ap, arith, refl, some, suc, zero, ℕ, ◌+◌, ◌≡◌, ◌∷◌, ◌++◌, get_elem?, set, replicate,
}

unfoldable pub total : {A : Type 0} → (A → ℕ) → List A → ℕ
total f [] = 0
total f (x ∷ xs) = f x + total f xs

pub total-append :
    {A : Type 0} (f : A → ℕ) (xs : List A) (x : A) → total f (xs ++ x ∷ []) ≡ total f xs + f x
unfolding total
total-append f [] x = omega arith
total-append f (y ∷ xs) x = let h = total-append f xs x in omega arith

pub total-set :
    {A : Type 0} (f : A → ℕ) (xs : List A) (i : ℕ) (old new : A)
    → get_elem? xs i ≡ some old
    → total f (set xs i new) + f old ≡ total f xs + f new
unfolding total
total-set f [] i old new h = absurd (none-ne-some old h)
total-set f (x ∷ xs) zero old new h = let same = ap f (some-injective x old h) in omega arith
total-set f (x ∷ xs) (suc i) old new h = let rest = total-set f xs i old new h in omega arith

pub total-replicate :
    {A : Type 0} (f : A → ℕ) (a : A) (n : ℕ) → f a ≡ 0 → total f (replicate n a) ≡ 0
unfolding total
total-replicate f a zero h = refl
total-replicate f a (suc n) h = let rest = total-replicate f a n h in omega arith
