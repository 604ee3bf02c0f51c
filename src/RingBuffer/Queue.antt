-- ===== src/RingBuffer/Queue.antt =====
-- The abstract buffer: a FIFO queue of at most `cap` items, oldest first.
use grin_with_golang.Prelude.{ℕ, List, [], ◌∷◌, ◌++◌, Bool, true, false, length, ltb, if◌then◌else◌}
use grin_with_golang.RingBuffer.{Op, put, get}

module _ {ℓ} {A : Type ℓ} (cap : ℕ) where
  unfoldable pub push : List A → A → List A × Bool
  push q x = if ltb (length q) cap then (q ++ x ∷ [], true) else (q, false)

module _ {ℓ} {A : Type ℓ} (z : A) where
  unfoldable pub pop : List A → A × Bool × List A
  pop [] = (z, false, [])
  pop (x ∷ q) = (x, true, q)

  unfoldable pub run : ℕ → List A → List (Op A) → List (A × Bool)
  unfolding push pop
  run cap q [] = []
  run cap q (put x ∷ ops) = let (q', ok) = push cap q x in (z, ok) ∷ run cap q' ops
  run cap q (get ∷ ops) = let (x, ok, q') = pop q in (x, ok) ∷ run cap q' ops
