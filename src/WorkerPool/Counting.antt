-- ===== src/WorkerPool/Counting.antt =====
-- Which workers have returned, or are about to, in the pool of src/05_patterns/02_worker_pool_advanced.
use grin_with_golang.WorkerPool.{
  checking, running, sending, Worker, waiting, is_returned, returned, all_returned, ℕ, List,
}
use mathlib.Core.Bool.{false≢true}
use mathlib.Core.Option.{some-injective, none-ne-some}
use grin_with_golang.Prelude.{
  Bool, List, [], ap, arith, false, refl, some, suc, true, zero, ℕ, ◌<◌, ◌≡◌, ◌∷◌, if◌then◌else◌,
  length, get_elem?, set, replicate,
}

module _ {T R E : Type 0} where
  -- a worker that is out of the loop
  unfoldable pub is_leaving : Worker T R E → Bool
  is_leaving returned = true
  is_leaving (sending r last) = last
  is_leaving waiting = false
  is_leaving (checking j) = false
  is_leaving (running j) = false

  unfoldable pub some_leaving : List (Worker T R E) → Bool
  some_leaving [] = false
  some_leaving (w ∷ ws) = if is_leaving w then true else some_leaving ws

  -- a place of a list whose workers have all returned
  pub all_returned-at :
      (ws : List (Worker T R E)) (i : ℕ) (w : Worker T R E)
      → all_returned ws ≡ true
      → get_elem? ws i ≡ some w
      → is_returned w ≡ true
  unfolding all_returned
  all_returned-at [] i w all h = absurd (none-ne-some w h)
  all_returned-at (x ∷ ws) zero w all h =
      let same = ap is_returned (some-injective x w h) in ground arith
  all_returned-at (x ∷ ws) (suc i) w all h = all_returned-at ws i w (ground arith) h

  -- a worker that leaves only if the one in its place was leaving
  pub some_leaving-set :
      (ws : List (Worker T R E)) (i : ℕ) (old new : Worker T R E)
      → get_elem? ws i ≡ some old
      → (is_leaving new ≡ true → is_leaving old ≡ true)
      → some_leaving (set ws i new) ≡ true
      → some_leaving ws ≡ true
  unfolding some_leaving
  some_leaving-set [] i old new h leaves out = out
  some_leaving-set (x ∷ ws) zero old new h leaves out =
      let same = ap is_leaving (some-injective x old h) in ground arith
  some_leaving-set (x ∷ ws) (suc i) old new h leaves out =
      let rest = some_leaving-set ws i old new h leaves in ground arith

  pub some_leaving-replicate :
      (n : ℕ) (w : Worker T R E) → is_leaving w ≡ false → some_leaving (replicate n w) ≡ false
  unfolding some_leaving
  some_leaving-replicate zero w h = refl
  some_leaving-replicate (suc n) w h = let rest = some_leaving-replicate n w h in ground arith

  pub all_returned-some_leaving :
      (ws : List (Worker T R E)) → 0 < length ws → all_returned ws ≡ true → some_leaving ws ≡ true
  unfolding all_returned some_leaving is_leaving
  all_returned-some_leaving [] long all = absurd (omega arith)
  all_returned-some_leaving (returned ∷ ws) long all = refl
  all_returned-some_leaving (waiting ∷ ws) long all = absurd (false≢true all)
  all_returned-some_leaving (checking j ∷ ws) long all = absurd (false≢true all)
  all_returned-some_leaving (running j ∷ ws) long all = absurd (false≢true all)
  all_returned-some_leaving (sending r last ∷ ws) long all = absurd (false≢true all)
