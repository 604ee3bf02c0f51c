-- ===== src/Retry/Lengths.antt =====
-- The waits that `Retry` of src/05_patterns/05_retry_with_backoff is to make: how many, and how long.
use grin_with_golang.Prelude.Integers.{ℤ, pos, negsuc}
use grin_with_golang.Retry.{RetryConfig, Delays, next_delay, actual_delay, rounds, ℕ, if◌then◌else◌}
use grin_with_golang.Prelude.{
  if◌then◌else◌, List, [], arith, false, inl, inr, suc, zero, ℕ, ◌-◌, ◌≤◌, ◌≡◌, ◌∷◌, Bool-cases,
}

-- the number of waits that an int MaxRetries allows
unfoldable pub IsWaits : ℤ → ℕ → Type 0
IsWaits (pos n) count = count ≤ n
IsWaits (negsuc n) count = count ≡ 0

pub rounds-IsWaits : (m : ℤ) (count : ℕ) → count ≤ rounds m - 1 → IsWaits m count
unfolding IsWaits
rounds-IsWaits (pos n) count h = omega arith
rounds-IsWaits (negsuc n) count h = omega arith

module _ {D F : Type 0} (delays : Delays D F) where
  -- a duration that is cut off at a lowest or a highest one
  abbrev pub at_least : D → D → D
  at_least low d = if delays.less d low then low else d

  abbrev pub at_most : D → D → D
  at_most high d = if delays.less high d then high else d

  -- the delay of wait `k`, before jitter: the initial one, then scaled and cut off at MaxDelay
  unfoldable pub delay_at : RetryConfig D F → D → ℕ → D
  delay_at cfg delay zero = delay
  delay_at cfg delay (suc k) =
      delay_at cfg (at_most cfg.max_delay (delays.scaled cfg.multiplier delay)) k

  -- the length of a wait: the delay with its jitter, cut off at 0
  abbrev pub wait_of : RetryConfig D F → D → ℕ → D
  wait_of cfg delay number =
      at_least delays.no_delay (delays.jittered cfg.jitter_factor delay number)

  pub wait_of-at_least :
      (cfg : RetryConfig D F) (delay : D) (number : ℕ)
      → ((d : D) → delays.less d d ≡ false)
      → delays.less (wait_of cfg delay number) delays.no_delay ≡ false
  wait_of-at_least cfg delay number irr =
      let d = delays.jittered cfg.jitter_factor delay number in
      elim (Bool-cases (delays.less d delays.no_delay)) [
        | inl under ↦ rw under (irr delays.no_delay)
        | inr fine ↦ rw (fine, if◌then◌else◌) fine
      ]

  -- the first `m` waits of attempts `attempt`, `attempt + 1`, ...
  unfoldable pub schedule : (ℕ → ℕ) → RetryConfig D F → D → ℕ → ℕ → List D
  schedule random cfg delay attempt zero = []
  schedule random cfg delay attempt (suc m) =
      actual_delay delays cfg delay (random attempt)
      ∷ schedule random cfg (next_delay delays cfg delay) (suc attempt) m
