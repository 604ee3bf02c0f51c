-- ===== src/CircuitBreaker/Mode.antt =====
-- The automaton that specifies the breaker of src/05_patterns/04_circuit_breaker, without the fields
-- that do not matter in its state.
use grin_with_golang.Prelude.{Bool, false, true, ℕ, ◌+◌, ◌-◌, if◌then◌else◌, ltb, leb}

pub data Mode : Type 0 where
  counting : ℕ → Mode
  tripped : ℕ → Mode
  probing : ℕ → Mode

-- the number of failures that trips, the cooldown, and the successes that close again
pub record Policy : Type 0 where
  pub threshold : ℕ
  pub cooldown : ℕ
  pub recovery : ℕ

module _ (p : Policy) where
  -- whether a call at time `now` reaches the service, and the mode that it runs in
  unfoldable pub admit : Mode → ℕ → Mode × Bool
  admit (counting n) now = (counting n, true)
  admit (tripped since) now =
      if ltb p.cooldown (now - since) then (probing 0, true) else (tripped since, false)
  admit (probing n) now = (probing n, true)

  unfoldable pub note : Mode → Bool → ℕ → Mode
  note (counting n) true later = if leb p.threshold (n + 1) then tripped later else counting (n + 1)
  note (counting n) false later = counting 0
  note (tripped since) failed later = tripped since
  note (probing n) true later = tripped later
  note (probing n) false later = if leb p.recovery (n + 1) then counting 0 else probing (n + 1)
