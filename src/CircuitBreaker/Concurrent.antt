-- ===== src/CircuitBreaker/Concurrent.antt =====
-- Calls of `Execute` that overlap: the two sections of several calls in any order.
use grin_with_golang.CircuitBreaker.{
  closed, open_state, half_open, CircuitBreaker, ℕ, enter, fail, succeed, State, new,
}
use grin_with_golang.Prelude.{List, [], arith, none, refl, some, ℕ, ◌+◌, ◌≤◌, ◌<◌, ◌≡◌, ◌∷◌, ◌++◌}

-- The calls that have entered and not yet settled, each with the state that it entered in.
pub record System : Type 0 where
  pub breaker : CircuitBreaker
  pub running : List State

pub data Step (s : System) : System → Type 0 where
  refused : (now : ℕ) → (enter s.breaker now).1 ≡ none → Step s s
  entered :
      (now : ℕ) (state : State)
      → (enter s.breaker now).1 ≡ some state
      → Step s (record { breaker = (enter s.breaker now).0; running = state ∷ s.running })
  failure :
      (before after : List State) (state : State) (now : ℕ)
      → s.running ≡ before ++ state ∷ after
      → Step s (record { breaker = fail s.breaker state now; running = before ++ after })
  success :
      (before after : List State) (state : State)
      → s.running ≡ before ++ state ∷ after
      → Step s (record { breaker = succeed s.breaker state; running = before ++ after })

pub data Reach (s : System) : System → Type 0 where
  here : Reach s s
  next : {t u : System} → Reach s t → Step t u → Reach s u

-- A closed breaker has seen fewer failures in a row than trip it, and a half-open one fewer
-- successes than close it.
pub record IsValid (cb : CircuitBreaker) : Type 0 where
  pub trips : 0 < cb.threshold
  pub recovers : 0 < cb.half_open_max
  pub below_threshold : cb.state ≡ closed → cb.failures < cb.threshold
  pub below_recovery : cb.state ≡ half_open → cb.successes < cb.half_open_max

enter-IsValid : (cb : CircuitBreaker) (now : ℕ) → IsValid cb → IsValid (enter cb now).0
unfolding enter
enter-IsValid cb now v = ground arith

fail-IsValid :
    (cb : CircuitBreaker) (state : State) (now : ℕ) → IsValid cb → IsValid (fail cb state now)
unfolding fail
fail-IsValid cb state now v = ground arith

succeed-IsValid : (cb : CircuitBreaker) (state : State) → IsValid cb → IsValid (succeed cb state)
unfolding succeed
succeed-IsValid cb state v = ground arith

Step-IsValid : {s t : System} → Step s t → IsValid s.breaker → IsValid t.breaker
Step-IsValid (refused now e) v = v
Step-IsValid {s} (entered now state e) v = enter-IsValid s.breaker now v
Step-IsValid {s} (failure before after state now e) v = fail-IsValid s.breaker state now v
Step-IsValid {s} (success before after state e) v = succeed-IsValid s.breaker state v

new-IsValid : (threshold cooldown : ℕ) → 0 < threshold → IsValid (new threshold cooldown)
unfolding new
new-IsValid threshold cooldown h = ground arith

-- However the calls overlap, a breaker that is closed has counted fewer failures than its threshold,
-- and one that is half-open fewer successes than close it.
pub Reach-IsValid :
    (threshold cooldown : ℕ) {s : System}
    → 0 < threshold
    → Reach (record { breaker = new threshold cooldown; running = [] }) s
    → IsValid s.breaker
Reach-IsValid threshold cooldown h here = new-IsValid threshold cooldown h
Reach-IsValid threshold cooldown h (next r st) =
    Step-IsValid st (Reach-IsValid threshold cooldown h r)

-- Two trial calls overlap, one success short of closing: the first fails and opens the breaker, and
-- the late success of the second closes it at once, with no cooldown after the failure.
pub late_success_closes :
    (s : System) (now : ℕ) (rest : List State)
    → s.running ≡ half_open ∷ half_open ∷ rest
    → s.breaker.half_open_max ≤ s.breaker.successes + 1
    → (t : System) × (u : System) × Step s t
      × Step t u
      × (t.breaker.state ≡ open_state)
      × (t.breaker.last_failure ≡ now)
      × (u.breaker.state ≡ closed)
      × (u.breaker.last_failure ≡ now)
unfolding fail succeed
late_success_closes s now rest e h = (
  _,
  _,
  failure [] (half_open ∷ rest) half_open now e,
  success [] rest half_open refl,
  refl,
  refl,
  closes,
  kept,
)
  where
    closes : (succeed (fail s.breaker half_open now) half_open).state ≡ closed
    closes = ground arith

    kept : (succeed (fail s.breaker half_open now) half_open).last_failure ≡ now
    kept = ground arith
