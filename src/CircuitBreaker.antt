-- ===== src/CircuitBreaker.antt =====
-- The circuit breaker of src/05_patterns/04_circuit_breaker/main.go.
-- `Execute` holds the mutex in two sections, before and after the call of `fn`; each is a function.
-- Times are readings of the monotonic clock. A negative threshold or timeout acts as 0, and the
-- counters count no further than the calls made, so they do not overflow a Go int.
pub mod Mode
pub mod Sequential
pub mod Protection
pub mod Concurrent
mod Examples
use grin_with_golang.Prelude.{
  ℕ, ◌+◌, ◌-◌, Bool, true, false, Option, none, some, ltb, leb, if◌then◌else◌, List, [], ap,
  append-nil, append_assoc, ap₂, arith, bit_and, bit_or, dec_le, dec_lt, fun_ext, inl, inr, map,
  max, min, not, refl, subst, suc, sym, zero, ℕ_discrete, ◌*◌, ◌/◌, ◌%◌, ◌^◌, ◌≤◌, ◌<◌, ◌≡◌, ◌≢◌,
  ◌↔◌, ◌⊎◌, ◌∙◌, ◌&&◌, ◌||◌, ◌∷◌, ◌++◌, ◌==◌, ◌>>=◌, length, get_elem?, get_or, set, store,
  replicate, Bool-cases, Option-cases, length-append, length-set, length-replicate, get_or-set,
  get_elem?-get_or,
}

-- `State`
pub data State : Type 0 where
  closed open_state half_open : State

pub record CircuitBreaker : Type 0 where
  pub state : State
  pub failures : ℕ
  pub successes : ℕ
  pub threshold : ℕ
  pub reset_timeout : ℕ
  pub half_open_max : ℕ
  pub last_failure : ℕ

-- `lastFailure` starts as the zero time, before every reading of the clock.
unfoldable pub new : ℕ → ℕ → CircuitBreaker
new threshold reset_timeout = record {
  state = closed;
  failures = 0;
  successes = 0;
  threshold = threshold;
  reset_timeout = reset_timeout;
  half_open_max = 2;
  last_failure = 0;
}

-- The first section: the state that the call runs in, or `none` for ErrCircuitOpen.
unfoldable pub enter : CircuitBreaker → ℕ → CircuitBreaker × Option State
enter cb now = elim cb.state [
  | open_state ↦
      if ltb cb.reset_timeout (now - cb.last_failure)
      then (record cb { state = half_open; successes = 0 }, some half_open)
      else (cb, none)
  | other ↦ (cb, some other)
]

-- The second section after a failure, for a call that entered in `state`.
unfoldable pub fail : CircuitBreaker → State → ℕ → CircuitBreaker
fail cb state now =
    let counted = record cb { failures = cb.failures + 1; last_failure = now } in
    elim state [
      | half_open ↦ record counted { state = open_state }
      | other ↦
          if leb cb.threshold (cb.failures + 1)
          then record counted { state = open_state }
          else counted
    ]

-- The second section after a success.
unfoldable pub succeed : CircuitBreaker → State → CircuitBreaker
succeed cb state = elim state [
  | half_open ↦
      let counted = record cb { successes = cb.successes + 1 } in
      if leb cb.half_open_max (cb.successes + 1)
      then record counted { state = closed; failures = 0 }
      else counted
  | other ↦ record cb { failures = 0 }
]

-- what `Execute` returns
pub data Outcome {ℓ} (E : Type ℓ) : Type ℓ where
  circuit_open : Outcome E
  failed : E → Outcome E
  ok : Outcome E

-- `Execute` with no other call in between: `fn` acts on a state of its own, and the clock is read
-- at `now` and at `later`.
module _ {ℓ} {S E : Type ℓ} (fn : S → S × Option E) where
  unfoldable pub settle : CircuitBreaker → State → ℕ → S × Option E → CircuitBreaker × S × Outcome E
  unfolding fail succeed
  settle cb state later (s, some e) = (fail cb state later, s, failed e)
  settle cb state later (s, none) = (succeed cb state, s, ok)

  unfoldable pub execute : CircuitBreaker → ℕ → ℕ → S → CircuitBreaker × S × Outcome E
  unfolding enter settle
  execute cb now later s =
      let (cb', entered) = enter cb now in
      elim entered [ none ↦ (cb', s, circuit_open) | some state ↦ settle cb' state later (fn s) ]

  -- a caller's `Execute` calls, one after the other, each with its two readings of the clock
  unfoldable pub run : CircuitBreaker → List (ℕ × ℕ) → S → CircuitBreaker × S × List (Outcome E)
  unfolding execute
  run cb [] s = (cb, s, [])
  run cb ((now, later) ∷ times) s =
      let (cb', s', out) = execute cb now later s in
      let (cb'', s'', outs) = run cb' times s' in (cb'', s'', out ∷ outs)

-- the service of the demonstration, which fails its first calls; the error is the call's number
pub record ExternalService : Type 0 where
  pub call_count : ℕ
  pub fail_until : ℕ

unfoldable pub call : ExternalService → ExternalService × Option ℕ
call s =
    let n = s.call_count + 1 in
    let s' = record s { call_count = n } in if leb n s.fail_until then (s', some n) else (s', none)
