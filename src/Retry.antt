-- ===== src/Retry.antt =====
-- The retry loop of src/05_patterns/05_retry_with_backoff/main.go.
-- `D` are durations and `F` the float64 factors: the floating-point arithmetic on delays is a
-- parameter. The function that is retried has a state `S`, and `stop` says at which waits the context
-- is done before the timer fires, and with which error. MaxRetries is an int and may be negative.
pub mod Attempts
pub mod Outcomes
pub mod Lengths
pub mod Waits
mod Examples
use grin_with_golang.Prelude.{
  List, ℕ, Option, Bool, if◌then◌else◌, ◌∷◌, [], ap, append-nil, append_assoc, ap₂, arith, bit_and,
  bit_or, dec_le, dec_lt, false, fun_ext, inl, inr, map, max, min, none, not, refl, some, subst,
  suc, sym, true, zero, ℕ_discrete, ◌+◌, ◌-◌, ◌*◌, ◌/◌, ◌%◌, ◌^◌, ◌≤◌, ◌<◌, ◌≡◌, ◌≢◌, ◌↔◌, ◌⊎◌, ◌∙◌,
  ◌&&◌, ◌||◌, ◌++◌, ◌==◌, ◌>>=◌, ltb, leb, length, get_elem?, get_or, set, store, replicate,
  Bool-cases, Option-cases, length-append, length-set, length-replicate, get_or-set,
  get_elem?-get_or,
}
use grin_with_golang.Prelude.Integers.{ℤ, pos, negsuc}

-- An error: a message, a `retryableError`, one that `fmt.Errorf` wraps with `%w`, or one of another
-- type with a method IsRetryable.
pub data GoError : Type 0 where
  message : ℕ → GoError
  retryable_error : GoError → GoError
  wrapped : GoError → GoError
  custom : Bool → GoError

-- `errors.As(err, &r)` and `r.IsRetryable()`, down the chain of Unwrap
unfoldable pub as_retryable : GoError → Option Bool
as_retryable (message m) = none
as_retryable (retryable_error e) = some true
as_retryable (wrapped e) = as_retryable e
as_retryable (custom b) = some b

unfoldable pub is_retryable : GoError → Bool
is_retryable e = elim (as_retryable e) [ none ↦ true | some b ↦ b ]

-- `NewRetryableError`
abbrev pub new_retryable_error : ℕ → GoError
new_retryable_error m = retryable_error (message m)

pub record RetryConfig (D F : Type 0) : Type 0 where
  pub max_retries : ℤ
  pub initial_delay : D
  pub max_delay : D
  pub multiplier : F
  pub jitter_factor : F

module _ {D F : Type 0} where
  abbrev pub with_max_retries : ℤ → RetryConfig D F → RetryConfig D F
  with_max_retries n c = record c { max_retries = n }

  abbrev pub with_initial_delay : D → RetryConfig D F → RetryConfig D F
  with_initial_delay d c = record c { initial_delay = d }

  abbrev pub with_max_delay : D → RetryConfig D F → RetryConfig D F
  with_max_delay d c = record c { max_delay = d }

  abbrev pub with_multiplier : F → RetryConfig D F → RetryConfig D F
  with_multiplier m c = record c { multiplier = m }

  abbrev pub with_jitter : F → RetryConfig D F → RetryConfig D F
  with_jitter j c = record c { jitter_factor = j }

-- the durations and factors of the defaults, and the arithmetic of the delays
pub record Delays (D F : Type 0) : Type 0 where
  pub less : D → D → Bool
  pub no_delay : D
  -- `delay + Duration(float64(delay) * jitterFactor * (rand*2 - 1))`, with the random number
  pub jittered : F → D → ℕ → D
  -- `Duration(float64(delay) * multiplier)`
  pub scaled : F → D → D
  pub milliseconds : ℕ → D
  pub two : F
  pub half : F

pub data RetryResult : Type 0 where
  success : RetryResult
  cancelled : GoError → RetryResult
  non_retryable : GoError → RetryResult
  -- the last error, which is nil when there was no attempt
  exceeded : Option GoError → RetryResult

-- the state of the function, its number of calls, the waits and the result
pub record Run (S D : Type 0) : Type 0 where
  pub state : S
  pub calls : ℕ
  pub waits : List D
  pub result : RetryResult

module _ {S D : Type 0} where
  abbrev pub ended : S → RetryResult → Run S D
  ended s result = record { state = s; calls = 0; waits = []; result = result }

  abbrev pub add_call : Run S D → Run S D
  add_call r = record r { calls = suc r.calls }

  abbrev pub add_wait : D → Run S D → Run S D
  add_wait d r = record r { waits = d ∷ r.waits }

  -- a call of the function with what it returned, and the rest of the loop for after an error
  unfoldable pub call_round : S × Option GoError → Run S D → Run S D
  call_round r rest = add_call (elim r.1 [
    | none ↦ ended r.0 success
    | some e ↦ if is_retryable e then rest else ended r.0 (non_retryable e)
  ])

  -- the `select` of a wait: the context's error if it is done, and otherwise what follows
  unfoldable pub wait_round : Option GoError → D → S → Run S D → Run S D
  wait_round stopped d s called =
      add_wait d (elim stopped [ some e ↦ ended s (cancelled e) | none ↦ called ])

-- the number of rounds of `for attempt := 0; attempt <= MaxRetries`
abbrev pub rounds : ℤ → ℕ
rounds (pos n) = suc n
rounds (negsuc n) = 0

module _ {D F : Type 0} (delays : Delays D F) where
  abbrev pub default_retry_config : RetryConfig D F
  default_retry_config = record {
    max_retries = pos 5;
    initial_delay = delays.milliseconds 100;
    max_delay = delays.milliseconds 10_000;
    multiplier = delays.two;
    jitter_factor = delays.half;
  }

  -- `actualDelay`
  abbrev pub actual_delay : RetryConfig D F → D → ℕ → D
  actual_delay cfg delay random =
      let d = delays.jittered cfg.jitter_factor delay random in
      if delays.less d delays.no_delay then delays.no_delay else d

  -- the delay after a wait
  abbrev pub next_delay : RetryConfig D F → D → D
  next_delay cfg delay =
      let d = delays.scaled cfg.multiplier delay in
      if delays.less cfg.max_delay d then cfg.max_delay else d

  -- the options in the order given
  unfoldable pub configure :
      RetryConfig D F → List (RetryConfig D F → RetryConfig D F) → RetryConfig D F
  configure cfg [] = cfg
  configure cfg (opt ∷ opts) = configure (opt cfg) opts

  module _ {S : Type 0} (fn : S → S × Option GoError) (stop : ℕ → Option GoError)
      (random : ℕ → ℕ) where
    -- The rounds that are left, the attempt's number, the delay, the state and the last error.
    unfoldable pub retry_loop : RetryConfig D F → ℕ → ℕ → D → S → Option GoError → Run S D
    retry_loop cfg zero attempt delay s last = ended s (exceeded last)
    retry_loop cfg (suc n) attempt delay s last =
        let delay' = if attempt == 0 then delay else next_delay cfg delay in
        let r = fn s in
        let rest = retry_loop cfg n (suc attempt) delay' r.0 r.1 in
        let called = call_round r rest in
        if attempt == 0
        then called
        else wait_round (stop attempt) (actual_delay cfg delay (random attempt)) s called

    unfoldable pub retry : S → List (RetryConfig D F → RetryConfig D F) → Run S D
    retry s opts =
        let cfg = configure default_retry_config opts in
        retry_loop cfg (rounds cfg.max_retries) 0 cfg.initial_delay s none

-- `flakyService`, with its counter: it fails `max_fails` times
unfoldable pub flaky_service : ℕ → ℕ → ℕ × Option GoError
flaky_service max_fails count =
    let count' = suc count in
    (count', if leb count' max_fails then some (new_retryable_error count') else none)
