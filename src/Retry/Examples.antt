-- ===== src/Retry/Examples.antt =====
-- `Retry` on the flaky service, with delays in whole milliseconds that double, and no jitter.
use grin_with_golang.Retry.{
  Delays, RetryConfig, flaky_service, retry, with_max_retries, with_initial_delay, configure,
  default_retry_config, Run, success, exceeded, ℕ, List, retry_loop, none, length, call_round,
  wait_round, is_retryable, as_retryable,
}
use grin_with_golang.Retry.Outcomes.{Ends, retry_finishes}
use grin_with_golang.Retry.Waits.{retry_waits}
use grin_with_golang.Retry.Lengths.{delay_at, wait_of, IsWaits}
use grin_with_golang.Prelude.Integers.{pos, negsuc}
use grin_with_golang.Prelude.{
  List, [], arith, false, none, refl, some, suc, ℕ, ◌*◌, ◌≤◌, ◌<◌, ◌≡◌, ◌∷◌, ltb, length, get_elem?,
}

abbrev plain_delays : Delays ℕ ℕ
plain_delays = record {
  less = ltb;
  no_delay = 0;
  jittered = λ factor delay random. delay;
  scaled = λ factor delay. delay * factor;
  milliseconds = λ n. n;
  two = 2;
  half = 0;
}

abbrev options : List (RetryConfig ℕ ℕ → RetryConfig ℕ ℕ)
options = with_max_retries (pos 5) ∷ with_initial_delay 50 ∷ []

abbrev flaky_run : ℕ → List (RetryConfig ℕ ℕ → RetryConfig ℕ ℕ) → Run ℕ ℕ
flaky_run fails opts = retry plain_delays (flaky_service fails) (λ i. none) (λ i. 0) 0 opts

-- three failures, then success
flaky_success :
    flaky_run 3 options
    ≡ record { state = 4; calls = 4; waits = 50 ∷ 100 ∷ 200 ∷ []; result = success }
unfolding retry retry_loop configure call_round wait_round flaky_service is_retryable as_retryable
flaky_success = refl

-- a negative MaxRetries
flaky_never :
    flaky_run 3 (with_max_retries (negsuc 0) ∷ [])
    ≡ record { state = 0; calls = 0; waits = []; result = exceeded none }
unfolding retry retry_loop configure
flaky_never = refl

retry_finishes_example :
    let cfg = configure plain_delays (default_retry_config plain_delays) options in
    Ends (flaky_service 3) cfg.max_retries 0 (flaky_run 3 options)
retry_finishes_example =
    retry_finishes plain_delays (flaky_service 3) (λ i. none) (λ i. 0) 0 options (λ i. refl)

less_self : (d : ℕ) → ltb d d ≡ false
less_self d = ground arith

retry_waits_example :
    let cfg = configure plain_delays (default_retry_config plain_delays) options in
    let r = flaky_run 3 options in
    IsWaits cfg.max_retries (length r.waits)
    × (r.calls ≤ suc (length r.waits))
    × (length r.waits ≤ r.calls)
    × ((k : ℕ)
        → k < length r.waits
        → get_elem? r.waits k
          ≡ some (wait_of plain_delays cfg (delay_at plain_delays cfg cfg.initial_delay k) 0))
    × ((k : ℕ)
        → ltb (wait_of plain_delays cfg (delay_at plain_delays cfg cfg.initial_delay k) 0) 0
          ≡ false)
    × ((k : ℕ) → ltb cfg.max_delay (delay_at plain_delays cfg cfg.initial_delay (suc k)) ≡ false)
retry_waits_example =
    retry_waits plain_delays (flaky_service 3) (λ i. none) (λ i. 0) 0 options less_self
