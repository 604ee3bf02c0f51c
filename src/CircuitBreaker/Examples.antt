-- ===== src/CircuitBreaker/Examples.antt =====
-- The demonstration of the program, and the theorems at concrete inputs.
use grin_with_golang.CircuitBreaker.{
  closed, open_state, half_open, circuit_open, failed, CircuitBreaker, ExternalService, List, run,
  new, call, enter, fail,
}
use grin_with_golang.CircuitBreaker.Concurrent.{
  here, next, entered, failure, System, IsValid, Step, Reach-IsValid, late_success_closes, Reach,
}
use grin_with_golang.Prelude.{List, [], arith, refl, ℕ, ◌≡◌, ◌∷◌}
use grin_with_golang.CircuitBreaker.Protection.{run-call_count}
use grin_with_golang.CircuitBreaker.Sequential.{view, run_mode, policy, run_refines}

abbrev breaker : CircuitBreaker
breaker = new 3 500

abbrev service : ExternalService
service = record { call_count = 0; fail_until = 5 }

abbrev times : List (ℕ × ℕ)
times = (10, 11) ∷ (20, 21) ∷ (30, 31) ∷ (40, 41) ∷ (50, 51) ∷ []

-- three failures trip the breaker, and two calls are refused
demo :
    (run call breaker times service).2
    ≡ failed 1 ∷ failed 2 ∷ failed 3 ∷ circuit_open ∷ circuit_open ∷ []
unfolding run call new
demo = refl

run-call_count_example : (run call breaker times service).1.call_count ≡ 3
run-call_count_example =
    run-call_count 3 500 times service (omega arith) (omega arith) (omega arith)

run_refines_example :
    let (cb, s, outs) = run call breaker times service in
    (view cb, s, outs) ≡ run_mode call (policy breaker) (view breaker) times service
run_refines_example = run_refines call times breaker service

abbrev overlap : System
overlap = record {
  breaker = record breaker { state = half_open; successes = 1; failures = 3; last_failure = 31 };
  running = half_open ∷ half_open ∷ [];
}

late_success_closes_example :
    (t : System) × (u : System) × Step overlap t
    × Step t u
    × (t.breaker.state ≡ open_state)
    × (t.breaker.last_failure ≡ 600)
    × (u.breaker.state ≡ closed)
    × (u.breaker.last_failure ≡ 600)
unfolding new
late_success_closes_example = late_success_closes overlap 600 [] refl (omega arith)

abbrev one_failed : System
one_failed = record { breaker = record breaker { failures = 1; last_failure = 11 }; running = [] }

one_failed_reached : Reach (record { breaker = breaker; running = [] }) one_failed
unfolding new enter fail
one_failed_reached =
    let r0 : Reach (record { breaker = breaker; running = [] })
        (record { breaker = breaker; running = [] }) =
      here in
    next (next r0 (entered 10 closed refl)) (failure [] [] closed 11 refl)

Reach-IsValid_example : IsValid one_failed.breaker
Reach-IsValid_example = Reach-IsValid 3 500 (omega arith) one_failed_reached
