-- ===== src/RateLimiter/Examples.antt =====
-- Two clients of a limiter with a burst of 1, with whole numbers for the floats.
use grin_with_golang.RateLimiter.{
  Float64, RateLimiter, Response, next, too_many_requests, new, new_token_bucket, get_limiter,
  allow_key, allow, refill, ℕ, List,
}
use grin_with_golang.RateLimiter.Clients.{
  Step, look_up, ask, Ordered, run, alone, responses_of, run-alone,
}
use grin_with_golang.Prelude.Integers.{ℤ, pos, negsuc}
use grin_with_golang.Prelude.{
  ℕ_discrete, List, [], false, none, refl, some, ℕ, ◌+◌, ◌-◌, ◌*◌, ◌/◌, ◌≡◌, ◌∷◌, ◌>>=◌, ltb, leb,
}

abbrev of_int : ℤ → ℕ
of_int (pos n) = n
of_int (negsuc n) = 0

abbrev whole : Float64 ℕ
whole = record {
  of_int = of_int;
  one = 1;
  plus = λ a b. a + b;
  times = λ a b. a * b;
  minus = λ a b. a - b;
  greater = λ a b. ltb b a;
  at_least = λ a b. leb b a;
  seconds = λ now last. (now - last) / 1000000000;
}

-- client 2 asks between the two sections of client 1
abbrev steps : List (Step ℕ)
steps =
    look_up 1 0
    ∷ look_up 2 5
    ∷ ask 2 6
    ∷ ask 1 7
    ∷ look_up 1 8
    ∷ ask 1 9
    ∷ look_up 2 3000000000
    ∷ ask 2 3000000006
    ∷ []

ordered : Ordered ℕ_discrete (λ k. false) steps
unfolding Ordered ℕ_discrete
ordered = (refl, (refl, (refl, (refl, tt))))

run-alone_example :
    (result : RateLimiter ℕ ℕ × List (ℕ × Response)) × (run ℕ_discrete whole (new 2 (pos 1)) steps
      ≡ some result)
    × ((k : ℕ)
        → alone ℕ_discrete whole k (new_token_bucket whole 2 (pos 1)) none steps
          ≡ (result.0.limiters k, responses_of ℕ_discrete whole k result.1))
run-alone_example = run-alone ℕ_discrete whole 2 (pos 1) steps ordered

-- the second request of client 1 is blocked; client 2 has got a token back
responses_of_run :
    (run ℕ_discrete whole (new 2 (pos 1)) steps >>= λ r. some (r.1))
    ≡ some ((2, next) ∷ (1, next) ∷ (1, too_many_requests 1) ∷ (2, next) ∷ [])
unfolding run get_limiter allow_key allow refill ℕ_discrete
responses_of_run = refl
