-- ===== src/RateLimiter.antt =====
-- The token bucket and its HTTP middleware, src/10_distributed/02_rate_limiter/main.go.
-- float64 arithmetic and `Duration.Seconds` are a parameter. `getLimiter` and `Allow` are one critical
-- section each; a pointer to a bucket is the key under which the map holds it, since an entry of the
-- map is never replaced.
pub mod Buckets
pub mod Clients
mod Examples
use grin_with_golang.Prelude.{
  ◌≡◌, Bool, List, Option, [], false, none, not, refl, some, true, ℕ, ◌∷◌, ◌++◌, ◌>>=◌,
  if◌then◌else◌,
}
use grin_with_golang.Prelude.Maps.{GoMap, make, insert}
use grin_with_golang.Prelude.Integers.{ℤ}

-- the operations of float64 that the program uses; `seconds now last` is `now.Sub(last).Seconds()`
pub record Float64 (F : Type 0) : Type 0 where
  pub of_int : ℤ → F
  pub one : F
  pub plus : F → F → F
  pub times : F → F → F
  pub minus : F → F → F
  pub greater : F → F → Bool
  pub at_least : F → F → Bool
  pub seconds : ℕ → ℕ → F

pub record TokenBucket (F : Type 0) : Type 0 where
  pub tokens : F
  pub max_tokens : F
  pub refill_rate : F
  pub last_refill : ℕ

module _ {F : Type 0} (fl : Float64 F) where
  abbrev pub new_token_bucket : F → ℤ → ℕ → TokenBucket F
  new_token_bucket rate burst now = record {
    tokens = fl.of_int burst;
    max_tokens = fl.of_int burst;
    refill_rate = rate;
    last_refill = now;
  }

  -- the refill at the start of `Allow`
  unfoldable pub refill : ℕ → TokenBucket F → TokenBucket F
  refill now tb =
      let filled = fl.plus tb.tokens (fl.times (fl.seconds now tb.last_refill) tb.refill_rate) in
      record tb {
        tokens = if fl.greater filled tb.max_tokens then tb.max_tokens else filled;
        last_refill = now;
      }

  unfoldable pub allow : ℕ → TokenBucket F → TokenBucket F × Bool
  allow now tb =
      let tb1 = refill now tb in
      if fl.at_least tb1.tokens fl.one
      then (record tb1 { tokens = fl.minus tb1.tokens fl.one }, true)
      else (tb1, false)

pub record RateLimiter (K F : Type 0) : Type 0 where
  pub limiters : GoMap K (TokenBucket F)
  pub rate : F
  pub burst : ℤ

abbrev pub new : {K F : Type 0} → F → ℤ → RateLimiter K F
new rate burst = record { limiters = make; rate = rate; burst = burst }

-- What the middleware does with a request: status 429 with a Retry-After header, or a call of `next`.
pub data Response : Type 0 where
  too_many_requests : ℕ → Response
  next : Response

abbrev pub respond : Bool → Response
respond allowed = if not allowed then too_many_requests 1 else next

module _ {K F : Type 0} (dec : Discrete K) (fl : Float64 F) where
  unfoldable pub get_limiter : K → ℕ → RateLimiter K F → RateLimiter K F
  get_limiter key now rl = elim (rl.limiters key) [
    | none ↦ record rl {
      limiters = insert dec key (new_token_bucket fl rl.rate rl.burst now) rl.limiters;
    }
    | some limiter ↦ rl
  ]

  -- `limiter.Allow()` for the bucket of a key, and the response
  unfoldable pub allow_key : K → ℕ → RateLimiter K F → Option (RateLimiter K F × Response)
  allow_key key now rl = rl.limiters key >>= λ tb.
      let (tb1, allowed) = allow fl now tb in
      some (record rl { limiters = insert dec key tb1 rl.limiters }, respond allowed)

  -- a request that runs undisturbed, with the readings of the clock in its two sections
  unfoldable pub middleware : K → ℕ → ℕ → RateLimiter K F → Option (RateLimiter K F × Response)
  middleware client_ip now later rl = allow_key client_ip later (get_limiter client_ip now rl)
