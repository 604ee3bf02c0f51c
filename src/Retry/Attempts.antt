-- ===== src/Retry/Attempts.antt =====
-- Which errors and how many attempts `Retry` of src/05_patterns/05_retry_with_backoff goes on with.
use grin_with_golang.Retry.{
  GoError, message, retryable_error, wrapped, custom, as_retryable, is_retryable, rounds, ℕ, arith,
  ◌≡◌,
}
use grin_with_golang.Prelude.Integers.{ℤ, pos, negsuc}
use mathlib.Core.Bool.{false≢true}
use grin_with_golang.Prelude.{
  ◌≡◌, ap, arith, false, refl, suc, sym, true, zero, ℕ, ◌+◌, ◌≤◌, ◌<◌, ◌∙◌,
}

-- an error under `n` wraps of `fmt.Errorf` with `%w`
unfoldable pub wraps : ℕ → GoError → GoError
wraps zero e = e
wraps (suc n) e = wrapped (wraps n e)

-- an error that is not to be retried: its own type says so, under any number of wraps
unfoldable pub IsFinal : GoError → Type 0
IsFinal e = (n : ℕ) × (e ≡ wraps n (custom false))

-- the attempts k that an int MaxRetries allows, k ≤ MaxRetries, and the number of all of them
unfoldable pub Allowed : ℤ → ℕ → Type 0
Allowed (pos n) k = k ≤ n
Allowed (negsuc n) k = ⊥

unfoldable pub IsCount : ℤ → ℕ → Type 0
IsCount (pos n) calls = calls ≡ n + 1
IsCount (negsuc n) calls = calls ≡ 0

pub rounds-Allowed : (m : ℤ) (k : ℕ) → k < rounds m → Allowed m k
unfolding Allowed
rounds-Allowed (pos n) k h = omega arith
rounds-Allowed (negsuc n) k h = omega arith

pub rounds-IsCount : (m : ℤ) → IsCount m (rounds m)
unfolding IsCount
rounds-IsCount (pos n) = omega arith
rounds-IsCount (negsuc n) = refl

pub is_retryable-IsFinal : (e : GoError) → is_retryable e ≡ false → IsFinal e
unfolding is_retryable as_retryable IsFinal wraps
is_retryable-IsFinal (message m) h = absurd (false≢true (sym h))
is_retryable-IsFinal (retryable_error e) h = absurd (false≢true (sym h))
is_retryable-IsFinal (wrapped e) h =
    let (n, same) = is_retryable-IsFinal e h in (suc n, ap wrapped same)
is_retryable-IsFinal (custom true) h = absurd (false≢true (sym h))
is_retryable-IsFinal (custom false) h = (0, refl)

is_retryable-wraps : (n : ℕ) → is_retryable (wraps n (custom false)) ≡ false
unfolding is_retryable as_retryable wraps
is_retryable-wraps zero = refl
is_retryable-wraps (suc n) = is_retryable-wraps n

pub retryable-IsFinal : (e : GoError) → is_retryable e ≡ true → ¬ IsFinal e
unfolding IsFinal
retryable-IsFinal e h (n, same) =
    false≢true (sym (is_retryable-wraps n) ∙ ap is_retryable (sym same) ∙ h)
