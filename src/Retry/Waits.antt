-- ===== src/Retry/Waits.antt =====
-- The waits of `Retry` in src/05_patterns/05_retry_with_backoff: how many, and how long.
use grin_with_golang.Retry.Lengths.{
  IsWaits, rounds-IsWaits, delay_at, wait_of, wait_of-at_least, schedule,
}
use grin_with_golang.Retry.{
  GoError, is_retryable, RetryConfig, Delays, Run, retry_loop, next_delay, actual_delay, call_round,
  wait_round, ℕ, Option, retry, configure, default_retry_config, rounds,
}
use grin_with_golang.Prelude.{
  Bool, List, Option, ap, arith, false, inl, inr, refl, subst, suc, sym, zero, ℕ, ◌≤◌, ◌<◌, ◌≡◌,
  ◌∷◌, ◌==◌, if◌then◌else◌, Bool-cases, Option-cases, get_elem?, length, none, some, ◌+◌, ◌-◌, ◌∙◌,
}

module _ {D F S : Type 0} (delays : Delays D F) (fn : S → S × Option GoError)
    (stop : ℕ → Option GoError) (random : ℕ → ℕ) where
  later_round :
      (cfg : RetryConfig D F) (n attempt : ℕ) (delay : D) (s : S) (last : Option GoError)
      → 0 < attempt
      → retry_loop delays fn stop random cfg (suc n) attempt delay s last
        ≡ wait_round (stop attempt) (actual_delay delays cfg delay (random attempt)) s (
            call_round (fn s) (
              retry_loop delays fn stop random cfg n
                (suc attempt)
                (next_delay delays cfg delay)
                (fn s).0
                (fn s).1))
  unfolding retry_loop
  later_round cfg n attempt delay s last h =
      let later : (attempt == 0) ≡ false = ground arith in
      let called = λ (t : Bool). call_round (fn s) (
        retry_loop delays fn stop random cfg n (suc attempt)
          (if t then delay else next_delay delays cfg delay) (fn s).0 (fn s).1) in
      ap
        (λ t.
          if t
          then called t
          else wait_round (stop attempt) (actual_delay delays cfg delay (random attempt)) s
              (called t))
        later

  -- The waits of a run from some attempt on: a first part of the schedule, as long as the number of
  -- calls, or longer by the wait that the context ends.
  abbrev IsScheduled : RetryConfig D F → ℕ → ℕ → D → Run S D → Type 0
  IsScheduled cfg n attempt delay r =
      (m : ℕ) × (m ≤ n)
      × (r.calls ≤ m)
      × (m ≤ suc r.calls)
      × (r.waits ≡ schedule delays random cfg delay attempt m)

  call_round-IsScheduled :
      (cfg : RetryConfig D F) (n attempt : ℕ) (delay : D) (o : S × Option GoError) (rest : Run S D)
      → IsScheduled cfg n attempt delay rest
      → let r = call_round o rest in
        (m : ℕ) × (m ≤ n)
        × (r.calls ≤ suc m)
        × (suc m ≤ suc r.calls)
        × (r.waits ≡ schedule delays random cfg delay attempt m)
  unfolding call_round schedule
  call_round-IsScheduled cfg n attempt delay o rest (m, p, q, u, w) = elim (Option-cases o.1) [
    | inl fine ↦ rw (call_round, fine) (0, omega arith, omega arith, omega arith, refl)
    | inr (e, failed) ↦ elim (Bool-cases (is_retryable e)) [
      | inl again ↦ rw (call_round, failed, again) (m, p, omega arith, omega arith, w)
      | inr stays ↦ rw (call_round, failed, stays) (0, omega arith, omega arith, omega arith, refl)
    ]
  ]

  later_waits :
      (cfg : RetryConfig D F) (n attempt : ℕ) (delay : D) (s : S) (last : Option GoError)
      → 0 < attempt
      → IsScheduled cfg n attempt delay
          (retry_loop delays fn stop random cfg n attempt delay s last)
  unfolding retry_loop schedule wait_round
  later_waits cfg zero attempt delay s last h = (0, omega arith, omega arith, omega arith, refl)
  later_waits cfg (suc n) attempt delay s last h =
      let d = next_delay delays cfg delay in
      let rest = retry_loop delays fn stop random cfg n (suc attempt) d (fn s).0 (fn s).1 in
      let ih = later_waits cfg n (suc attempt) d (fn s).0 (fn s).1 (omega arith) in
      let (m, p, q, u, w) = call_round-IsScheduled cfg n (suc attempt) d (fn s) rest ih in
      let a = actual_delay delays cfg delay (random attempt) in
      subst (λ r. IsScheduled cfg (suc n) attempt delay r)
        (sym (later_round cfg n attempt delay s last h))
        (elim (Option-cases (stop attempt)) [
          | inl go ↦ rw (wait_round, go) (suc m, omega arith, q, omega arith, ap (λ t. a ∷ t) w)
          | inr (e, stopped) ↦
              rw (wait_round, stopped) (1, omega arith, omega arith, omega arith, refl)
        ])

  delay_at-capped :
      (cfg : RetryConfig D F) (delay : D) (k : ℕ)
      → ((d : D) → delays.less d d ≡ false)
      → delays.less cfg.max_delay (delay_at delays cfg delay (suc k)) ≡ false
  unfolding delay_at
  delay_at-capped cfg delay zero irr =
      elim (Bool-cases (delays.less cfg.max_delay (delays.scaled cfg.multiplier delay))) [
        | inl over ↦ rw over (irr cfg.max_delay)
        | inr within ↦ rw (within, if◌then◌else◌) within
      ]
  delay_at-capped cfg delay (suc k) irr = delay_at-capped cfg (next_delay delays cfg delay) k irr

  schedule_at :
      (cfg : RetryConfig D F) (delay : D) (attempt m k : ℕ)
      → k < m
      → get_elem? (schedule delays random cfg delay attempt m) k
        ≡ some (wait_of delays cfg (delay_at delays cfg delay k) (random (attempt + k)))
  unfolding schedule delay_at
  schedule_at cfg delay attempt zero k h = absurd (omega arith)
  schedule_at cfg delay attempt (suc m) zero h =
      let e : attempt ≡ attempt + 0 = omega arith in
      ap (λ i. some (wait_of delays cfg delay (random i))) e
  schedule_at cfg delay attempt (suc m) (suc k) h =
      let e : suc attempt + k ≡ attempt + suc k = omega arith in
      let d = next_delay delays cfg delay in
      schedule_at cfg d (suc attempt) m k (omega arith)
      ∙ ap (λ i. some (wait_of delays cfg (delay_at delays cfg d k) (random i))) e

  length-schedule :
      (cfg : RetryConfig D F) (delay : D) (attempt m : ℕ)
      → length (schedule delays random cfg delay attempt m) ≡ m
  unfolding schedule
  length-schedule cfg delay attempt zero = refl
  length-schedule cfg delay attempt (suc m) =
      ap suc (length-schedule cfg (next_delay delays cfg delay) (suc attempt) m)

  first_waits :
      (cfg : RetryConfig D F) (n : ℕ) (s : S)
      → let r = retry_loop delays fn stop random cfg n 0 cfg.initial_delay s none in
        (m : ℕ) × (m ≤ n - 1)
        × (r.calls ≤ suc m)
        × (m ≤ r.calls)
        × (r.waits ≡ schedule delays random cfg cfg.initial_delay 1 m)
  unfolding retry_loop schedule
  first_waits cfg zero s = (0, omega arith, omega arith, omega arith, refl)
  first_waits cfg (suc n) s =
      let d = cfg.initial_delay in
      let rest = retry_loop delays fn stop random cfg n 1 d (fn s).0 (fn s).1 in
      let ih = later_waits cfg n 1 d (fn s).0 (fn s).1 (omega arith) in
      let (m, p, q, u, w) = call_round-IsScheduled cfg n 1 d (fn s) rest ih in
      (m, omega arith, q, omega arith, w)

  -- Let no duration be less than itself. For any options, outcomes and cancellation, `Retry` makes at
  -- most MaxRetries waits, and none if it is negative: one between two calls and possibly one that the
  -- context ends. Wait k is the delay k with its jitter, or 0 where that is negative, and never
  -- negative. Delay 0 is InitialDelay; each later one is the one before it times the multiplier, or
  -- MaxDelay where that is less, and so never above MaxDelay.
  pub retry_waits :
      (s : S) (opts : List (RetryConfig D F → RetryConfig D F))
      → ((d : D) → delays.less d d ≡ false)
      → let cfg = configure delays (default_retry_config delays) opts in
        let r = retry delays fn stop random s opts in
        IsWaits cfg.max_retries (length r.waits)
        × (r.calls ≤ suc (length r.waits))
        × (length r.waits ≤ r.calls)
        × ((k : ℕ)
            → k < length r.waits
            → get_elem? r.waits k
              ≡ some
                  (wait_of delays cfg (delay_at delays cfg cfg.initial_delay k) (random (1 + k))))
        × ((k : ℕ)
            → delays.less
                (wait_of delays cfg (delay_at delays cfg cfg.initial_delay k) (random (1 + k)))
                delays.no_delay
              ≡ false)
        × ((k : ℕ)
            → delays.less cfg.max_delay (delay_at delays cfg cfg.initial_delay (suc k)) ≡ false)
  unfolding retry
  retry_waits s opts irr =
      let cfg = configure delays (default_retry_config delays) opts in
      let d = cfg.initial_delay in
      let (m, p, q, u, w) = first_waits cfg (rounds cfg.max_retries) s in
      let size = ap (λ ws. length ws) w ∙ length-schedule cfg d 1 m in
      (
        rounds-IsWaits cfg.max_retries (length (retry delays fn stop random s opts).waits)
            (omega arith),
        omega arith,
        omega arith,
        (λ k h. ap (λ ws. get_elem? ws k) w ∙ schedule_at cfg d 1 m k (omega arith)),
        (λ k. wait_of-at_least delays cfg (delay_at delays cfg d k) (random (1 + k)) irr),
        λ k. delay_at-capped cfg d k irr,
      )
