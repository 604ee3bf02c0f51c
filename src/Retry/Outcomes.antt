-- ===== src/Retry/Outcomes.antt =====
-- How often `Retry` of src/05_patterns/05_retry_with_backoff calls its function, and what it returns.
use grin_with_golang.Retry.Attempts.{
  IsFinal, Allowed, IsCount, rounds-Allowed, rounds-IsCount, is_retryable-IsFinal,
  retryable-IsFinal,
}
use grin_with_golang.Retry.{
  GoError, is_retryable, RetryConfig, Delays, Run, success, non_retryable, exceeded, retry_loop,
  retry, configure, default_retry_config, rounds, next_delay, actual_delay, Option, call_round,
  wait_round,
}
use grin_with_golang.Prelude.{
  Bool, List, Option, ap, ap₂, arith, inl, inr, none, refl, some, suc, zero, ℕ, ◌<◌, ◌≡◌, ◌⊎◌, ◌∙◌,
  ◌∷◌, ◌==◌, if◌then◌else◌, Bool-cases, Option-cases, sym, subst, ◌+◌,
}
use grin_with_golang.Prelude.Integers.{ℤ}

module _ {S : Type 0} (fn : S → S × Option GoError) where
  -- the state before call `k`, and the error of that call
  abbrev pub state_after : ℕ → S → S
  state_after zero s = s
  state_after (suc k) s = state_after k (fn s).0

  abbrev pub outcome : ℕ → S → Option GoError
  outcome k s = (fn (state_after k s)).1

  -- the first `k` calls fail with errors that are retried
  abbrev pub IsRetried : ℕ → S → Type 0
  IsRetried k s = (i : ℕ) → i < k → (e : GoError) × (outcome i s ≡ some e) × (¬ IsFinal e)

  -- the error of the last of `n` calls
  abbrev pub last_error : ℕ → S → Option GoError → Option GoError
  last_error zero s last = last
  last_error (suc n) s last = outcome n s

  IsRetried-suc :
      (k : ℕ) (s : S) (e : GoError)
      → (fn s).1 ≡ some e
      → ¬ IsFinal e
      → IsRetried k (fn s).0
      → IsRetried (suc k) s
  IsRetried-suc k s e p q more zero h = (e, p, q)
  IsRetried-suc k s e p q more (suc i) h = more i (omega arith)

  last_error-suc :
      (n : ℕ) (s : S) (last : Option GoError)
      → last_error n (fn s).0 (fn s).1 ≡ last_error (suc n) s last
  last_error-suc zero s last = refl
  last_error-suc (suc n) s last = refl

  -- What a run of at most `n` rounds comes to.
  abbrev pub Finish : {D : Type 0} → ℕ → S → Option GoError → Run S D → Type 0
  Finish n s last r =
      (r.state ≡ state_after r.calls s)
      × (((k : ℕ) × (k < n)
            × IsRetried k s
            × (outcome k s ≡ none)
            × (r.calls ≡ suc k)
            × (r.result ≡ success))
          ⊎ (((k : ℕ) × (e : GoError) × (k < n)
                × IsRetried k s
                × (outcome k s ≡ some e)
                × IsFinal e
                × (r.calls ≡ suc k)
                × (r.result ≡ non_retryable e))
              ⊎ (IsRetried n s × (r.calls ≡ n) × (r.result ≡ exceeded (last_error n s last)))))

  -- What `Retry` with MaxRetries `m` comes to.
  abbrev pub Ends : {D : Type 0} → ℤ → S → Run S D → Type 0
  Ends m s r =
      (r.state ≡ state_after r.calls s)
      × (((k : ℕ) × Allowed m k
            × IsRetried k s
            × (outcome k s ≡ none)
            × (r.calls ≡ k + 1)
            × (r.result ≡ success))
          ⊎ (((k : ℕ) × (e : GoError) × Allowed m k
                × IsRetried k s
                × (outcome k s ≡ some e)
                × IsFinal e
                × (r.calls ≡ k + 1)
                × (r.result ≡ non_retryable e))
              ⊎ (IsRetried r.calls s
                  × IsCount m r.calls
                  × (r.result ≡ exceeded (last_error r.calls s none)))))

  Finish-Ends : {D : Type 0} (m : ℤ) (s : S) (r : Run S D) → Finish (rounds m) s none r → Ends m s r
  Finish-Ends m s r (state, inl (k, lt, before, out, count, result)) =
      (state, inl (k, rounds-Allowed m k lt, before, out, omega arith, result))
  Finish-Ends m s r (state, inr (inl (k, e, lt, before, out, stays, count, result))) =
      (state, inr (inl (k, e, rounds-Allowed m k lt, before, out, stays, omega arith, result)))
  Finish-Ends m s r (state, inr (inr (before, count, result))) = (
    state,
    inr (
        inr (
          subst (λ n. IsRetried n s) (sym count) before,
          subst (λ n. IsCount m n) (sym count) (rounds-IsCount m),
          result ∙ ap (λ n. exceeded (last_error n s none)) (sym count),
        )),
  )

module _ {D F S : Type 0} (delays : Delays D F) (fn : S → S × Option GoError)
    (stop : ℕ → Option GoError) (random : ℕ → ℕ) where
  -- a round that no cancellation ends, but for the waits
  retry_round :
      (cfg : RetryConfig D F) (n attempt : ℕ) (delay : D) (s : S) (last : Option GoError)
      → stop attempt ≡ none
      → (w : List D) × (d : D) × (retry_loop delays fn stop random cfg (suc n) attempt delay s last
          ≡ record (call_round
              (fn s)
              (retry_loop delays fn stop random cfg n (suc attempt) d (fn s).0 (fn s).1)) {
                waits = w;
              })
  unfolding retry_loop wait_round
  retry_round cfg n attempt delay s last go =
      let d = if attempt == 0 then delay else next_delay delays cfg delay in
      let called =
        call_round (fn s)
          (retry_loop delays fn stop random cfg n (suc attempt) d (fn s).0 (fn s).1) in
      let a = actual_delay delays cfg delay (random attempt) in
      let round =
        λ (t : Bool) (o : Option GoError). if t then called else wait_round o a s called in
      elim (Bool-cases (attempt == 0)) [
        | inl first ↦ (called.waits, d, ap (λ t. round t (stop attempt)) first)
        | inr later ↦ (a ∷ called.waits, d, ap₂ round later go)
      ]

  loop_finishes :
      (cfg : RetryConfig D F) (n attempt : ℕ) (delay : D) (s : S) (last : Option GoError)
      → ((i : ℕ) → stop i ≡ none)
      → Finish fn n s last (retry_loop delays fn stop random cfg n attempt delay s last)
  unfolding retry_loop call_round
  loop_finishes cfg zero attempt delay s last go =
      (refl, inr (inr ((λ i h. absurd (omega arith)), refl, refl)))
  loop_finishes cfg (suc n) attempt delay s last go =
      let (w, d, round) = retry_round cfg n attempt delay s last (go attempt) in
      rw round (elim (Option-cases (fn s).1) [
        | inl fine ↦
            rw (call_round, fine)
              (refl, inl (0, omega arith, (λ i h. absurd (omega arith)), fine, refl, refl))
        | inr (e, failed) ↦ elim (Bool-cases (is_retryable e)) [
          | inr stays ↦
              rw (call_round, failed, stays)
                (
                  refl,
                  inr (
                      inl (
                        0,
                        e,
                        omega arith,
                        (λ i h. absurd (omega arith)),
                        failed,
                        is_retryable-IsFinal e stays,
                        refl,
                        refl,
                      )),
                )
          | inl again ↦
              let rest = retry_loop delays fn stop random cfg n (suc attempt) d (fn s).0 (fn s).1 in
              let (state, cases) = loop_finishes cfg n (suc attempt) d (fn s).0 (fn s).1 go in
              rw (call_round, failed, again)
                (
                  state,
                  elim cases [
                    | inl (k, lt, before, out, count, result) ↦ inl (
                      suc k,
                      omega arith,
                      IsRetried-suc fn k s e failed (retryable-IsFinal e again) before,
                      out,
                      ap suc count,
                      result,
                    )
                    | inr (inl (k, e', lt, before, out, stays, count, result)) ↦ inr (
                        inl (
                          suc k,
                          e',
                          omega arith,
                          IsRetried-suc fn k s e failed (retryable-IsFinal e again) before,
                          out,
                          stays,
                          ap suc count,
                          result,
                        ))
                    | inr (inr (before, count, result)) ↦ inr (
                        inr (
                          IsRetried-suc fn n s e failed (retryable-IsFinal e again) before,
                          ap suc count,
                          result ∙ ap exceeded (last_error-suc fn n s last),
                        ))
                  ],
                )
        ]
      ])

  -- When the context is never done, `Retry` returns, for any options, with one of three results that
  -- the errors of the calls decide, with attempts counted from 0. It is nil when the first attempt that does
  -- not fail is at most MaxRetries. It is the error of an attempt that is at most MaxRetries and is the
  -- first to fail with an error whose own type, under any number of wraps, says that it is not to be
  -- retried. And it is the last error when all MaxRetries + 1 attempts fail with other errors. It makes no
  -- call after the deciding one. With a negative MaxRetries it makes no call at all and returns an
  -- error without a cause.
  pub retry_finishes :
      (s : S) (opts : List (RetryConfig D F → RetryConfig D F))
      → ((i : ℕ) → stop i ≡ none)
      → let cfg = configure delays (default_retry_config delays) opts in
        Ends fn cfg.max_retries s (retry delays fn stop random s opts)
  unfolding retry
  retry_finishes s opts go =
      let cfg = configure delays (default_retry_config delays) opts in
      Finish-Ends fn cfg.max_retries s (retry delays fn stop random s opts)
        (loop_finishes cfg (rounds cfg.max_retries) 0 cfg.initial_delay s none go)
