-- ===== src/WorkerPool/Results.antt =====
-- The results of the pool of src/05_patterns/02_worker_pool_advanced over its steps.
use grin_with_golang.WorkerPool.{
  Worker, waiting, checking, running, sending, returned, Pool, is_returned, all_returned, result_of,
  Step, submit, close, cancel, receive, take, drained, stop, go_on, process, process_done, send,
  close_results, Option, Reach, start, Result, next, here,
}
use grin_with_golang.WorkerPool.Counting.{
  is_leaving, some_leaving, all_returned-at, some_leaving-set, some_leaving-replicate,
}
use mathlib.Core.Bool.{false≢true}
use mathlib.Core.List.{cons-ne-nil}
use grin_with_golang.Prelude.{
  Option, [], arith, false, refl, some, sym, true, ℕ, ◌≡◌, ◌≢◌, ◌∙◌, if◌then◌else◌, get_elem?,
  length, Bool, length-set,
}

module _ {T R E : Type 0} (Returns : T → R → Option E → Type 0) (no_value : R) (ctx_err : E) where
  -- the results are closed only when no worker is left
  unfoldable pub IsClosing : Pool T R E → Type 0
  IsClosing p = p.results_closed ≡ true → all_returned p.workers ≡ true

  -- a worker that has not returned
  pub at-IsClosing :
      (p : Pool T R E) (i : ℕ) (w : Worker T R E)
      → IsClosing p
      → get_elem? p.workers i ≡ some w
      → is_returned w ≡ false
      → p.results_closed ≢ true
  unfolding IsClosing
  at-IsClosing p i w ok h on shut = false≢true (sym on ∙ all_returned-at p.workers i w (ok shut) h)

  step-IsClosing :
      {p q : Pool T R E} → Step Returns no_value ctx_err p q → IsClosing p → IsClosing q
  unfolding IsClosing
  step-IsClosing (submit j unshut room) ok shut = ok shut
  step-IsClosing (close unshut) ok shut = ok shut
  step-IsClosing cancel ok shut = ok shut
  step-IsClosing (receive r rs h) ok shut = ok shut
  step-IsClosing {p} (take i j js h some_jobs) ok shut =
      absurd (at-IsClosing p i waiting ok h refl shut)
  step-IsClosing {p} (drained i h empty closed) ok shut =
      absurd (at-IsClosing p i waiting ok h refl shut)
  step-IsClosing {p} (stop i j h gone) ok shut =
      absurd (at-IsClosing p i (checking j) ok h refl shut)
  step-IsClosing {p} (go_on i j h on) ok shut =
      absurd (at-IsClosing p i (checking j) ok h refl shut)
  step-IsClosing {p} (process i j v e h ran) ok shut =
      absurd (at-IsClosing p i (running j) ok h refl shut)
  step-IsClosing {p} (process_done i j v e h gone) ok shut =
      absurd (at-IsClosing p i (running j) ok h refl shut)
  step-IsClosing {p} (send i r last h unshut room) ok shut = absurd (false≢true (sym unshut ∙ shut))
  step-IsClosing (close_results all unshut) ok shut = all

  -- once a worker leaves, no job is left and none can come, unless the context is done
  unfoldable pub IsDraining : Pool T R E → Type 0
  IsDraining p =
      p.cancelled ≡ false → some_leaving p.workers ≡ true → (p.jobs ≡ []) × (p.jobs_closed ≡ true)

  step-IsDraining :
      {p q : Pool T R E} → Step Returns no_value ctx_err p q → IsDraining p → IsDraining q
  unfolding IsDraining is_leaving
  step-IsDraining (submit j unshut room) ok on out =
      absurd (false≢true (sym unshut ∙ (ok on out).1))
  step-IsDraining (close unshut) ok on out = ((ok on out).0, refl)
  step-IsDraining cancel ok on out = absurd (false≢true (sym on))
  step-IsDraining (receive r rs h) ok on out = ok on out
  step-IsDraining {p} (take i j js h some_jobs) ok on out = absurd (
      cons-ne-nil j js (
        sym some_jobs
        ∙ (ok on (some_leaving-set p.workers i waiting (checking j) h (λ l. l) out)).0))
  step-IsDraining (drained i h empty closed) ok on out = (empty, closed)
  step-IsDraining (stop i j h gone) ok on out = absurd (false≢true (sym on ∙ gone))
  step-IsDraining {p} (go_on i j h going) ok on out =
      ok on (some_leaving-set p.workers i (checking j) (running j) h (λ l. l) out)
  step-IsDraining {p} (process i j v e h ran) ok on out =
      ok on
        (some_leaving-set p.workers i (running j) (sending (result_of j v e) false) h (λ l. l) out)
  step-IsDraining (process_done i j v e h gone) ok on out = absurd (false≢true (sym on ∙ gone))
  step-IsDraining {p} (send i r last h unshut room) ok on out = ok on (
      some_leaving-set p.workers i (sending r last) (if last then returned else waiting) h
        (λ l. ground arith) out)
  step-IsDraining (close_results all unshut) ok on out = ok on out

  pub Reach-IsClosing :
      {p q : Pool T R E} → Reach Returns no_value ctx_err p q → IsClosing p → IsClosing q
  Reach-IsClosing here ok = ok
  Reach-IsClosing (next path step) ok = step-IsClosing step (Reach-IsClosing path ok)

  pub Reach-IsDraining :
      {p q : Pool T R E} → Reach Returns no_value ctx_err p q → IsDraining p → IsDraining q
  Reach-IsDraining here ok = ok
  Reach-IsDraining (next path step) ok = step-IsDraining step (Reach-IsDraining path ok)

  pub start-IsClosing : (n size : ℕ) → IsClosing (start n size)
  unfolding IsClosing
  start-IsClosing n size shut = absurd (false≢true shut)

  pub start-IsDraining : (n size : ℕ) → IsDraining (start n size)
  unfolding IsDraining is_leaving
  start-IsDraining n size on out =
      let idle : Worker T R E = waiting in
      absurd (false≢true (sym (some_leaving-replicate n idle refl) ∙ out))

  -- no worker is lost
  step-workers :
      {p q : Pool T R E} → Step Returns no_value ctx_err p q → length q.workers ≡ length p.workers
  step-workers (submit j unshut room) = refl
  step-workers (close unshut) = refl
  step-workers cancel = refl
  step-workers (receive r rs h) = refl
  step-workers {p} (take i j js h some_jobs) = length-set p.workers i _
  step-workers {p} (drained i h empty closed) = length-set p.workers i _
  step-workers {p} (stop i j h gone) = length-set p.workers i _
  step-workers {p} (go_on i j h on) = length-set p.workers i _
  step-workers {p} (process i j v e h ran) = length-set p.workers i _
  step-workers {p} (process_done i j v e h gone) = length-set p.workers i _
  step-workers {p} (send i r last h unshut room) = length-set p.workers i _
  step-workers (close_results all unshut) = refl

  pub Reach-workers :
      {p q : Pool T R E} → Reach Returns no_value ctx_err p q → length q.workers ≡ length p.workers
  Reach-workers here = refl
  Reach-workers (next path step) = step-workers step ∙ Reach-workers path

  -- In every state that a started pool can reach, a worker that is about to send finds the results
  -- channel not closed, so that no send panics.
  pub sending-unclosed :
      (n size : ℕ) {p : Pool T R E} (i : ℕ) (r : Result R E) (last : Bool)
      → Reach Returns no_value ctx_err (start n size) p
      → get_elem? p.workers i ≡ some (sending r last)
      → p.results_closed ≢ true
  sending-unclosed n size {p} i r last path h =
      at-IsClosing p i (sending r last) (Reach-IsClosing path (start-IsClosing n size)) h refl
