-- ===== src/WorkerPool/Delivery.antt =====
-- Every job of the pool of src/05_patterns/02_worker_pool_advanced has one result.
use grin_with_golang.WorkerPool.{
  Job, Result, Worker, waiting, checking, running, sending, returned, Pool, start, all_returned,
  result_of, stopped, Step, submit, close, cancel, receive, take, drained, stop, go_on, process,
  process_done, send, close_results, Reach, here, next, Option,
}
use grin_with_golang.WorkerPool.Counting.{all_returned-some_leaving}
use grin_with_golang.Prelude.Totals.{total, total-append, total-set, total-replicate}
use grin_with_golang.WorkerPool.Results.{
  IsClosing, IsDraining, start-IsClosing, start-IsDraining, Reach-IsClosing, Reach-IsDraining,
  Reach-workers,
}
use mathlib.Core.Bool.{false≢true}
use grin_with_golang.Prelude.{
  List, Option, [], ap, arith, false, inl, inr, refl, some, sym, true, ℕ, ◌+◌, ◌<◌, ◌≡◌, ◌⊎◌, ◌∙◌,
  ◌∷◌, if◌then◌else◌, length, get_elem?, set, length-replicate,
}

module _ {T R E : Type 0} (Returns : T → R → Option E → Type 0) (no_value : R) (ctx_err : E)
    (weight : Result R E → ℕ) (owed : Job T → ℕ)
    (fits : (j : Job T) (v : R) (e : Option E)
      → Returns j.payload v e
      → weight (result_of j v e) ≡ owed j) where
  -- the results that a worker still owes
  unfoldable pub held : Worker T R E → ℕ
  held waiting = 0
  held (checking j) = owed j
  held (running j) = owed j
  held (sending r last) = weight r
  held returned = 0

  unfoldable pub IsBalanced : Pool T R E → Type 0
  IsBalanced p =
      total owed p.submitted
      ≡ total owed p.jobs + total held p.workers + total weight p.results + total weight p.received

  -- the context is not done, or the weight reads the job's id only
  unfoldable pub IsFair : Pool T R E → Type 0
  IsFair p =
      (p.cancelled ≡ false)
      ⊎ ((j : Job T) (v : R) (e : Option E) → weight (result_of j v e) ≡ owed j)

  -- a worker that goes on with what it owes
  held-set :
      (ws : List (Worker T R E)) (i : ℕ) (old new : Worker T R E)
      → get_elem? ws i ≡ some old
      → held new ≡ held old
      → total held (set ws i new) ≡ total held ws
  held-set ws i old new h same = let moved = total-set held ws i old new h in omega arith

  -- a result of a done context
  done-IsFair :
      (p : Pool T R E) (j : Job T) (v : R) (e : Option E)
      → IsFair p
      → p.cancelled ≡ true
      → weight (result_of j v e) ≡ owed j
  unfolding IsFair
  done-IsFair p j v e (inl on) gone = absurd (false≢true (sym on ∙ gone))
  done-IsFair p j v e (inr by_id) gone = by_id j v e

  step-IsBalanced :
      {p q : Pool T R E}
      → Step Returns no_value ctx_err p q
      → IsFair q
      → IsBalanced p
      → IsBalanced q
  unfolding IsBalanced held total IsFair
  step-IsBalanced {p} (submit j unshut room) fair ok =
      let a = total-append owed p.submitted j in let b = total-append owed p.jobs j in omega arith
  step-IsBalanced (close unshut) fair ok = ok
  step-IsBalanced cancel fair ok = ok
  step-IsBalanced {p} (receive r rs h) fair ok =
      let a = total-append weight p.received r in
      let b : total weight p.results ≡ weight r + total weight rs = ap (total weight) h in
      omega arith
  step-IsBalanced {p} (take i j js h some_jobs) fair ok =
      let a = total-set held p.workers i waiting (checking j) h in
      let b : total owed p.jobs ≡ owed j + total owed js = ap (total owed) some_jobs in omega arith
  step-IsBalanced {p} (drained i h empty closed) fair ok =
      let a = held-set p.workers i waiting returned h refl in omega arith
  step-IsBalanced {p} (stop i j h gone) fair ok =
      let same = done-IsFair p j no_value (some ctx_err) fair gone in
      let a =
        held-set p.workers i (checking j) (sending (stopped Returns no_value ctx_err j) true) h
          same in
      omega arith
  step-IsBalanced {p} (go_on i j h on) fair ok =
      let a = held-set p.workers i (checking j) (running j) h refl in omega arith
  step-IsBalanced {p} (process i j v e h ran) fair ok =
      let a =
        held-set p.workers i (running j) (sending (result_of j v e) false) h (fits j v e ran) in
      omega arith
  step-IsBalanced {p} (process_done i j v e h gone) fair ok =
      let same = done-IsFair p j v e fair gone in
      let a = held-set p.workers i (running j) (sending (result_of j v e) false) h same in
      omega arith
  step-IsBalanced {p} (send i r last h unshut room) fair ok =
      let a = total-append weight p.results r in
      let b = total-set held p.workers i (sending r last) (if last then returned else waiting) h in
      let c : held (if last then returned else waiting) ≡ 0 = ground arith in omega arith
  step-IsBalanced (close_results all unshut) fair ok = ok

  -- the context stays done
  step-IsFair : {p q : Pool T R E} → Step Returns no_value ctx_err p q → IsFair q → IsFair p
  unfolding IsFair
  step-IsFair cancel (inl on) = absurd (false≢true (sym on))
  step-IsFair cancel (inr by_id) = inr by_id
  step-IsFair (submit j unshut room) fair = fair
  step-IsFair (close unshut) fair = fair
  step-IsFair (receive r rs h) fair = fair
  step-IsFair (take i j js h some_jobs) fair = fair
  step-IsFair (drained i h empty closed) fair = fair
  step-IsFair (stop i j h gone) fair = fair
  step-IsFair (go_on i j h on) fair = fair
  step-IsFair (process i j v e h ran) fair = fair
  step-IsFair (process_done i j v e h gone) fair = fair
  step-IsFair (send i r last h unshut room) fair = fair
  step-IsFair (close_results all unshut) fair = fair

  Reach-IsBalanced :
      {p q : Pool T R E}
      → Reach Returns no_value ctx_err p q
      → IsFair q
      → IsBalanced p
      → IsBalanced q
  Reach-IsBalanced here fair ok = ok
  Reach-IsBalanced (next path step) fair ok =
      step-IsBalanced step fair (Reach-IsBalanced path (step-IsFair step fair) ok)

  start-IsBalanced : (n size : ℕ) → IsBalanced (start n size)
  unfolding IsBalanced total held
  start-IsBalanced n size = let idle = total-replicate held waiting n refl in omega arith

  returned-held : (ws : List (Worker T R E)) → all_returned ws ≡ true → total held ws ≡ 0
  unfolding all_returned total held
  returned-held [] all = refl
  returned-held (returned ∷ ws) all = let rest = returned-held ws all in omega arith
  returned-held (waiting ∷ ws) all = absurd (false≢true all)
  returned-held (checking j ∷ ws) all = absurd (false≢true all)
  returned-held (running j ∷ ws) all = absurd (false≢true all)
  returned-held (sending r last ∷ ws) all = absurd (false≢true all)

  -- a pool whose workers have all returned holds only what nobody took
  closed-total :
      (n size : ℕ) {p : Pool T R E}
      → Reach Returns no_value ctx_err (start n size) p
      → IsFair p
      → p.results_closed ≡ true
      → total owed p.submitted
        ≡ total owed p.jobs + total weight p.results + total weight p.received
  unfolding IsBalanced IsClosing
  closed-total n size {p} path fair shut =
      let counted = Reach-IsBalanced path fair (start-IsBalanced n size) in
      let all =
        Reach-IsClosing Returns no_value ctx_err path
          (start-IsClosing Returns no_value ctx_err n size) shut in
      let idle = returned-held p.workers all in omega arith

  -- Let `weight` give a number to each result and `owed` to each job, such that every result that the
  -- processor may return for a job has the number of the job. When the pool, started with at least one
  -- worker, has closed its results and its context is not done, the numbers of the submitted jobs have
  -- the same total as those of the results that wait in the channel and that were received.
  pub closed_complete :
      (n size : ℕ) {p : Pool T R E}
      → Reach Returns no_value ctx_err (start n size) p
      → 0 < n
      → p.results_closed ≡ true
      → p.cancelled ≡ false
      → total owed p.submitted ≡ total weight p.results + total weight p.received
  unfolding IsFair IsClosing IsDraining total
  closed_complete n size {p} path some_workers shut on =
      let all =
        Reach-IsClosing Returns no_value ctx_err path
          (start-IsClosing Returns no_value ctx_err n size) shut in
      let many : 0 < length p.workers =
        let same = Reach-workers Returns no_value ctx_err path ∙ length-replicate n waiting in
        omega arith in
      let drained =
        Reach-IsDraining Returns no_value ctx_err path
          (start-IsDraining Returns no_value ctx_err n size) on
          (all_returned-some_leaving p.workers many all) in
      let none_left : total owed p.jobs ≡ 0 = ap (total owed) drained.0 in
      let counted = closed-total n size path (inl on) shut in omega arith
