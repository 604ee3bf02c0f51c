-- ===== src/WorkerPool/Draining.antt =====
-- How the pool of src/05_patterns/02_worker_pool_advanced drains once its channel of jobs is closed.
use grin_with_golang.WorkerPool.{
  Worker, waiting, checking, running, sending, returned, Pool, is_returned, all_returned, result_of,
  stopped, Step, submit, close, cancel, receive, take, drained, stop, go_on, process, process_done,
  send, close_results, ℕ, List, Option, Reach, next, here,
}
use grin_with_golang.Prelude.Totals.{total, total-set}
use mathlib.Core.Bool.{false≢true}
use grin_with_golang.Prelude.{
  List-cases, List, Option, [], ap, arith, false, inl, inr, refl, some, suc, sym, true, ℕ, ◌+◌, ◌*◌,
  ◌≤◌, ◌≡◌, ◌∙◌, ◌∷◌, if◌then◌else◌, length, get_elem?, Bool-cases, length-append, ◌<◌, zero,
}

module _ {T R E : Type 0} where
  -- the steps that a worker is from its return, when it takes no more jobs
  unfoldable pub effort : Worker T R E → ℕ
  effort waiting = 1
  effort (checking j) = 5
  effort (running j) = 4
  effort (sending r last) = 3
  effort returned = 0

  -- a bound on the steps of a pool whose channel of jobs is closed
  unfoldable pub left : Pool T R E → ℕ
  left p =
      length p.jobs * 5
      + total effort p.workers
      + length p.results
      + (if p.results_closed then 0 else 1)

  find_busy :
      (ws : List (Worker T R E))
      → all_returned ws ≡ false
      → (i : ℕ) × (w : Worker T R E) × (get_elem? ws i ≡ some w) × (is_returned w ≡ false)
  unfolding all_returned
  find_busy [] some_busy = absurd (false≢true (sym some_busy))
  find_busy (w ∷ ws) some_busy = elim (Bool-cases (is_returned w)) [
    | inl off ↦ let (i, v, h, busy) = find_busy ws (ground arith) in (suc i, v, h, busy)
    | inr on ↦ (0, w, refl, on)
  ]

module _ {T R E : Type 0} (Returns : T → R → Option E → Type 0) (no_value : R) (ctx_err : E) where
  -- every step but a cancellation counts
  unfoldable pub moves : {p q : Pool T R E} → Step Returns no_value ctx_err p q → ℕ
  moves cancel = 0
  moves (submit j unshut room) = 1
  moves (close unshut) = 1
  moves (receive r rs h) = 1
  moves (take i j js h some_jobs) = 1
  moves (drained i h empty closed) = 1
  moves (stop i j h gone) = 1
  moves (go_on i j h on) = 1
  moves (process i j v e h ran) = 1
  moves (process_done i j v e h gone) = 1
  moves (send i r last h unshut room) = 1
  moves (close_results all unshut) = 1

  step-left :
      {p q : Pool T R E} (s : Step Returns no_value ctx_err p q)
      → p.jobs_closed ≡ true
      → moves s + left q ≤ left p
  unfolding moves left effort
  step-left cancel shut = omega arith
  step-left (submit j unshut room) shut = absurd (false≢true (sym unshut ∙ shut))
  step-left (close unshut) shut = absurd (false≢true (sym unshut ∙ shut))
  step-left {p} (receive r rs h) shut =
      let a : length p.results ≡ suc (length rs) = ap length h in omega arith
  step-left {p} (take i j js h some_jobs) shut =
      let a : length p.jobs ≡ suc (length js) = ap length some_jobs in
      let b = total-set effort p.workers i waiting (checking j) h in omega arith
  step-left {p} (drained i h empty closed) shut =
      let b = total-set effort p.workers i waiting returned h in omega arith
  step-left {p} (stop i j h gone) shut =
      let b =
        total-set effort p.workers i (checking j)
          (sending (stopped Returns no_value ctx_err j) true) h in
      omega arith
  step-left {p} (go_on i j h on) shut =
      let b = total-set effort p.workers i (checking j) (running j) h in omega arith
  step-left {p} (process i j v e h ran) shut =
      let b = total-set effort p.workers i (running j) (sending (result_of j v e) false) h in
      omega arith
  step-left {p} (process_done i j v e h gone) shut =
      let b = total-set effort p.workers i (running j) (sending (result_of j v e) false) h in
      omega arith
  step-left {p} (send i r last h unshut room) shut =
      let a = length-append p.results (r ∷ []) in
      let b =
        total-set effort p.workers i (sending r last) (if last then returned else waiting) h in
      let c : effort {T = T} {R = R} {E = E} (if last then returned else waiting) ≤ 1 =
        ground arith in
      omega arith
  step-left (close_results all unshut) shut = rw unshut (omega arith)

  -- what no step changes once the channel of jobs is closed
  unfoldable pub KeepsJobs : Pool T R E → Pool T R E → Type 0
  KeepsJobs p q =
      (q.jobs_closed ≡ true) × (q.submitted ≡ p.submitted) × (q.buffer_size ≡ p.buffer_size)

  step-KeepsJobs :
      {p q : Pool T R E} → Step Returns no_value ctx_err p q → p.jobs_closed ≡ true → KeepsJobs p q
  unfolding KeepsJobs
  step-KeepsJobs (submit j unshut room) shut = absurd (false≢true (sym unshut ∙ shut))
  step-KeepsJobs (close unshut) shut = (refl, refl, refl)
  step-KeepsJobs cancel shut = (shut, refl, refl)
  step-KeepsJobs (receive r rs h) shut = (shut, refl, refl)
  step-KeepsJobs (take i j js h some_jobs) shut = (shut, refl, refl)
  step-KeepsJobs (drained i h empty closed) shut = (shut, refl, refl)
  step-KeepsJobs (stop i j h gone) shut = (shut, refl, refl)
  step-KeepsJobs (go_on i j h on) shut = (shut, refl, refl)
  step-KeepsJobs (process i j v e h ran) shut = (shut, refl, refl)
  step-KeepsJobs (process_done i j v e h gone) shut = (shut, refl, refl)
  step-KeepsJobs (send i r last h unshut room) shut = (shut, refl, refl)
  step-KeepsJobs (close_results all unshut) shut = (shut, refl, refl)

  unfoldable pub all_moves : {p q : Pool T R E} → Reach Returns no_value ctx_err p q → ℕ
  all_moves here = 0
  all_moves (next path s) = all_moves path + moves s

  Reach-left :
      {p q : Pool T R E} (path : Reach Returns no_value ctx_err p q)
      → p.jobs_closed ≡ true
      → (all_moves path + left q ≤ left p) × KeepsJobs p q
  unfolding all_moves KeepsJobs
  Reach-left here shut = (omega arith, (shut, refl, refl))
  Reach-left (next path s) shut =
      let (bound, (closed, subs, size)) = Reach-left path shut in
      let (closed1, subs1, size1) = step-KeepsJobs s closed in
      let less = step-left s closed in (omega arith, (closed1, subs1 ∙ subs, size1 ∙ size))

  module _ (answer : (x : T) → (v : R) × (e : Option E) × Returns x v e) where
    -- a step that counts and keeps the context
    unfoldable Advances : Pool T R E → Type 0
    Advances p =
        (q : Pool T R E) × (s : Step Returns no_value ctx_err p q) × (moves s ≡ 1)
        × (q.cancelled ≡ p.cancelled)

    advance_at :
        (p : Pool T R E) (i : ℕ) (w : Worker T R E)
        → p.jobs_closed ≡ true
        → 0 < p.buffer_size
        → p.results_closed ≡ false
        → get_elem? p.workers i ≡ some w
        → is_returned w ≡ false
        → Advances p
    unfolding Advances moves
    advance_at p i returned closed room unshut h busy = absurd (false≢true (sym busy))
    advance_at p i waiting closed room unshut h busy = elim (List-cases p.jobs) [
      | inl empty ↦ (_, drained i h empty closed, refl, refl)
      | inr (j, js, some_jobs) ↦ (_, take i j js h some_jobs, refl, refl)
    ]
    advance_at p i (checking j) closed room unshut h busy = elim (Bool-cases p.cancelled) [
      | inl gone ↦ (_, stop i j h gone, refl, refl)
      | inr on ↦ (_, go_on i j h on, refl, refl)
    ]
    advance_at p i (running j) closed room unshut h busy =
        let (v, e, ran) = answer j.payload in (_, process i j v e h ran, refl, refl)
    advance_at p i (sending r last) closed room unshut h busy = elim (List-cases p.results) [
      | inl empty ↦
          let fits : length p.results < p.buffer_size =
            let none_held = ap length empty in omega arith in
          (_, send i r last h unshut fits, refl, refl)
      | inr (x, rs, some_results) ↦ (_, receive x rs some_results, refl, refl)
    ]

    advance :
        (p : Pool T R E)
        → p.jobs_closed ≡ true
        → 0 < p.buffer_size
        → p.results_closed ≡ false
        → Advances p
    unfolding Advances moves
    advance p closed room unshut = elim (Bool-cases (all_returned p.workers)) [
      | inl all ↦ (_, close_results all unshut, refl, refl)
      | inr some_busy ↦
          let (i, w, h, busy) = find_busy p.workers some_busy in
          advance_at p i w closed room unshut h busy
    ]

    drain_on :
        (n : ℕ) (p q : Pool T R E)
        → Reach Returns no_value ctx_err p q
        → p.jobs_closed ≡ true
        → 0 < p.buffer_size
        → q.cancelled ≡ p.cancelled
        → left q < n
        → (z : Pool T R E) × Reach Returns no_value ctx_err p z
          × (z.results_closed ≡ true)
          × (z.cancelled ≡ p.cancelled)
    unfolding Advances KeepsJobs
    drain_on zero p q path closed room same fuel = absurd (omega arith)
    drain_on (suc n) p q path closed room same fuel = elim (Bool-cases q.results_closed) [
      | inl shut ↦ (q, path, shut, same)
      | inr unshut ↦
          let (bound, (closed1, subs, size)) = Reach-left path closed in
          let (z, s, one, same1) = advance q closed1 (omega arith) unshut in
          let less = step-left s closed1 in
          drain_on n p z (next path s) closed room (same1 ∙ same) (omega arith)
    ]

    -- Let the processor return for every payload. A pool with a buffer whose channel of jobs is closed can
    -- close its results, with the same jobs submitted and the context as it was, and on every way to
    -- any state it makes at most `left` steps that are not a cancellation.
    pub closes_results :
        (p : Pool T R E)
        → p.jobs_closed ≡ true
        → 0 < p.buffer_size
        → ((z : Pool T R E) × Reach Returns no_value ctx_err p z
            × (z.results_closed ≡ true)
            × (z.submitted ≡ p.submitted)
            × (z.cancelled ≡ p.cancelled))
          × ((q : Pool T R E) (path : Reach Returns no_value ctx_err p q) → all_moves path ≤ left p)
    unfolding KeepsJobs
    closes_results p closed room =
        let (z, path, shut, same) =
          drain_on (suc (left p)) p p here closed room refl (omega arith) in
        let (bound, (closed1, subs, size)) = Reach-left path closed in
        ((z, path, shut, subs, same), λ q way. let moved = (Reach-left way closed).0 in omega arith)
