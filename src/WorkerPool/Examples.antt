-- ===== src/WorkerPool/Examples.antt =====
-- One worker of the pool of src/05_patterns/02_worker_pool_advanced that doubles a number.
use grin_with_golang.WorkerPool.{
  Job, Result, sending, returned, Pool, start, submit, close, take, drained, go_on, process, send,
  close_results, all_returned, Reach, here, next, ℕ, false, checking, cancel, stop,
}
use grin_with_golang.Prelude.Totals.{total}
use grin_with_golang.WorkerPool.Delivery.{closed_complete}
use grin_with_golang.WorkerPool.Draining.{all_moves, left, closes_results}
use grin_with_golang.WorkerPool.Results.{sending-unclosed}
use grin_with_golang.Prelude.{
  arith, ◌≢◌, Option, [], false, none, refl, true, ℕ, ◌+◌, ◌*◌, ◌≡◌, ◌∷◌, some, ◌≤◌,
}

abbrev Doubles : ℕ → ℕ → Option ℕ → Type 0
Doubles x v e = (v ≡ x * 2) × (e ≡ none)

abbrev seven : Job ℕ
seven = record { id = 1; payload = 7 }

abbrev doubled : Result ℕ ℕ
doubled = record { job_id = 1; value = 14; err = none }

abbrev DoublerReach : Pool ℕ ℕ ℕ → Type 0
DoublerReach = Reach Doubles 0 9 (start 1 2)

abbrev at_send : Pool ℕ ℕ ℕ
at_send = record (start 1 2) { workers = sending doubled false ∷ []; submitted = seven ∷ [] }

abbrev at_end : Pool ℕ ℕ ℕ
at_end = record (start 1 2) {
  workers = returned ∷ [];
  submitted = seven ∷ [];
  results = doubled ∷ [];
  jobs_closed = true;
  results_closed = true;
}

sent : DoublerReach at_send
sent =
    next
      (next (next (next here (submit seven refl (omega arith))) (take 0 seven [] refl refl))
        (go_on 0 seven refl refl))
      (process 0 seven 14 none refl (refl, refl))

ended : DoublerReach at_end
unfolding all_returned
ended =
    next
      (next (next (next sent (send 0 doubled false refl refl (omega arith))) (close refl))
        (drained 0 refl refl refl))
      (close_results refl refl)

sending-unclosed_example : at_send.results_closed ≢ true
sending-unclosed_example = sending-unclosed Doubles 0 9 1 2 0 doubled false sent refl

-- the number of a result is its value
closed_complete_example :
    total (λ j. j.payload * 2) (seven ∷ [])
    ≡ total (λ r. r.value) (doubled ∷ []) + total {A = Result ℕ ℕ} (λ r. r.value) []
closed_complete_example =
    closed_complete Doubles 0 9 (λ r. r.value) (λ j. j.payload * 2) (λ j v e ran. ran.0) 1 2 ended
      (omega arith) refl refl

-- a pool whose context was done before its worker took a job: the second job is left in the channel, and
-- two more fill it for good
abbrev abandoned : Pool ℕ ℕ ℕ
abandoned = record (start 1 2) {
  workers = returned ∷ [];
  submitted = seven ∷ seven ∷ seven ∷ [];
  jobs = seven ∷ seven ∷ [];
  results = record { job_id = 1; value = 0; err = some 9 } ∷ [];
  results_closed = true;
  cancelled = true;
}

abandons : DoublerReach abandoned
unfolding all_returned
abandons =
    let taken : DoublerReach
        (record (start 1 2) { workers = checking seven ∷ []; submitted = seven ∷ [] }) =
      next (next here (submit seven refl (omega arith))) (take 0 seven [] refl refl) in
    let left =
      next
        (next (next (next taken cancel) (stop 0 seven refl refl))
          (send 0 (record { job_id = 1; value = 0; err = some 9 }) true refl refl (omega arith)))
        (close_results refl refl) in
    next (next left (submit seven refl (omega arith))) (submit seven refl (omega arith))

-- a pool that has taken no job yet
abbrev pending : Pool ℕ ℕ ℕ
pending = record (start 1 2) { jobs = seven ∷ []; submitted = seven ∷ []; jobs_closed = true }

closes_results_example :
    ((z : Pool ℕ ℕ ℕ) × Reach Doubles 0 9 pending z
      × (z.results_closed ≡ true)
      × (z.submitted ≡ seven ∷ [])
      × (z.cancelled ≡ false))
    × ((q : Pool ℕ ℕ ℕ) (path : Reach Doubles 0 9 pending q)
        → all_moves Doubles 0 9 path ≤ left pending)
closes_results_example =
    closes_results Doubles 0 9 (λ x. (x * 2, none, (refl, refl))) pending refl (omega arith)
