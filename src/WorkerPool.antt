-- ===== src/WorkerPool.antt =====
-- The worker pool of src/05_patterns/02_worker_pool_advanced/main.go, its goroutines step by step.
-- What the processor returns for a payload is a parameter, and anything once the context is done. Both channels have
-- a buffer. A submission after Close panics, so that no client makes one. `submitted` and
-- `received` are the histories of the two ends.
pub mod Counting
pub mod Results
pub mod Delivery
pub mod Draining
mod Examples
use grin_with_golang.Prelude.{
  ◌≡◌, Bool, List, Option, [], false, none, some, true, ℕ, ◌∷◌, ◌++◌, ◌<◌, if◌then◌else◌, length,
  get_elem?, set, replicate,
}

pub record Job (T : Type 0) : Type 0 where
  pub id : ℕ
  pub payload : T

-- `err` is none for nil
pub record Result (R E : Type 0) : Type 0 where
  pub job_id : ℕ
  pub value : R
  pub err : Option E

-- where a worker stands in the loop of `Start`; the flag of `sending` says that it returns after the send
pub data Worker (T R E : Type 0) : Type 0 where
  waiting : Worker T R E
  checking : Job T → Worker T R E
  running : Job T → Worker T R E
  sending : Result R E → Bool → Worker T R E
  returned : Worker T R E

pub record Pool (T R E : Type 0) : Type 0 where
  pub buffer_size : ℕ
  pub jobs : List (Job T)
  pub jobs_closed : Bool
  pub workers : List (Worker T R E)
  pub results : List (Result R E)
  pub results_closed : Bool
  pub cancelled : Bool
  pub submitted : List (Job T)
  pub received : List (Result R E)

-- `NewPool` and `Start`
abbrev pub start : {T R E : Type 0} → ℕ → ℕ → Pool T R E
start workers buffer_size = record {
  buffer_size = buffer_size;
  jobs = [];
  jobs_closed = false;
  workers = replicate workers waiting;
  results = [];
  results_closed = false;
  cancelled = false;
  submitted = [];
  received = [];
}

abbrev pub is_returned : {T R E : Type 0} → Worker T R E → Bool
is_returned returned = true
is_returned waiting = false
is_returned (checking j) = false
is_returned (running j) = false
is_returned (sending r last) = false

unfoldable pub all_returned : {T R E : Type 0} → List (Worker T R E) → Bool
all_returned [] = true
all_returned (w ∷ ws) = if is_returned w then all_returned ws else false

abbrev pub result_of : {T R E : Type 0} → Job T → R → Option E → Result R E
result_of j v e = record { job_id = j.id; value = v; err = e }

module _ {T R E : Type 0} (Returns : T → R → Option E → Type 0) (no_value : R) (ctx_err : E) where
  -- the result of a job that finds the context done
  abbrev pub stopped : Job T → Result R E
  stopped j = result_of j no_value (some ctx_err)

  pub data Step (p : Pool T R E) : Pool T R E → Type 0 where
    submit :
        (j : Job T)
        → p.jobs_closed ≡ false
        → length p.jobs < p.buffer_size
        → Step p (record p { jobs = p.jobs ++ j ∷ []; submitted = p.submitted ++ j ∷ [] })
    close : p.jobs_closed ≡ false → Step p (record p { jobs_closed = true })
    cancel : Step p (record p { cancelled = true })
    receive :
        (r : Result R E) (rs : List (Result R E))
        → p.results ≡ r ∷ rs
        → Step p (record p { results = rs; received = p.received ++ r ∷ [] })
    -- `for job := range p.jobs`
    take :
        (i : ℕ) (j : Job T) (js : List (Job T))
        → get_elem? p.workers i ≡ some waiting
        → p.jobs ≡ j ∷ js
        → Step p (record p { jobs = js; workers = set p.workers i (checking j) })
    drained :
        (i : ℕ)
        → get_elem? p.workers i ≡ some waiting
        → p.jobs ≡ []
        → p.jobs_closed ≡ true
        → Step p (record p { workers = set p.workers i returned })
    -- the `select`
    stop :
        (i : ℕ) (j : Job T)
        → get_elem? p.workers i ≡ some (checking j)
        → p.cancelled ≡ true
        → Step p (record p { workers = set p.workers i (sending (stopped j) true) })
    go_on :
        (i : ℕ) (j : Job T)
        → get_elem? p.workers i ≡ some (checking j)
        → p.cancelled ≡ false
        → Step p (record p { workers = set p.workers i (running j) })
    process :
        (i : ℕ) (j : Job T) (v : R) (e : Option E)
        → get_elem? p.workers i ≡ some (running j)
        → Returns j.payload v e
        → Step p (record p { workers = set p.workers i (sending (result_of j v e) false) })
    process_done :
        (i : ℕ) (j : Job T) (v : R) (e : Option E)
        → get_elem? p.workers i ≡ some (running j)
        → p.cancelled ≡ true
        → Step p (record p { workers = set p.workers i (sending (result_of j v e) false) })
    send :
        (i : ℕ) (r : Result R E) (last : Bool)
        → get_elem? p.workers i ≡ some (sending r last)
        → p.results_closed ≡ false
        → length p.results < p.buffer_size
        → Step p (record p {
          results = p.results ++ r ∷ [];
          workers = set p.workers i (if last then returned else waiting);
        })
    -- `wg.Wait(); close(p.results)`
    close_results :
        all_returned p.workers ≡ true
        → p.results_closed ≡ false
        → Step p (record p { results_closed = true })

  -- the states after any interleaving
  pub data Reach (p : Pool T R E) : Pool T R E → Type 0 where
    here : Reach p p
    next : {q r : Pool T R E} → Reach p q → Step q r → Reach p r
