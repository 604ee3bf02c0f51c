-- ===== src/BoundedGroup.antt =====
-- runBounded of src/03_concurrency/08_errgroup_semaphore/main.go, its goroutines step by step.
-- What a task returns is a parameter. The semaphore is the number of the values in its channel, and
-- sync.Once runs its function in one step. Where the channel has no buffer nobody receives while main
-- sends, so that Acquire blocks.
pub mod Permits
pub mod Outcomes
pub mod Results
pub mod Returning
mod Examples
use grin_with_golang.Prelude.{
  ◌≡◌, Bool, List, Option, [], false, none, some, true, ℕ, ◌∷◌, ◌++◌, ◌<◌, ◌+◌, ◌-◌, if◌then◌else◌,
  get_elem?, set,
}

-- where a task's goroutine stands; none is the nil error
pub data Goroutine (T E : Type 0) : Type 0 where
  starting : T → Goroutine T E
  recording : T → Option E → Goroutine T E
  releasing : T → Option E → Goroutine T E
  finishing : T → Option E → Goroutine T E
  finished : T → Option E → Goroutine T E

-- where runBounded stands: at the head of its loop, in Acquire, in Wait, or behind its return
pub data Position (T E : Type 0) : Type 0 where
  looping : Position T E
  acquiring : T → Position T E
  waiting : Position T E
  returned : Option E → Position T E

pub record Group (T E : Type 0) : Type 0 where
  pub max_concurrency : ℕ
  pub position : Position T E
  pub todo : List T
  pub sem : ℕ
  pub wg : ℕ
  pub once : Bool
  pub first_err : Option E
  pub goroutines : List (Goroutine T E)

abbrev pub start : {T E : Type 0} → List T → ℕ → Group T E
start tasks max_concurrency = record {
  max_concurrency = max_concurrency;
  position = looping;
  todo = tasks;
  sem = 0;
  wg = 0;
  once = false;
  first_err = none;
  goroutines = [];
}

-- `once.Do(func() { firstErr = err })` where the error is not nil
unfoldable pub capture : {T E : Type 0} → Group T E → Option E → Group T E
capture p none = p
capture p (some e) = if p.once then p else record p { once = true; first_err = some e }

module _ {T E : Type 0} (Returns : T → Option E → Type 0) where
  pub data Step (p : Group T E) : Group T E → Type 0 where
    add :
        (t : T) (ts : List T)
        → p.position ≡ looping
        → p.todo ≡ t ∷ ts
        → Step p (record p { position = acquiring t; todo = ts; wg = p.wg + 1 })
    acquire :
        (t : T)
        → p.position ≡ acquiring t
        → p.sem < p.max_concurrency
        → Step p (record p {
          position = looping;
          sem = p.sem + 1;
          goroutines = p.goroutines ++ starting t ∷ [];
        })
    run :
        (i : ℕ) (t : T) (err : Option E)
        → get_elem? p.goroutines i ≡ some (starting t)
        → Returns t err
        → Step p (record p { goroutines = set p.goroutines i (recording t err) })
    note :
        (i : ℕ) (t : T) (err : Option E)
        → get_elem? p.goroutines i ≡ some (recording t err)
        → Step p (record (capture p err) { goroutines = set p.goroutines i (releasing t err) })
    release :
        (i : ℕ) (t : T) (err : Option E)
        → get_elem? p.goroutines i ≡ some (releasing t err)
        → 0 < p.sem
        → Step p (record p { sem = p.sem - 1; goroutines = set p.goroutines i (finishing t err) })
    finish :
        (i : ℕ) (t : T) (err : Option E)
        → get_elem? p.goroutines i ≡ some (finishing t err)
        → Step p (record p { wg = p.wg - 1; goroutines = set p.goroutines i (finished t err) })
    wait : p.position ≡ looping → p.todo ≡ [] → Step p (record p { position = waiting })
    leave : p.position ≡ waiting → p.wg ≡ 0 → Step p (record p { position = returned p.first_err })

  -- the states after any interleaving
  pub data Reach (p : Group T E) : Group T E → Type 0 where
    here : Reach p p
    next : {q r : Group T E} → Reach p q → Step q r → Reach p r
