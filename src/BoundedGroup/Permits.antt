-- ===== src/BoundedGroup/Permits.antt =====
-- The permits of the semaphore of src/03_concurrency/08_errgroup_semaphore/main.go and its wait group.
use grin_with_golang.BoundedGroup.{
  Goroutine, starting, recording, releasing, finishing, finished, Position, looping, acquiring,
  waiting, returned, Group, start, capture, Step, add, acquire, run, note, release, finish, wait,
  leave, Reach, here, next, ℕ, ◌≡◌, Option,
}
use grin_with_golang.Prelude.Totals.{total, total-append, total-set}
use grin_with_golang.Prelude.{
  ◌≡◌, List, Option, ap, arith, inl, inr, none, refl, some, ℕ, ◌+◌, ◌≤◌, Bool-cases,
}

module _ {T E : Type 0} where
  -- the goroutines between Acquire and Release, and those before Done
  unfoldable pub inside : Goroutine T E → ℕ
  inside (starting t) = 1
  inside (recording t err) = 1
  inside (releasing t err) = 1
  inside (finishing t err) = 0
  inside (finished t err) = 0

  unfoldable pub unfinished : Goroutine T E → ℕ
  unfinished (starting t) = 1
  unfinished (recording t err) = 1
  unfinished (releasing t err) = 1
  unfinished (finishing t err) = 1
  unfinished (finished t err) = 0

  -- a task that is counted and has no goroutine yet
  unfoldable pub announced : Position T E → ℕ
  announced (acquiring t) = 1
  announced looping = 0
  announced waiting = 0
  announced (returned err) = 0

  unfoldable pub IsCounted : Group T E → Type 0
  IsCounted p =
      (p.sem ≡ total inside p.goroutines)
      × (p.sem ≤ p.max_concurrency)
      × (p.wg ≡ announced p.position + total unfinished p.goroutines)

  -- a captured error leaves the counters
  pub capture-counts :
      (p : Group T E) (err : Option E)
      → ((capture p err).sem ≡ p.sem)
        × ((capture p err).max_concurrency ≡ p.max_concurrency)
        × ((capture p err).wg ≡ p.wg)
        × ((capture p err).position ≡ p.position)
        × ((capture p err).todo ≡ p.todo)
        × ((capture p err).goroutines ≡ p.goroutines)
  unfolding capture
  capture-counts p none = (refl, refl, refl, refl, refl, refl)
  capture-counts p (some e) = elim (Bool-cases p.once) [
    | inl on ↦ rw on (refl, refl, refl, refl, refl, refl)
    | inr off ↦ rw off (refl, refl, refl, refl, refl, refl)
  ]

module _ {T E : Type 0} (Returns : T → Option E → Type 0) where
  step-IsCounted : {p q : Group T E} → Step Returns p q → IsCounted p → IsCounted q
  unfolding IsCounted inside unfinished announced
  step-IsCounted {p} (add t ts at h) (sem, fits, wg) =
      let a : announced p.position ≡ 0 = ap announced at in (sem, fits, omega arith)
  step-IsCounted {p} (acquire t at room) (sem, fits, wg) =
      let a : announced p.position ≡ 1 = ap announced at in
      let b = total-append inside p.goroutines (starting t) in
      let c = total-append unfinished p.goroutines (starting t) in
      (omega arith, omega arith, omega arith)
  step-IsCounted {p} (run i t err h ran) (sem, fits, wg) =
      let b = total-set inside p.goroutines i (starting t) (recording t err) h in
      let c = total-set unfinished p.goroutines i (starting t) (recording t err) h in
      (omega arith, fits, omega arith)
  step-IsCounted {p} (note i t err h) (sem, fits, wg) =
      let (s, m, w, at, td, gs) = capture-counts p err in
      let a = ap announced at in
      let b = total-set inside p.goroutines i (recording t err) (releasing t err) h in
      let c = total-set unfinished p.goroutines i (recording t err) (releasing t err) h in
      (omega arith, omega arith, omega arith)
  step-IsCounted {p} (release i t err h held) (sem, fits, wg) =
      let b = total-set inside p.goroutines i (releasing t err) (finishing t err) h in
      let c = total-set unfinished p.goroutines i (releasing t err) (finishing t err) h in
      (omega arith, omega arith, omega arith)
  step-IsCounted {p} (finish i t err h) (sem, fits, wg) =
      let b = total-set inside p.goroutines i (finishing t err) (finished t err) h in
      let c = total-set unfinished p.goroutines i (finishing t err) (finished t err) h in
      (omega arith, fits, omega arith)
  step-IsCounted {p} (wait at h) (sem, fits, wg) =
      let a : announced p.position ≡ 0 = ap announced at in (sem, fits, omega arith)
  step-IsCounted {p} (leave at none_left) (sem, fits, wg) =
      let a : announced p.position ≡ 0 = ap announced at in (sem, fits, omega arith)

  -- In every state that runBounded reaches, at most `max_concurrency` tasks run or hold a permit, as
  -- many as the semaphore counts, and the wait group counts those that are not done.
  pub Reach-IsCounted :
      (tasks : List T) (most : ℕ) {p : Group T E} → Reach Returns (start tasks most) p → IsCounted p
  unfolding IsCounted total announced
  Reach-IsCounted tasks most here = (refl, omega arith, refl)
  Reach-IsCounted tasks most (next path s) = step-IsCounted s (Reach-IsCounted tasks most path)
