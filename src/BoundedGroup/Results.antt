-- ===== src/BoundedGroup/Results.antt =====
-- What runBounded of src/03_concurrency/08_errgroup_semaphore/main.go has done when it returns.
use grin_with_golang.BoundedGroup.{
  Goroutine, starting, recording, releasing, finishing, finished, Position, looping, acquiring,
  waiting, returned, Group, capture, Step, add, acquire, run, note, release, finish, wait, leave,
  List, Option, Reach, start, next, here,
}
use grin_with_golang.BoundedGroup.Permits.{unfinished, IsCounted, capture-counts, Reach-IsCounted}
use grin_with_golang.BoundedGroup.Outcomes.{
  is_some, error_of, Reports, Reports-set, Reports-append, Reports-note, IsReported,
  capture-captured, Every, Every-append, Every-set, Every-at,
}
use grin_with_golang.Prelude.Totals.{total-set, total}
use mathlib.Core.Option.{some-injective}
use grin_with_golang.Prelude.{
  List, Option, [], ap, ap₂, arith, map, refl, some, subst, suc, sym, zero, ℕ, ◌-◌, ◌<◌, ◌≡◌, ◌∙◌,
  ◌∷◌, ◌++◌, get_elem?, set, append-nil,
}

module _ {T E : Type 0} where
  unfoldable pub task_of : Goroutine T E → T
  task_of (starting t) = t
  task_of (recording t err) = t
  task_of (releasing t err) = t
  task_of (finishing t err) = t
  task_of (finished t err) = t

  unfoldable pub at_hand : Position T E → List T
  at_hand (acquiring t) = t ∷ []
  at_hand looping = []
  at_hand waiting = []
  at_hand (returned r) = []

  -- the goroutines have the tasks in their order, and the others are still to come
  unfoldable pub IsListed : List T → Group T E → Type 0
  IsListed tasks p = map task_of p.goroutines ++ (at_hand p.position ++ p.todo) ≡ tasks

  task_of-set :
      (gs : List (Goroutine T E)) (i : ℕ) (old new : Goroutine T E)
      → get_elem? gs i ≡ some old
      → task_of new ≡ task_of old
      → map task_of (set gs i new) ≡ map task_of gs
  task_of-set [] i old new h same = refl
  task_of-set (g ∷ gs) zero old new h same =
      ap (λ t. t ∷ map task_of gs) (same ∙ ap task_of (sym (some-injective g old h)))
  task_of-set (g ∷ gs) (suc i) old new h same =
      ap (λ ts. task_of g ∷ ts) (task_of-set gs i old new h same)

  task_of-append :
      (gs : List (Goroutine T E)) (t : T) (ts : List T)
      → map task_of (gs ++ starting t ∷ []) ++ ts ≡ map task_of gs ++ (t ∷ ts)
  unfolding task_of
  task_of-append [] t ts = refl
  task_of-append (g ∷ gs) t ts = ap (λ us. task_of g ∷ us) (task_of-append gs t ts)

  -- what is settled once runBounded waits, and once it has returned
  unfoldable pub Ends : Position T E → Option E → ℕ → List T → Type 0
  Ends (returned r) err wg todo = (err ≡ r) × (wg ≡ 0) × (todo ≡ [])
  Ends waiting err wg todo = todo ≡ []
  Ends looping err wg todo = Unit
  Ends (acquiring t) err wg todo = Unit

  Ends-note :
      (at : Position T E) (err new : Option E) (wg : ℕ) (todo : List T)
      → 0 < wg
      → Ends at err wg todo
      → Ends at new wg todo
  unfolding Ends
  Ends-note (returned r) err new wg todo busy (e, none_left, done) = absurd (omega arith)
  Ends-note waiting err new wg todo busy ok = ok
  Ends-note looping err new wg todo busy ok = ok
  Ends-note (acquiring t) err new wg todo busy ok = ok

  Ends-finish :
      (at : Position T E) (err : Option E) (wg : ℕ) (todo : List T)
      → Ends at err wg todo
      → Ends at err (wg - 1) todo
  unfolding Ends
  Ends-finish (returned r) err wg todo (e, none_left, done) = (e, omega arith, done)
  Ends-finish waiting err wg todo ok = ok
  Ends-finish looping err wg todo ok = ok
  Ends-finish (acquiring t) err wg todo ok = ok

module _ {T E : Type 0} (Returns : T → Option E → Type 0) where
  step-IsReported : {p q : Group T E} → Step Returns p q → IsReported p → IsReported q
  unfolding IsReported error_of
  step-IsReported (add t ts at h) ok = ok
  step-IsReported {p} (acquire t at room) (reports, once) =
      (Reports-append p.first_err p.goroutines t reports, once)
  step-IsReported {p} (run i t err h ran) (reports, once) =
      (Reports-set p.first_err p.goroutines i (starting t) (recording t err) h refl reports, once)
  step-IsReported {p} (note i t err h) (reports, once) =
      let (first, on) = capture-captured p err once in
      (
        subst (λ r. Reports r (set p.goroutines i (releasing t err))) (sym first)
            (Reports-note p.first_err err p.goroutines i t h reports),
        on ∙ ap is_some (sym first),
      )
  step-IsReported {p} (release i t err h held) (reports, once) = (
    Reports-set p.first_err p.goroutines i (releasing t err) (finishing t err) h refl reports,
    once,
  )
  step-IsReported {p} (finish i t err h) (reports, once) = (
    Reports-set p.first_err p.goroutines i (finishing t err) (finished t err) h refl reports,
    once,
  )
  step-IsReported (wait at h) ok = ok
  step-IsReported (leave at none_left) ok = ok

  step-IsListed :
      (tasks : List T) {p q : Group T E} → Step Returns p q → IsListed tasks p → IsListed tasks q
  unfolding IsListed at_hand task_of
  step-IsListed tasks {p} (add t ts at h) ok =
      ap₂ (λ us vs. map task_of p.goroutines ++ (us ++ vs)) (ap at_hand (sym at)) (sym h) ∙ ok
  step-IsListed tasks {p} (acquire t at room) ok =
      task_of-append p.goroutines t p.todo
      ∙ ap (λ us. map task_of p.goroutines ++ (us ++ p.todo)) (ap at_hand (sym at))
      ∙ ok
  step-IsListed tasks {p} (run i t err h ran) ok =
      ap (λ us. us ++ (at_hand p.position ++ p.todo))
        (task_of-set p.goroutines i (starting t) (recording t err) h refl)
      ∙ ok
  step-IsListed tasks {p} (note i t err h) ok =
      let (s, m, w, at, td, gs) = capture-counts p err in
      ap₂ (λ us vs. map task_of (set p.goroutines i (releasing t err)) ++ (at_hand us ++ vs)) at td
      ∙ ap (λ us. us ++ (at_hand p.position ++ p.todo))
          (task_of-set p.goroutines i (recording t err) (releasing t err) h refl)
      ∙ ok
  step-IsListed tasks {p} (release i t err h held) ok =
      ap (λ us. us ++ (at_hand p.position ++ p.todo))
        (task_of-set p.goroutines i (releasing t err) (finishing t err) h refl)
      ∙ ok
  step-IsListed tasks {p} (finish i t err h) ok =
      ap (λ us. us ++ (at_hand p.position ++ p.todo))
        (task_of-set p.goroutines i (finishing t err) (finished t err) h refl)
      ∙ ok
  step-IsListed tasks {p} (wait at h) ok =
      ap (λ us. map task_of p.goroutines ++ (us ++ p.todo)) (ap at_hand (sym at)) ∙ ok
  step-IsListed tasks {p} (leave at none_left) ok =
      ap (λ us. map task_of p.goroutines ++ (us ++ p.todo)) (ap at_hand (sym at)) ∙ ok

  unfoldable pub IsEnding : Group T E → Type 0
  IsEnding p = Ends p.position p.first_err p.wg p.todo

  step-IsEnding : {p q : Group T E} → Step Returns p q → IsCounted p → IsEnding p → IsEnding q
  unfolding IsEnding Ends IsCounted unfinished
  step-IsEnding (add t ts at h) counted ok = tt
  step-IsEnding (acquire t at room) counted ok = tt
  step-IsEnding (run i t err h ran) counted ok = ok
  step-IsEnding {p} (note i t err h) (sem, fits, wg) ok =
      let (s, m, w, at, td, gs) = capture-counts p err in
      let busy : 0 < p.wg =
        let b = total-set unfinished p.goroutines i (recording t err) (finished t err) h in
        omega arith in
      subst (λ x. Ends x (capture p err).first_err (capture p err).wg (capture p err).todo) (sym at)
        (subst (λ x. Ends p.position (capture p err).first_err x (capture p err).todo) (sym w)
          (subst (λ x. Ends p.position (capture p err).first_err p.wg x) (sym td)
            (Ends-note p.position p.first_err (capture p err).first_err p.wg p.todo busy ok)))
  step-IsEnding (release i t err h held) counted ok = ok
  step-IsEnding {p} (finish i t err h) counted ok =
      Ends-finish p.position p.first_err p.wg p.todo ok
  step-IsEnding (wait at h) counted ok = h
  step-IsEnding {p} (leave at none_left) counted ok =
      (refl, none_left, subst (λ x. Ends x p.first_err p.wg p.todo) at ok)

  -- the error that a goroutine holds is one that its task returns
  unfoldable pub Ran : Goroutine T E → Type 0
  Ran (starting t) = Unit
  Ran (recording t err) = Returns t err
  Ran (releasing t err) = Returns t err
  Ran (finishing t err) = Returns t err
  Ran (finished t err) = Returns t err

  step-Ran : {p q : Group T E} → Step Returns p q → Every Ran p.goroutines → Every Ran q.goroutines
  unfolding Ran
  step-Ran (add t ts at h) ok = ok
  step-Ran {p} (acquire t at room) ok = Every-append Ran p.goroutines (starting t) tt ok
  step-Ran {p} (run i t err h ran) ok = Every-set Ran p.goroutines i (recording t err) ran ok
  step-Ran {p} (note i t err h) ok =
      Every-set Ran p.goroutines i (releasing t err)
        (Every-at Ran p.goroutines i (recording t err) h ok) ok
  step-Ran {p} (release i t err h held) ok =
      Every-set Ran p.goroutines i (finishing t err)
        (Every-at Ran p.goroutines i (releasing t err) h ok) ok
  step-Ran {p} (finish i t err h) ok =
      Every-set Ran p.goroutines i (finished t err)
        (Every-at Ran p.goroutines i (finishing t err) h ok) ok
  step-Ran (wait at h) ok = ok
  step-Ran (leave at none_left) ok = ok

  Reach-invariants :
      (tasks : List T) (most : ℕ) {p : Group T E}
      → Reach Returns (start tasks most) p
      → IsReported p × IsListed tasks p × IsEnding p × Every Ran p.goroutines
  unfolding IsReported Reports Every IsListed IsEnding Ends is_some at_hand
  Reach-invariants tasks most here = ((tt, refl), refl, tt, tt)
  Reach-invariants tasks most (next path s) =
      let (reported, listed, ending, ran) = Reach-invariants tasks most path in
      (
        step-IsReported s reported,
        step-IsListed tasks s listed,
        step-IsEnding s (Reach-IsCounted Returns tasks most path) ending,
        step-Ran s ran,
      )

  -- When runBounded has returned `r`, its goroutines are those of the tasks, in their order, every one is
  -- done and holds an error that its task returns. They hold no error if `r` is nil, and one of
  -- them holds the error `r` otherwise.
  pub returned_outcome :
      (tasks : List T) (most : ℕ) (r : Option E) {p : Group T E}
      → Reach Returns (start tasks most) p
      → p.position ≡ returned r
      → (map task_of p.goroutines ≡ tasks)
        × (total unfinished p.goroutines ≡ 0)
        × Every Ran p.goroutines
        × Reports r p.goroutines
  unfolding IsReported IsListed IsEnding Ends IsCounted at_hand
  returned_outcome tasks most r {p} path at =
      let (reported, listed, ending, ran) = Reach-invariants tasks most path in
      let (sem, fits, wg) = Reach-IsCounted Returns tasks most path in
      let (first, none_left, empty) = subst (λ x. Ends x p.first_err p.wg p.todo) at ending in
      let whole =
        sym (append-nil (map task_of p.goroutines))
        ∙ ap₂ (λ us vs. map task_of p.goroutines ++ (us ++ vs)) (ap at_hand (sym at)) (sym empty)
        ∙ listed in
      (whole, omega arith, ran, subst (λ x. Reports x p.goroutines) first reported.0)
