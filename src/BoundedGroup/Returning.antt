-- ===== src/BoundedGroup/Returning.antt =====
-- That runBounded of src/03_concurrency/08_errgroup_semaphore/main.go returns.
use grin_with_golang.BoundedGroup.{
  Goroutine, starting, recording, releasing, finishing, finished, Position, looping, acquiring,
  waiting, returned, Group, Step, add, acquire, run, note, release, finish, wait, leave, ℕ, Option,
  Reach, next, start, here,
}
use grin_with_golang.BoundedGroup.Permits.{
  capture-counts, IsCounted, inside, unfinished, announced, Reach-IsCounted,
}
use grin_with_golang.Prelude.Totals.{total, total-append, total-set}
use grin_with_golang.Prelude.{
  List-cases, List, Option, [], ap, arith, inl, inr, refl, some, suc, ℕ, ◌+◌, ◌*◌, ◌<◌, ◌≡◌, ◌∷◌,
  ltb, length, get_elem?, Bool-cases, ◌≤◌, ◌⊎◌, ◌∙◌,
}

module _ {T E : Type 0} where
  -- the steps that a goroutine and main are from their ends
  unfoldable pub effort : Goroutine T E → ℕ
  effort (starting t) = 4
  effort (recording t err) = 3
  effort (releasing t err) = 2
  effort (finishing t err) = 1
  effort (finished t err) = 0

  unfoldable pub ahead : Position T E → ℕ
  ahead (acquiring t) = 7
  ahead looping = 2
  ahead waiting = 1
  ahead (returned r) = 0

  -- the number of the steps to the return
  unfoldable pub left : Group T E → ℕ
  left p = ahead p.position + length p.todo * 6 + total effort p.goroutines

  find_one :
      (f : Goroutine T E → ℕ) (gs : List (Goroutine T E))
      → 0 < total f gs
      → (i : ℕ) × (g : Goroutine T E) × (get_elem? gs i ≡ some g) × (0 < f g)
  unfolding total
  find_one f [] some_left = absurd (omega arith)
  find_one f (g ∷ gs) some_left = elim (Bool-cases (ltb 0 (f g))) [
    | inl one ↦ (0, g, refl, ground arith)
    | inr zero_here ↦ let (i, v, h, more) = find_one f gs (ground arith) in (suc i, v, h, more)
  ]

module _ {T E : Type 0} (Returns : T → Option E → Type 0) where
  step-left : {p q : Group T E} → Step Returns p q → left q + 1 ≡ left p
  unfolding left effort ahead
  step-left {p} (add t ts at h) =
      let a = ap ahead at in let b : length p.todo ≡ suc (length ts) = ap length h in omega arith
  step-left {p} (acquire t at room) =
      let a = ap ahead at in let b = total-append effort p.goroutines (starting t) in omega arith
  step-left {p} (run i t err h ran) =
      let b = total-set effort p.goroutines i (starting t) (recording t err) h in omega arith
  step-left {p} (note i t err h) =
      let (s, m, w, at, td, gs) = capture-counts p err in
      let a = ap ahead at in
      let c = ap length td in
      let b = total-set effort p.goroutines i (recording t err) (releasing t err) h in omega arith
  step-left {p} (release i t err h held) =
      let b = total-set effort p.goroutines i (releasing t err) (finishing t err) h in omega arith
  step-left {p} (finish i t err h) =
      let b = total-set effort p.goroutines i (finishing t err) (finished t err) h in omega arith
  step-left {p} (wait at h) = let a = ap ahead at in omega arith
  step-left {p} (leave at none_left) = let a = ap ahead at in omega arith

  step-max_concurrency :
      {p q : Group T E} → Step Returns p q → q.max_concurrency ≡ p.max_concurrency
  step-max_concurrency (add t ts at h) = refl
  step-max_concurrency (acquire t at room) = refl
  step-max_concurrency (run i t err h ran) = refl
  step-max_concurrency {p} (note i t err h) = (capture-counts p err).1
  step-max_concurrency (release i t err h held) = refl
  step-max_concurrency (finish i t err h) = refl
  step-max_concurrency (wait at h) = refl
  step-max_concurrency (leave at none_left) = refl

  unfoldable pub steps : {p q : Group T E} → Reach Returns p q → ℕ
  steps here = 0
  steps (next path s) = steps path + 1

  Reach-left :
      {p q : Group T E} (path : Reach Returns p q)
      → (steps path + left q ≡ left p) × (q.max_concurrency ≡ p.max_concurrency)
  unfolding steps
  Reach-left here = (omega arith, refl)
  Reach-left (next path s) =
      let (count, same) = Reach-left path in
      let one = step-left s in (omega arith, step-max_concurrency s ∙ same)

  module _ (answer : (t : T) → (err : Option E) × Returns t err) where
    -- the step of a goroutine that is not done
    move :
        (p : Group T E) (i : ℕ) (g : Goroutine T E)
        → IsCounted p
        → get_elem? p.goroutines i ≡ some g
        → 0 < unfinished g
        → (q : Group T E) × Step Returns p q
    unfolding IsCounted unfinished inside
    move p i (starting t) counted h busy = let (err, ran) = answer t in (_, run i t err h ran)
    move p i (recording t err) counted h busy = (_, note i t err h)
    move p i (releasing t err) (sem, fits, wg) h busy =
        let b = total-set inside p.goroutines i (releasing t err) (finishing t err) h in
        (_, release i t err h (omega arith))
    move p i (finishing t err) counted h busy = (_, finish i t err h)
    move p i (finished t err) counted h busy = absurd (omega arith)

    inside-unfinished : (g : Goroutine T E) → inside g ≤ unfinished g
    unfolding inside unfinished
    inside-unfinished (starting t) = omega arith
    inside-unfinished (recording t err) = omega arith
    inside-unfinished (releasing t err) = omega arith
    inside-unfinished (finishing t err) = omega arith
    inside-unfinished (finished t err) = omega arith

    advance :
        (p : Group T E) (x : Position T E)
        → IsCounted p
        → 0 < p.max_concurrency
        → p.position ≡ x
        → ((r : Option E) × (p.position ≡ returned r)) ⊎ ((q : Group T E) × Step Returns p q)
    unfolding IsCounted announced
    advance p (returned r) counted room at = inl (r, at)
    advance p looping counted room at = elim (List-cases p.todo) [
      | inl empty ↦ inr (_, wait at empty)
      | inr (t, ts, more) ↦ inr (_, add t ts at more)
    ]
    advance p (acquiring t) (sem, fits, wg) room at =
        elim (Bool-cases (ltb p.sem p.max_concurrency)) [
          | inl free ↦ inr (_, acquire t at (ground arith))
          | inr full ↦
              let (i, g, h, one) = find_one inside p.goroutines (ground arith) in
              let less = inside-unfinished g in inr (move p i g (sem, fits, wg) h (omega arith))
        ]
    advance p waiting (sem, fits, wg) room at = elim (Bool-cases (ltb 0 p.wg)) [
      | inl more ↦
          let a = ap announced at in
          let (i, g, h, one) = find_one unfinished p.goroutines (ground arith) in
          inr (move p i g (sem, fits, wg) h one)
      | inr none_left ↦ inr (_, leave at (ground arith))
    ]

    -- Let every task return. With a positive concurrency, every run of runBounded over `tasks` has at most
    -- six steps for each task and two more. In each state that it reaches, at most `most` goroutines are
    -- between Acquire and Release, and runBounded has returned or some step can be made, so that it
    -- is never stuck and always returns.
    pub returned_or_step :
        (tasks : List T) (most : ℕ) {p : Group T E}
        → 0 < most
        → (path : Reach Returns (start tasks most) p)
        → (steps path ≤ length tasks * 6 + 2)
          × (total inside p.goroutines ≤ most)
          × (((r : Option E) × (p.position ≡ returned r)) ⊎ ((q : Group T E) × Step Returns p q))
    unfolding left ahead total IsCounted
    returned_or_step tasks most {p} room path =
        let (count, same) = Reach-left path in
        let (sem, fits, wg) = Reach-IsCounted Returns tasks most path in
        (omega arith, omega arith, advance p p.position (sem, fits, wg) (omega arith) refl)
