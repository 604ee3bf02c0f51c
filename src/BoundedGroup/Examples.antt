-- ===== src/BoundedGroup/Examples.antt =====
-- Two tasks of runBounded of src/03_concurrency/08_errgroup_semaphore/main.go, of which one fails.
use grin_with_golang.BoundedGroup.{
  finished, acquiring, returned, Group, start, capture, Step, add, acquire, run, note, release,
  finish, wait, leave, Reach, here, next, ℕ, List, [],
}
use grin_with_golang.Prelude.{
  map, List, Option, [], ap, arith, none, refl, some, true, ℕ, ◌+◌, ◌*◌, ◌≤◌, ◌≡◌, ◌⊎◌, ◌∷◌, ◌==◌,
  if◌then◌else◌, length,
}
use grin_with_golang.BoundedGroup.Permits.{unfinished, announced, inside}
use grin_with_golang.BoundedGroup.Returning.{steps, returned_or_step}
use grin_with_golang.BoundedGroup.Results.{task_of, Ran, returned_outcome}
use grin_with_golang.Prelude.Totals.{total}
use grin_with_golang.BoundedGroup.Outcomes.{Every, Reports}
use mathlib.Core.Option.{none-ne-some}

-- task 4 fails with the error 9
abbrev Fails : ℕ → Option ℕ → Type 0
Fails t err = err ≡ (if t == 4 then some 9 else none)

abbrev one_task : List ℕ
one_task = 4 ∷ []

abbrev at_end : Group ℕ ℕ
at_end = record (start one_task 1) {
  position = returned (some 9);
  todo = [];
  once = true;
  first_err = some 9;
  goroutines = finished 4 (some 9) ∷ [];
}

failed : Reach Fails (start one_task 1) at_end
unfolding capture
failed =
    let begun = next (next here (add 4 [] refl refl)) (acquire 4 refl (omega arith)) in
    let noted = next (next begun (run 0 4 (some 9) refl refl)) (note 0 4 (some 9) refl) in
    let ended =
      next (next noted (release 0 4 (some 9) refl (omega arith))) (finish 0 4 (some 9) refl) in
    next (next ended (wait refl refl)) (leave refl refl)

returned_outcome_example :
    (map task_of at_end.goroutines ≡ one_task)
    × (total unfinished at_end.goroutines ≡ 0)
    × Every (Ran Fails) at_end.goroutines
    × Reports (some 9) at_end.goroutines
returned_outcome_example = returned_outcome Fails one_task 1 (some 9) failed refl

returned_or_step_example :
    (steps Fails failed ≤ length one_task * 6 + 2)
    × (total inside at_end.goroutines ≤ 1)
    × (((r : Option ℕ) × (at_end.position ≡ returned r)) ⊎ ((q : Group ℕ ℕ) × Step Fails at_end q))
returned_or_step_example =
    returned_or_step Fails (λ t. (if t == 4 then some 9 else none, refl)) one_task 1 (omega arith)
      failed

-- without a permit the first Acquire has no step to make
stuck :
    Reach Fails
      (start one_task 0)
      (record (start one_task 0) { position = acquiring 4; todo = []; wg = 1 })
stuck = next here (add 4 [] refl refl)

stuck-no_step :
    (q : Group ℕ ℕ)
    → ¬ Step Fails (record (start one_task 0) { position = acquiring 4; todo = []; wg = 1 }) q
unfolding announced
stuck-no_step q (add t ts at h) = let a = ap announced at in omega arith
stuck-no_step q (acquire t at room) = omega arith
stuck-no_step q (run i t err h ran) = none-ne-some _ h
stuck-no_step q (note i t err h) = none-ne-some _ h
stuck-no_step q (release i t err h held) = none-ne-some _ h
stuck-no_step q (finish i t err h) = none-ne-some _ h
stuck-no_step q (wait at h) = let a = ap announced at in omega arith
stuck-no_step q (leave at none_left) = let a = ap announced at in omega arith
