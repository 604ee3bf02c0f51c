-- ===== src/CircuitBreaker/Sequential.antt =====
-- Calls of `Execute` one after the other, against the automaton of `Mode`.
use grin_with_golang.CircuitBreaker.{
  closed, open_state, half_open, circuit_open, failed, ok, CircuitBreaker, Option, Outcome, execute,
  run,
}
use grin_with_golang.CircuitBreaker.Mode.{counting, tripped, probing, Mode, Policy, admit, note}
use grin_with_golang.Prelude.{
  Bool, List, Option, [], ap, arith, false, none, refl, some, true, ℕ, ◌≡◌, ◌∙◌, ◌∷◌, if◌then◌else◌,
}

abbrev pub view : CircuitBreaker → Mode
view cb = elim cb.state [
  | closed ↦ counting cb.failures
  | open_state ↦ tripped cb.last_failure
  | half_open ↦ probing cb.successes
]

abbrev pub policy : CircuitBreaker → Policy
policy cb = record {
  threshold = cb.threshold;
  cooldown = cb.reset_timeout;
  recovery = cb.half_open_max;
}

module _ {ℓ} {E : Type ℓ} where
  abbrev pub is_failure : Option E → Bool
  is_failure none = false
  is_failure (some e) = true

  abbrev pub result : Option E → Outcome E
  result none = ok
  result (some e) = failed e

-- the automaton's run, whose refused calls leave the service alone
module _ {ℓ} {S E : Type ℓ} (fn : S → S × Option E) where
  unfoldable pub step_mode : Policy → Mode → ℕ → ℕ → S → Mode × S × Outcome E
  unfolding admit note
  step_mode p m now later s =
      let (m', admitted) = admit p m now in
      let (s', err) = fn s in
      if admitted then (note p m' (is_failure err) later, s', result err) else (m', s, circuit_open)

  unfoldable pub run_mode : Policy → Mode → List (ℕ × ℕ) → S → Mode × S × List (Outcome E)
  run_mode p m [] s = (m, s, [])
  run_mode p m ((now, later) ∷ times) s =
      let (m', s', out) = step_mode p m now later s in
      let (m'', s'', outs) = run_mode p m' times s' in (m'', s'', out ∷ outs)

module _ {S E : Type 0} (fn : S → S × Option E) where
  -- one call: same mode after it, same effect on the service, same answer
  execute-step_mode :
      (cb : CircuitBreaker) (now later : ℕ) (s : S)
      → let (cb', s', out) = execute fn cb now later s in
        (view cb', s', out) ≡ step_mode fn (policy cb) (view cb) now later s
  unfolding execute step_mode
  execute-step_mode cb now later s = ground arith

  policy-execute :
      (cb : CircuitBreaker) (now later : ℕ) (s : S)
      → policy (execute fn cb now later s).0 ≡ policy cb
  unfolding execute
  policy-execute cb now later s = ground arith

  -- Calls of `Execute` one after the other leave the service as the automaton does and get its
  -- answers, and the breaker ends in the automaton's mode.
  pub run_refines :
      (times : List (ℕ × ℕ)) (cb : CircuitBreaker) (s : S)
      → let (cb', s', outs) = run fn cb times s in
        (view cb', s', outs) ≡ run_mode fn (policy cb) (view cb) times s
  unfolding run run_mode
  run_refines [] cb s = refl
  run_refines ((now, later) ∷ times) cb s =
      let (cb', s', out) = execute fn cb now later s in
      ap (λ ((m, u, outs) : Mode × S × List (Outcome E)). (m, u, out ∷ outs))
        (run_refines times cb' s'
          ∙ ap (λ p. run_mode fn p (view cb') times s') (policy-execute cb now later s))
      ∙ ap
          (λ ((m, u, o) : Mode × S × Outcome E).
            let (m', u', outs) = run_mode fn (policy cb) m times u in (m', u', o ∷ outs))
          (execute-step_mode cb now later s)
