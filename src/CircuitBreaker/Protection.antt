-- ===== src/CircuitBreaker/Protection.antt =====
-- The breaker of src/05_patterns/04_circuit_breaker around a service that keeps failing.
use grin_with_golang.CircuitBreaker.Mode.{counting, tripped, Policy, Mode}
use grin_with_golang.CircuitBreaker.{new, ExternalService, call, run, Outcome}
use grin_with_golang.Prelude.{
  List, [], ap, arith, false, inl, inr, min, refl, true, ℕ, ◌+◌, ◌-◌, ◌≤◌, ◌<◌, ◌≡◌, ◌∙◌, ◌∷◌, ltb,
  leb, length, Bool-cases,
}
use grin_with_golang.CircuitBreaker.Sequential.{run_mode, step_mode, run_refines}

-- every call comes before the cooldown could be over
abbrev pub IsEarly : ℕ → List (ℕ × ℕ) → Type 0
IsEarly cooldown [] = Unit
IsEarly cooldown ((now, later) ∷ times) = (now ≤ cooldown) × IsEarly cooldown times

calls_made : Policy → Mode → List (ℕ × ℕ) → ExternalService → ℕ
calls_made p m times s = (run_mode call p m times s).1.call_count

module _ (p : Policy) where
  tripped-calls_made :
      (times : List (ℕ × ℕ)) (since : ℕ) (s : ExternalService)
      → IsEarly p.cooldown times
      → calls_made p (tripped since) times s ≡ s.call_count
  unfolding calls_made run_mode step_mode call
  tripped-calls_made [] since s h = refl
  tripped-calls_made ((now, later) ∷ times) since s h =
      let stay : ltb p.cooldown (now - since) ≡ false = ground arith in
      rw stay (tripped-calls_made times since s h.1)

  counting-calls_made :
      (times : List (ℕ × ℕ)) (f : ℕ) (s : ExternalService)
      → f < p.threshold
      → IsEarly p.cooldown times
      → s.call_count + length times ≤ s.fail_until
      → calls_made p (counting f) times s ≡ s.call_count + min (length times) (p.threshold - f)
  unfolding calls_made run_mode step_mode call
  counting-calls_made [] f s l h q = omega arith
  counting-calls_made ((now, later) ∷ times) f s l h q =
      let failing : leb (s.call_count + 1) s.fail_until ≡ true = ground arith in
      let s' : ExternalService = record s { call_count = s.call_count + 1 } in
      elim (Bool-cases (leb p.threshold (f + 1))) [
        | inl last ↦ rw (failing, last) (tripped-calls_made times later s' h.1 ∙ ground arith)
        | inr more ↦
            rw (failing, more)
              (counting-calls_made times (f + 1) s' (ground arith) h.1 (omega arith) ∙ ground arith)
      ]

-- A service that fails every call before the first cooldown could be over is called
-- `threshold` times at most, whatever the number of callers' attempts.
pub run-call_count :
    (threshold cooldown : ℕ) (times : List (ℕ × ℕ)) (s : ExternalService)
    → 0 < threshold
    → IsEarly cooldown times
    → s.call_count + length times ≤ s.fail_until
    → (run call (new threshold cooldown) times s).1.call_count
      ≡ s.call_count + min (length times) threshold
unfolding new calls_made
run-call_count threshold cooldown times s l h q =
    ap (λ (r : Mode × ExternalService × List (Outcome ℕ)). r.1.call_count)
      (run_refines call times (new threshold cooldown) s)
    ∙ counting-calls_made _ times 0 s l h q
    ∙ omega arith
