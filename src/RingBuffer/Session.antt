-- ===== src/RingBuffer/Session.antt =====
-- Whole sequences of calls on a ring.
use grin_with_golang.RingBuffer.Queue
use grin_with_golang.Prelude.{
  Bool, List, [], ap, ap₂, refl, some, sym, ℕ, ◌^◌, ◌≤◌, ◌<◌, ◌≡◌, ◌∙◌, ◌∷◌, ◌>>=◌,
}
use grin_with_golang.RingBuffer.{run, put, get}
use grin_with_golang.RingBuffer.{Op, RingBuffer, new}
use grin_with_golang.RingBuffer.Invariant.{new-IsValid, IsValid}
use grin_with_golang.RingBuffer.Refine.{contents, window, push_refines, pop_refines}

module _ {ℓ} {A : Type ℓ} (z : A) {k : ℕ} where
  run_queue :
      (ops : List (Op A)) {rb : RingBuffer A}
      → IsValid k rb
      → run z rb ops ≡ some (Queue.run z (2 ^ k) (contents z rb) ops)
  unfolding run Queue.run
  run_queue [] v = refl
  run_queue (put x ∷ ops) {rb} v =
      let (rb', ok, e, v', q) = push_refines z v x in
      ap (λ o. o >>= λ (r, b). run z r ops >>= λ out. some ((z, b) ∷ out)) e
      ∙ ap (λ o. o >>= λ out. some ((z, ok) ∷ out)) (run_queue ops v')
      ∙ ap (λ ((r, b) : List A × Bool). some ((z, b) ∷ Queue.run z (2 ^ k) r ops))
          (sym q ∙ ap (λ c. Queue.push c (contents z rb) x) v.power)
  run_queue (get ∷ ops) v =
      let (x, ok, rb', e, v', q) = pop_refines z v in
      ap (λ o. o >>= λ (y, b, r). run z r ops >>= λ out. some ((y, b) ∷ out)) e
      ∙ ap (λ o. o >>= λ out. some ((x, ok) ∷ out)) (run_queue ops v')
      ∙ ap (λ ((y, b, r) : A × Bool × List A). some ((y, b) ∷ Queue.run z (2 ^ k) r ops)) (sym q)

-- Whatever the sequence of calls and its length, a ring made for 1 to 2 ^ 62 slots never panics and
-- answers every call as an empty bounded queue of its capacity does.
pub run-new {ℓ} :
    {A : Type ℓ} (z : A) (n : ℕ) (ops : List (Op A))
    → 0 < n
    → n ≤ 2 ^ 62
    → (rb : RingBuffer A) × (new z n ≡ some rb)
      × (run z rb ops ≡ some (Queue.run z rb.capacity [] ops))
run-new z n ops p h =
    let (k, rb, made, v, none_yet, _, _) = new-IsValid z n p h in
    let start : contents z rb ≡ [] = ap (window z rb.buffer rb.capacity rb.head) none_yet in
    (rb, made, run_queue z ops v ∙ ap₂ (λ c q. some (Queue.run z c q ops)) (sym v.power) start)
