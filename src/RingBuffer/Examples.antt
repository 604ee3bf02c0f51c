-- ===== src/RingBuffer/Examples.antt =====
-- Runs of the ring buffer, and the theorems at concrete inputs.
use grin_with_golang.RingBuffer.Queue
use grin_with_golang.RingBuffer.{run}
use grin_with_golang.Prelude.{
  List, [], arith, false, map, refl, some, true, ℕ, ◌+◌, ◌-◌, ◌^◌, ◌≤◌, ◌<◌, ◌≡◌, ◌∷◌, ◌++◌,
}
use grin_with_golang.RingBuffer.{next_power_of2, RingBuffer, Op, cascade, word, put, new, get}
use grin_with_golang.RingBuffer.Capacity.{next_power_of2-least, next_power_of2-wraps}
use grin_with_golang.RingBuffer.Refine.{contents}
use grin_with_golang.RingBuffer.Session.{run-new}
use grin_with_golang.RingBuffer.Spsc.{
  System, Reach, resting, start, Step, waiting, next, here, push_load_tail, push_load_head,
  push_write, push_store_tail,
}
use grin_with_golang.RingBuffer.Spsc.Safety.{spsc_fifo, spsc_progress}

abbrev calls : List (Op ℕ)
calls = put 10 ∷ put 20 ∷ get ∷ put 30 ∷ get ∷ get ∷ get ∷ []

sizes : List ℕ
sizes = map next_power_of2 (0 ∷ 1 ∷ 3 ∷ 4 ∷ 5 ∷ 1000 ∷ (2 ^ 63 + 1) ∷ [])

sizes_lem : sizes ≡ 1 ∷ 1 ∷ 4 ∷ 4 ∷ 8 ∷ 1024 ∷ 0 ∷ []
unfolding sizes next_power_of2 cascade
sizes_lem = refl

-- a ring of two slots whose `tail` has wrapped past 2 ^ 64
abbrev wrapped : RingBuffer ℕ
wrapped = record { buffer = 8 ∷ 7 ∷ []; capacity = 2; head = word - 1; tail = 1 }

run-wrapped :
    run 0 wrapped (put 9 ∷ get ∷ put 9 ∷ get ∷ get ∷ get ∷ [])
    ≡ some ((0, false) ∷ (7, true) ∷ (0, true) ∷ (8, true) ∷ (9, true) ∷ (0, false) ∷ [])
unfolding run
run-wrapped = refl

next_power_of2-least_example :
    (k : ℕ) × (k < 64) × (next_power_of2 5 ≡ 2 ^ k) × (5 ≤ 2 ^ k) × (2 ^ k < 10)
next_power_of2-least_example = next_power_of2-least 5 (omega arith) (omega arith)

next_power_of2-wraps_example : next_power_of2 (2 ^ 63 + 7) ≡ 0
next_power_of2-wraps_example = next_power_of2-wraps (2 ^ 63 + 7) (omega arith) (omega arith)

run-new_example :
    (rb : RingBuffer ℕ) × (new 0 3 ≡ some rb)
    × (run 0 rb calls ≡ some (Queue.run 0 rb.capacity [] calls))
run-new_example = run-new 0 3 calls (omega arith) (omega arith)

-- one item accepted, and not yet received
abbrev ring2 : RingBuffer ℕ
ring2 = record { buffer = 0 ∷ 0 ∷ []; capacity = 2; head = 0; tail = 0 }

abbrev sent_one : System ℕ
sent_one = record {
  ring = record { buffer = 5 ∷ 0 ∷ []; capacity = 2; head = 0; tail = 1 };
  producer = resting;
  consumer = waiting;
  sent = 5 ∷ [];
  received = [];
}

ring2_made : new 0 2 ≡ some ring2
unfolding new next_power_of2 cascade
ring2_made = refl

sent_one_reached : Reach (start ring2) sent_one
sent_one_reached =
    let r0 : Reach (start ring2) (start ring2) = here in
    let r1 = next r0 (push_load_tail 5 refl) in
    let r2 = next r1 (push_load_head 5 0 refl) in
    let r3 = next r2 (push_write 5 0 0 (5 ∷ 0 ∷ []) refl refl refl) in
    next r3 (push_store_tail 5 0 refl)

spsc_fifo_example : 5 ∷ [] ≡ [] ++ contents 0 sent_one.ring
spsc_fifo_example = spsc_fifo 0 2 (omega arith) (omega arith) ring2_made sent_one_reached

spsc_progress_example :
    ((t : System ℕ) × Step sent_one t × (t.consumer ≡ waiting))
    × ((t : System ℕ) × Step sent_one t × (t.producer ≡ resting))
spsc_progress_example = spsc_progress 0 2 6 (omega arith) (omega arith) ring2_made sent_one_reached
