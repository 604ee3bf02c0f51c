-- ===== src/RingBuffer/Spsc/Fifo.antt =====
-- The invariant of the interleaved system: what is in flight between the two goroutines.
use grin_with_golang.RingBuffer.Spsc.{
  Producer, resting, tail_loaded, both_loaded, written, RingBuffer, ℕ, slot, System,
}
use grin_with_golang.RingBuffer.{len, sub64}
use grin_with_golang.RingBuffer.Spsc.{Consumer, waiting, head_loaded, both_seen, taken}
use grin_with_golang.Prelude.{arith, ℕ, ◌≤◌, ◌<◌, ◌≡◌, ◌≢◌, ◌∙◌, ◌++◌, get_or}
use grin_with_golang.RingBuffer.Invariant.{IsValid}
use grin_with_golang.RingBuffer.Refine.{
  contents, popped, len-popped, filled, published, contents-popped, len-published, filled-IsValid,
  contents-filled,
}

module _ {ℓ} {A : Type ℓ} (z : A) where
  -- The producer holds the current tail, and a head that the consumer may have moved on from.
  pub data ProducerOk (rb : RingBuffer A) : Producer A → Type ℓ where
    resting_ok : ProducerOk rb resting
    tail_ok : {x : A} {t : ℕ} → t ≡ rb.tail → ProducerOk rb (tail_loaded x t)
    both_ok :
        {x : A} {t h : ℕ} → t ≡ rb.tail → len rb ≤ sub64 t h → ProducerOk rb (both_loaded x t h)
    written_ok :
        {x : A} {t : ℕ}
        → t ≡ rb.tail
        → len rb < rb.capacity
        → get_or rb.buffer (slot rb rb.tail) z ≡ x
        → ProducerOk rb (written x t)

  -- The consumer holds the current head, and a tail that the producer may have moved on from.
  pub data ConsumerOk (rb : RingBuffer A) : Consumer A → Type ℓ where
    waiting_ok : ConsumerOk rb waiting
    head_ok : {h : ℕ} → h ≡ rb.head → ConsumerOk rb (head_loaded h)
    seen_ok : {h t : ℕ} → h ≡ rb.head → (h ≢ t → rb.head ≢ rb.tail) → ConsumerOk rb (both_seen h t)
    taken_ok :
        {h : ℕ} {x : A}
        → h ≡ rb.head
        → rb.head ≢ rb.tail
        → get_or rb.buffer (slot rb rb.head) z ≡ x
        → ConsumerOk rb (taken h x)

  pub record IsOk (k : ℕ) (s : System A) : Type ℓ where
    pub valid : IsValid k s.ring
    pub producer : ProducerOk s.ring s.producer
    pub consumer : ConsumerOk s.ring s.consumer
    pub fifo : s.sent ≡ s.received ++ contents z s.ring

  pub tail_inv : {rb : RingBuffer A} {x : A} {t : ℕ} → ProducerOk rb (tail_loaded x t) → t ≡ rb.tail
  tail_inv (tail_ok e) = e

  pub both_inv :
      {rb : RingBuffer A} {x : A} {t h : ℕ}
      → ProducerOk rb (both_loaded x t h)
      → (t ≡ rb.tail) × (len rb ≤ sub64 t h)
  both_inv (both_ok e f) = (e, f)

  pub written_inv :
      {rb : RingBuffer A} {x : A} {t : ℕ}
      → ProducerOk rb (written x t)
      → (t ≡ rb.tail) × (len rb < rb.capacity) × (get_or rb.buffer (slot rb rb.tail) z ≡ x)
  written_inv (written_ok e f g) = (e, f, g)

  pub head_inv : {rb : RingBuffer A} {h : ℕ} → ConsumerOk rb (head_loaded h) → h ≡ rb.head
  head_inv (head_ok e) = e

  pub seen_inv :
      {rb : RingBuffer A} {h t : ℕ}
      → ConsumerOk rb (both_seen h t)
      → (h ≡ rb.head) × (h ≢ t → rb.head ≢ rb.tail)
  seen_inv (seen_ok e f) = (e, f)

  pub taken_inv :
      {rb : RingBuffer A} {h : ℕ} {x : A}
      → ConsumerOk rb (taken h x)
      → (h ≡ rb.head) × (rb.head ≢ rb.tail) × (get_or rb.buffer (slot rb rb.head) z ≡ x)
  taken_inv (taken_ok e f g) = (e, f, g)

  module _ {k : ℕ} {rb : RingBuffer A} (v : IsValid k rb) where
    -- What the consumer holds survives the producer's two writes.
    pub ConsumerOk-filled :
        (x : A) {c : Consumer A}
        → len rb < rb.capacity
        → ConsumerOk rb c
        → ConsumerOk (filled z v x) c
    ConsumerOk-filled x r waiting_ok = waiting_ok
    ConsumerOk-filled x r (head_ok e) = head_ok e
    ConsumerOk-filled x r (seen_ok e f) = seen_ok e f
    ConsumerOk-filled x r (taken_ok e f g) = taken_ok e f (kept ∙ g)
      where
        kept :
            get_or (filled z v x).buffer (slot rb rb.head) z ≡ get_or rb.buffer (slot rb rb.head) z
        kept =
            let before = contents-popped z v f in
            let after = contents-popped z (filled-IsValid z v x) f in
            let same = contents-filled z v x r in cc

    emptied : len rb < rb.capacity → rb.head ≢ (published z v).tail
    emptied r q = omega (arith, len-published z v r, v.head_word)

    pub ConsumerOk-published :
        {c : Consumer A} → len rb < rb.capacity → ConsumerOk rb c → ConsumerOk (published z v) c
    ConsumerOk-published r waiting_ok = waiting_ok
    ConsumerOk-published r (head_ok e) = head_ok e
    ConsumerOk-published r (seen_ok e f) = seen_ok e (λ _ q. emptied r q)
    ConsumerOk-published r (taken_ok e f g) = taken_ok e (λ q. emptied r q) g

    -- What the producer holds survives the consumer's move.
    pub ProducerOk-popped :
        {p : Producer A} → rb.head ≢ rb.tail → ProducerOk rb p → ProducerOk (popped z v) p
    ProducerOk-popped n resting_ok = resting_ok
    ProducerOk-popped n (tail_ok e) = tail_ok e
    ProducerOk-popped n (both_ok e f) = both_ok e (omega (arith, f, len-popped z v n))
    ProducerOk-popped n (written_ok e f g) = written_ok e (omega (arith, f, len-popped z v n)) g
