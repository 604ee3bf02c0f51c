-- ===== src/RingBuffer/Spsc/Safety.antt =====
-- All interleavings of one producer and one consumer of src/09_dsa/03_ring_buffer.
use mathlib.Core.Option.{some-injective}
use grin_with_golang.RingBuffer.Spsc.{
  Producer, resting, tail_loaded, both_loaded, written, System, Step, push_load_tail, Reach, next,
  start, push_load_head, push_full, push_write, push_store_tail, pop_load_head, here, pop_load_tail,
  pop_empty, pop_read, pop_store_head,
}
use grin_with_golang.RingBuffer.Spsc.{Consumer, waiting, head_loaded, both_seen, taken}
use grin_with_golang.RingBuffer.{len, ℕ, RingBuffer, sub64, slot, new, add64}
use grin_with_golang.Prelude.{
  List, [], ap, append_assoc, arith, false, inl, inr, refl, some, subst, sym, ℕ, ◌^◌, ◌≤◌, ◌<◌, ◌≡◌,
  ◌∙◌, ◌∷◌, ◌++◌, ◌==◌, leb, get_elem?, set, store, Bool-cases, get_elem?-get_or, store-inv,
  store-some,
}
use grin_with_golang.RingBuffer.Spsc.Fifo.{
  IsOk, both_inv, seen_inv, ProducerOk, written_inv, ConsumerOk, taken_inv, tail_ok, resting_ok,
  taken_ok, ProducerOk-popped, both_ok, written_ok, ConsumerOk-published, waiting_ok, tail_inv,
  ConsumerOk-filled, head_ok, head_inv, seen_ok,
}
use grin_with_golang.RingBuffer.Refine.{
  published-IsValid, popped-IsValid, contents, filled-IsValid, filled_slot, contents-published,
  contents-popped, popped, contents-filled, window,
}
use grin_with_golang.RingBuffer.Invariant.{slot_in_bounds, IsValid, new-IsValid}
use native.Mathlib.Nat.{le_refl}

module _ {ℓ} {A : Type ℓ} (z : A) {k : ℕ} where
  -- the four steps that touch the storage or publish a counter
  push_write-IsOk :
      {s : System A} (x : A) (t h : ℕ) (buf : List A)
      → s.producer ≡ both_loaded x t h
      → leb s.ring.capacity (sub64 t h) ≡ false
      → store s.ring.buffer (slot s.ring t) x ≡ some buf
      → IsOk z k s
      → IsOk z k (record s { ring = record s.ring { buffer = buf }; producer = written x t })
  push_write-IsOk {s} x t h buf e f st i =
      let (t', l) = both_inv z (subst (ProducerOk z s.ring) e i.producer) in
      let room : len s.ring < s.ring.capacity = ground arith in
      let buf' : buf ≡ set s.ring.buffer (slot s.ring s.ring.tail) x =
        store-inv _ _ x st ∙ ap (λ j. set s.ring.buffer (slot s.ring j) x) t' in
      subst
        (λ b. IsOk z k (record s { ring = record s.ring { buffer = b }; producer = written x t }))
        (sym buf')
        (record {
          valid = filled-IsValid z i.valid x;
          producer = written_ok t' room (filled_slot z i.valid x);
          consumer = ConsumerOk-filled z i.valid x room i.consumer;
          fifo = i.fifo ∙ ap (λ q. s.received ++ q) (sym (contents-filled z i.valid x room));
        })

  push_store_tail-IsOk :
      {s : System A} (x : A) (t : ℕ)
      → s.producer ≡ written x t
      → IsOk z k s
      → IsOk z k (record s {
        ring = record s.ring { tail = add64 t 1 };
        producer = resting;
        sent = s.sent ++ x ∷ [];
      })
  push_store_tail-IsOk {s} x t e i =
      let (t', room, g) = written_inv z (subst (ProducerOk z s.ring) e i.producer) in
      subst
        (λ j. IsOk z k (record s {
          ring = record s.ring { tail = add64 j 1 };
          producer = resting;
          sent = s.sent ++ x ∷ [];
        }))
        (sym t')
        (record {
          valid = published-IsValid z i.valid room;
          producer = resting_ok;
          consumer = ConsumerOk-published z i.valid room i.consumer;
          fifo =
              ap (λ q. q ++ x ∷ []) i.fifo
              ∙ append_assoc s.received (contents z s.ring) (x ∷ [])
              ∙ ap (λ q. s.received ++ q)
                  (ap (λ y. contents z s.ring ++ y ∷ []) (sym g)
                    ∙ sym (contents-published z i.valid room));
        })

  pop_read-IsOk :
      {s : System A} (h t : ℕ) (x : A)
      → s.consumer ≡ both_seen h t
      → (h == t) ≡ false
      → get_elem? s.ring.buffer (slot s.ring h) ≡ some x
      → IsOk z k s
      → IsOk z k (record s { consumer = taken h x })
  pop_read-IsOk {s} h t x e f g i =
      let (h', more) = seen_inv z (subst (ConsumerOk z s.ring) e i.consumer) in
      let g' = ap (λ j. get_elem? s.ring.buffer (slot s.ring j)) (sym h') ∙ g in
      let at =
        get_elem?-get_or s.ring.buffer (slot s.ring s.ring.head) z
          (slot_in_bounds i.valid s.ring.head) in
      record {
        valid = i.valid;
        producer = i.producer;
        consumer = taken_ok h' (more (ground arith)) (cc);
        fifo = i.fifo;
      }

  pop_store_head-IsOk :
      {s : System A} (h : ℕ) (x : A)
      → s.consumer ≡ taken h x
      → IsOk z k s
      → IsOk z k (record s {
        ring = record s.ring { head = add64 h 1 };
        consumer = waiting;
        received = s.received ++ x ∷ [];
      })
  pop_store_head-IsOk {s} h x e i =
      let (h', more, g) = taken_inv z (subst (ConsumerOk z s.ring) e i.consumer) in
      subst
        (λ j. IsOk z k (record s {
          ring = record s.ring { head = add64 j 1 };
          consumer = waiting;
          received = s.received ++ x ∷ [];
        }))
        (sym h')
        (record {
          valid = popped-IsValid z i.valid more;
          producer = ProducerOk-popped z i.valid more i.producer;
          consumer = waiting_ok;
          fifo =
              i.fifo
              ∙ ap (λ q. s.received ++ q) (contents-popped z i.valid more)
              ∙ ap (λ y. s.received ++ y ∷ contents z (popped z i.valid)) g
              ∙ sym (append_assoc s.received (x ∷ []) (contents z (popped z i.valid)));
        })

  -- Every step keeps the invariant.
  Step-IsOk : {s t : System A} → Step s t → IsOk z k s → IsOk z k t
  Step-IsOk (push_load_tail x e) i = record {
    valid = i.valid;
    producer = tail_ok refl;
    consumer = i.consumer;
    fifo = i.fifo;
  }
  Step-IsOk {s} (push_load_head x t e) i = record {
    valid = i.valid;
    producer = loaded (tail_inv z (subst (ProducerOk z s.ring) e i.producer));
    consumer = i.consumer;
    fifo = i.fifo;
  }
    where
      loaded : t ≡ s.ring.tail → ProducerOk z s.ring (both_loaded x t s.ring.head)
      loaded e' = both_ok e' (rw e' (le_refl _))
  Step-IsOk (push_full x t h e f) i = record {
    valid = i.valid;
    producer = resting_ok;
    consumer = i.consumer;
    fifo = i.fifo;
  }
  Step-IsOk (push_write x t h buf e f st) i = push_write-IsOk x t h buf e f st i
  Step-IsOk (push_store_tail x t e) i = push_store_tail-IsOk x t e i
  Step-IsOk (pop_load_head e) i = record {
    valid = i.valid;
    producer = i.producer;
    consumer = head_ok refl;
    fifo = i.fifo;
  }
  Step-IsOk {s} (pop_load_tail h e) i =
      let h' = head_inv z (subst (ConsumerOk z s.ring) e i.consumer) in
      record {
        valid = i.valid;
        producer = i.producer;
        consumer = seen_ok h' (λ n q. n (h' ∙ q));
        fifo = i.fifo;
      }
  Step-IsOk (pop_empty h t e f) i = record {
    valid = i.valid;
    producer = i.producer;
    consumer = waiting_ok;
    fifo = i.fifo;
  }
  Step-IsOk (pop_read h t x e f g) i = pop_read-IsOk h t x e f g i
  Step-IsOk (pop_store_head h x e) i = pop_store_head-IsOk h x e i

  pub Reach-IsOk : {s t : System A} → IsOk z k s → Reach s t → IsOk z k t
  Reach-IsOk i here = i
  Reach-IsOk i (next r st) = Step-IsOk st (Reach-IsOk i r)

  start-IsOk : {rb : RingBuffer A} → IsValid k rb → len rb ≡ 0 → IsOk z k (start rb)
  start-IsOk {rb} v e = record {
    valid = v;
    producer = resting_ok;
    consumer = waiting_ok;
    fifo = ap (window z rb.buffer rb.capacity rb.head) (sym e);
  }

  -- what the goroutine at each point does next
  producer_moves :
      {s : System A} (x : A) → IsOk z k s → (t : System A) × Step s t × (t.consumer ≡ s.consumer)
  producer_moves {s} x i = go s.producer refl
    where
      go : (p : Producer A) → s.producer ≡ p → (t : System A) × Step s t × (t.consumer ≡ s.consumer)
      go resting e = (_, push_load_tail x e, refl)
      go (tail_loaded y t) e = (_, push_load_head y t e, refl)
      go (both_loaded y t h) e = elim (Bool-cases (leb s.ring.capacity (sub64 t h))) [
        | inl full ↦ (_, push_full y t h e full, refl)
        | inr room ↦
            (_, push_write y t h _ e room (store-some _ _ y (slot_in_bounds i.valid t)), refl)
      ]
      go (written y t) e = (_, push_store_tail y t e, refl)

  consumer_moves :
      {s : System A} → IsOk z k s → (t : System A) × Step s t × (t.producer ≡ s.producer)
  consumer_moves {s} i = go s.consumer refl
    where
      go : (c : Consumer A) → s.consumer ≡ c → (t : System A) × Step s t × (t.producer ≡ s.producer)
      go waiting e = (_, pop_load_head e, refl)
      go (head_loaded h) e = (_, pop_load_tail h e, refl)
      go (both_seen h t) e = elim (Bool-cases (h == t)) [
        | inl empty ↦ (_, pop_empty h t e empty, refl)
        | inr more ↦ (
          _,
          pop_read h t _ e more (get_elem?-get_or s.ring.buffer _ z (slot_in_bounds i.valid h)),
          refl,
        )
      ]
      go (taken h y) e = (_, pop_store_head h y e, refl)

module _ {ℓ} {A : Type ℓ} (z : A) (n : ℕ) {rb : RingBuffer A} {s : System A} where
  reached-IsOk : 0 < n → n ≤ 2 ^ 62 → new z n ≡ some rb → Reach (start rb) s → (k : ℕ) × IsOk z k s
  reached-IsOk p h made r =
      let (k, rb', made', v, e, _, _) = new-IsValid z n p h in
      let same = some-injective _ _ (sym made' ∙ made) in
      (k, Reach-IsOk z (subst (λ b. IsOk z k (start b)) same (start-IsOk z v e)) r)

  -- Whatever the interleaving, the items that `Pop` has returned, followed by those still in the
  -- ring, are the items that `Push` has accepted, in order; none is lost, repeated or torn.
  pub spsc_fifo :
      0 < n
      → n ≤ 2 ^ 62
      → new z n ≡ some rb
      → Reach (start rb) s
      → s.sent ≡ s.received ++ contents z s.ring
  spsc_fifo p h made r = (reached-IsOk p h made r).1.fifo

  -- Whatever the interleaving, each goroutine can always take its next step, and none of its
  -- accesses to the slots panics.
  pub spsc_progress :
      (x : A)
      → 0 < n
      → n ≤ 2 ^ 62
      → new z n ≡ some rb
      → Reach (start rb) s
      → ((t : System A) × Step s t × (t.consumer ≡ s.consumer))
        × ((t : System A) × Step s t × (t.producer ≡ s.producer))
  spsc_progress x p h made r =
      let (k, i) = reached-IsOk p h made r in (producer_moves z x i, consumer_moves z i)
