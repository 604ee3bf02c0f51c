-- ===== src/RingBuffer/Spsc.antt =====
-- One producer and one consumer goroutine on a ring, interleaved at every atomic load and store and
-- at the access to the slot. Steps are sequentially consistent, as Go's sync/atomic promises.
pub mod Fifo
pub mod Safety
use grin_with_golang.RingBuffer.{RingBuffer, sub64, slot, add64}
use grin_with_golang.Prelude.{
  ◌≡◌, Bool, List, Option, [], ap, append-nil, append_assoc, ap₂, arith, bit_and, bit_or, dec_le,
  dec_lt, false, fun_ext, inl, inr, map, max, min, none, not, refl, some, subst, suc, sym, true,
  zero, ℕ, ℕ_discrete, ◌+◌, ◌-◌, ◌*◌, ◌/◌, ◌%◌, ◌^◌, ◌≤◌, ◌<◌, ◌≢◌, ◌↔◌, ◌⊎◌, ◌∙◌, ◌&&◌, ◌||◌, ◌∷◌,
  ◌++◌, ◌==◌, ◌>>=◌, if◌then◌else◌, ltb, leb, length, get_elem?, get_or, set, store, replicate,
  Bool-cases, Option-cases, length-append, length-set, length-replicate, get_or-set,
  get_elem?-get_or,
}

-- Where a goroutine stands in `Push`, with the locals that it holds.
pub data Producer {ℓ} (A : Type ℓ) : Type ℓ where
  resting : Producer A
  tail_loaded : A → ℕ → Producer A
  both_loaded : A → ℕ → ℕ → Producer A
  written : A → ℕ → Producer A

-- Where a goroutine stands in `Pop`.
pub data Consumer {ℓ} (A : Type ℓ) : Type ℓ where
  waiting : Consumer A
  head_loaded : ℕ → Consumer A
  both_seen : ℕ → ℕ → Consumer A
  taken : ℕ → A → Consumer A

-- `sent` and `received` record the calls of `Push` and `Pop` that have returned true.
pub record System {ℓ} (A : Type ℓ) : Type ℓ where
  pub ring : RingBuffer A
  pub producer : Producer A
  pub consumer : Consumer A
  pub sent : List A
  pub received : List A

module _ {ℓ} {A : Type ℓ} where
  abbrev pub start : RingBuffer A → System A
  start rb = record { ring = rb; producer = resting; consumer = waiting; sent = []; received = [] }

  pub data Step (s : System A) : System A → Type ℓ where
    push_load_tail :
        (x : A) → s.producer ≡ resting → Step s (record s { producer = tail_loaded x s.ring.tail })
    push_load_head :
        (x : A) (t : ℕ)
        → s.producer ≡ tail_loaded x t
        → Step s (record s { producer = both_loaded x t s.ring.head })
    push_full :
        (x : A) (t h : ℕ)
        → s.producer ≡ both_loaded x t h
        → leb s.ring.capacity (sub64 t h) ≡ true
        → Step s (record s { producer = resting })
    push_write :
        (x : A) (t h : ℕ) (buf : List A)
        → s.producer ≡ both_loaded x t h
        → leb s.ring.capacity (sub64 t h) ≡ false
        → store s.ring.buffer (slot s.ring t) x ≡ some buf
        → Step s (record s { ring = record s.ring { buffer = buf }; producer = written x t })
    push_store_tail :
        (x : A) (t : ℕ)
        → s.producer ≡ written x t
        → Step s (record s {
          ring = record s.ring { tail = add64 t 1 };
          producer = resting;
          sent = s.sent ++ x ∷ [];
        })
    pop_load_head : s.consumer ≡ waiting → Step s (record s { consumer = head_loaded s.ring.head })
    pop_load_tail :
        (h : ℕ)
        → s.consumer ≡ head_loaded h
        → Step s (record s { consumer = both_seen h s.ring.tail })
    pop_empty :
        (h t : ℕ)
        → s.consumer ≡ both_seen h t
        → (h == t) ≡ true
        → Step s (record s { consumer = waiting })
    pop_read :
        (h t : ℕ) (x : A)
        → s.consumer ≡ both_seen h t
        → (h == t) ≡ false
        → get_elem? s.ring.buffer (slot s.ring h) ≡ some x
        → Step s (record s { consumer = taken h x })
    pop_store_head :
        (h : ℕ) (x : A)
        → s.consumer ≡ taken h x
        → Step s (record s {
          ring = record s.ring { head = add64 h 1 };
          consumer = waiting;
          received = s.received ++ x ∷ [];
        })

  pub data Reach (s : System A) : System A → Type ℓ where
    here : Reach s s
    next : {t u : System A} → Reach s t → Step t u → Reach s u
