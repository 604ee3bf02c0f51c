-- ===== src/RingBuffer.antt =====
-- The lock-free ring buffer of src/09_dsa/03_ring_buffer/main.go.
-- `head` and `tail` are free-running uint64 counters, and the slot of a counter is its lowest bits.
-- An operation returns `none` for a run-time panic (an index or a length out of range).
pub mod Capacity
pub mod Queue
pub mod Invariant
pub mod Refine
pub mod Session
pub mod Spsc
mod Examples
use grin_with_golang.Prelude.{
  ℕ, ◌+◌, ◌-◌, ◌/◌, ◌%◌, ◌^◌, bit_and, bit_or, List, [], ◌∷◌, Option, none, some, Bool, true, false,
  ltb, leb, ◌==◌, if◌then◌else◌, get_elem?, store, replicate, ◌>>=◌,
}
use grin_with_golang.Words.{word, add64, sub64}

-- `n |= n >> s`
unfoldable pub smear : ℕ → ℕ → ℕ
smear s n = bit_or n (n / 2 ^ s)

-- the six statements in a row
unfoldable pub cascade : ℕ → ℕ
unfolding smear
cascade n = smear 32 (smear 16 (smear 8 (smear 4 (smear 2 (smear 1 n)))))

-- `n--` runs only at `n ≢ 0`
unfoldable pub next_power_of2 : ℕ → ℕ
next_power_of2 n = if n == 0 then 1 else add64 (cascade (n - 1)) 1

pub record RingBuffer {ℓ} (A : Type ℓ) : Type ℓ where
  pub buffer : List A
  pub capacity : ℕ
  pub head : ℕ
  pub tail : ℕ

-- A caller's operation.
pub data Op {ℓ} (A : Type ℓ) : Type ℓ where
  put : A → Op A
  get : Op A

module _ {ℓ} {A : Type ℓ} where
  -- the slot that a counter addresses
  abbrev pub slot : RingBuffer A → ℕ → ℕ
  slot rb i = bit_and i (sub64 rb.capacity 1)

  unfoldable pub push : RingBuffer A → A → Option (RingBuffer A × Bool)
  push rb item = if leb rb.capacity (sub64 rb.tail rb.head) then some (rb, false) else do
    buf ← store rb.buffer (slot rb rb.tail) item
    some (record rb { buffer = buf; tail = add64 rb.tail 1 }, true)

  abbrev pub len : RingBuffer A → ℕ
  len rb = sub64 rb.tail rb.head

  abbrev pub is_empty : RingBuffer A → Bool
  is_empty rb = rb.head == rb.tail

  abbrev pub is_full : RingBuffer A → Bool
  is_full rb = leb rb.capacity (sub64 rb.tail rb.head)

-- `z` is the zero value of the element type.
module _ {ℓ} {A : Type ℓ} (z : A) where
  -- The argument is the bit pattern of the Go int; `make` panics on a length past the largest int.
  unfoldable pub new : ℕ → Option (RingBuffer A)
  unfolding next_power_of2
  new capacity =
      let cap = next_power_of2 capacity in
      let fresh : RingBuffer A = record {
        buffer = replicate cap z;
        capacity = cap;
        head = 0;
        tail = 0;
      } in
      if ltb (2 ^ 63 - 1) cap then none else some fresh

  unfoldable pub pop : RingBuffer A → Option (A × Bool × RingBuffer A)
  pop rb = if rb.head == rb.tail then some (z, false, rb) else do
    item ← get_elem? rb.buffer (slot rb rb.head)
    some (item, true, record rb { head = add64 rb.head 1 })

  -- What each call of a sequence returns: the item (the zero value after a push) and the flag.
  unfoldable pub run : RingBuffer A → List (Op A) → Option (List (A × Bool))
  unfolding push pop
  run rb [] = some []
  run rb (put x ∷ ops) = do (rb', ok) ← push rb x; out ← run rb' ops; some ((z, ok) ∷ out)
  run rb (get ∷ ops) = do (x, ok, rb') ← pop rb; out ← run rb' ops; some ((x, ok) ∷ out)
