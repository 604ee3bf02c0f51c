-- ===== src/RingBuffer/Invariant.antt =====
-- The representation invariant of the ring buffer, and the slots that its counters address.
use grin_with_golang.Prelude.{
  ℕ, ◌^◌, ◌≤◌, ◌<◌, ◌≡◌, length, ◌*◌, some, ◌-◌, ◌%◌, arith, ◌+◌, ap, replicate, ◌∙◌,
  length-replicate, refl,
}
use grin_with_golang.Words.{word}
use grin_with_golang.RingBuffer.{RingBuffer, len, add64, slot, new, sub64, next_power_of2}
use native.Mathlib.Nat.{mod-lt, mod-mod_of_dvd}
use grin_with_golang.RingBuffer.Capacity.{next_power_of2-least}
use grin_with_golang.Bits.Mask.{pow_pos, pow_lt, pow-add, bit_and-mask}

-- The capacity is 2 ^ k, the storage has that many slots, and the counters are words at most a
-- capacity apart.
pub record IsValid {ℓ} {A : Type ℓ} (k : ℕ) (rb : RingBuffer A) : Type ℓ where
  pub power : rb.capacity ≡ 2 ^ k
  pub small : k < 64
  pub storage : length rb.buffer ≡ rb.capacity
  pub head_word : rb.head < word
  pub tail_word : rb.tail < word
  pub fits : len rb ≤ rb.capacity

word-split : (k : ℕ) → k < 64 → word ≡ 2 ^ k * 2 ^ (64 - k)
word-split k h = let e : 64 ≡ k + (64 - k) = omega arith in ap (λ t. 2 ^ t) e ∙ pow-add k (64 - k)

-- The slot of a counter is the counter modulo the capacity, also where the counter wraps.
pub mod-add64 : (k a b : ℕ) → k < 64 → add64 a b % 2 ^ k ≡ (a + b) % 2 ^ k
mod-add64 k a b h = mod-mod_of_dvd (2 ^ k) (a + b) ∣ (2 ^ (64 - k), word-split k h) ∣₁

module _ {ℓ} {A : Type ℓ} {k : ℕ} {rb : RingBuffer A} (v : IsValid k rb) where
  pub slot-mod : (i : ℕ) → slot rb i ≡ i % 2 ^ k
  slot-mod i =
      let p = pow_pos k in
      let q = pow_lt 64 k v.small in
      let e : sub64 rb.capacity 1 ≡ 2 ^ k - 1 = rw v.power (omega arith) in rw e (bit_and-mask k i)

  -- Every access is inside the storage.
  pub slot_in_bounds : (i : ℕ) → slot rb i < length rb.buffer
  slot_in_bounds i = rw (slot-mod i, v.storage, v.power) (mod-lt i (pow_pos k))

module _ {ℓ} {A : Type ℓ} (z : A) where
  fresh : ℕ → RingBuffer A
  fresh k = record { buffer = replicate (2 ^ k) z; capacity = 2 ^ k; head = 0; tail = 0 }

  new-fresh : (n k : ℕ) → next_power_of2 n ≡ 2 ^ k → 2 ^ k < 2 ^ 63 → new z n ≡ some (fresh k)
  unfolding new fresh
  new-fresh n k e h = rw e (ground arith)

  fresh-IsValid : (k : ℕ) → k < 64 → IsValid k (fresh k)
  unfolding fresh
  fresh-IsValid k h = record {
    power = refl;
    small = h;
    storage = length-replicate (2 ^ k) z;
    head_word = omega arith;
    tail_word = omega arith;
    fits = omega arith;
  }

  -- `NewRingBuffer` of 1 to 2 ^ 62 slots returns a valid empty ring, and its capacity is the least
  -- power of two that holds the request.
  pub new-IsValid :
      (n : ℕ)
      → 0 < n
      → n ≤ 2 ^ 62
      → (k : ℕ) × (rb : RingBuffer A) × (new z n ≡ some rb)
        × IsValid k rb
        × (len rb ≡ 0)
        × (n ≤ rb.capacity)
        × (rb.capacity < 2 * n)
  unfolding fresh
  new-IsValid n p h =
      let (k, a, e, lo, hi) = next_power_of2-least n p (omega arith) in
      (k, fresh k, new-fresh n k e (omega arith), fresh-IsValid k a, refl, lo, hi)
