-- ===== src/RingBuffer/Capacity.antt =====
-- `nextPowerOf2` of src/09_dsa/03_ring_buffer, and its or-cascade.
use native.Mathlib.Nat.{pow-succ', div-le_self, mod-eq_of_lt}
use grin_with_golang.Prelude.{
  ℕ, zero, suc, ◌+◌, ◌-◌, ◌*◌, ◌/◌, ◌%◌, ◌^◌, ◌≤◌, ◌<◌, ◌≡◌, refl, arith, ◌==◌, dec_lt, ◌∙◌, ap,
  false,
}
use grin_with_golang.Bits.{bit, bit-lt, bit-bit_or, bit-div-pow}
use grin_with_golang.Bits.Mask.{all_ones, top_bit, bit_or-lt-pow, pow_pos, pow_lt}
use grin_with_golang.Words.{word}
use grin_with_golang.RingBuffer.{smear, cascade, next_power_of2}

-- A one of `n` is copied to the `m` places from its own downwards in `x`.
Covers : ℕ → ℕ → ℕ → Type 0
Covers n m x = (i d : ℕ) → d < m → bit n (i + d) ≡ 1 → bit x i ≡ 1

Covers-start : (n : ℕ) → Covers n 1 n
unfolding Covers
Covers-start n i d p h = let e : i + d ≡ i = omega arith in rw e at h

Covers-smear : (n s x : ℕ) → Covers n s x → Covers n (s + s) (smear s x)
unfolding Covers smear
Covers-smear n s x c i d p h = elim (dec_lt d s) [
  | yes q ↦ omega (arith, bit-bit_or x (x / 2 ^ s) i, c i d q h, bit-lt (x / 2 ^ s) i)
  | no q ↦
      let e : i + d ≡ s + i + (d - s) = omega arith in
      let copied = c (s + i) (d - s) (omega arith) (rw e at h) in
      omega (arith, bit-bit_or x (x / 2 ^ s) i, bit-div-pow x s i, copied, bit-lt x i)
]

smear-lt-pow : (k s x : ℕ) → x < 2 ^ k → smear s x < 2 ^ k
unfolding smear
smear-lt-pow k s x h = bit_or-lt-pow k x (x / 2 ^ s) h (omega (arith, div-le_self x (2 ^ s)))

cascade-Covers : (n : ℕ) → Covers n 64 (cascade n)
unfolding cascade
cascade-Covers n = Covers-smear n 32 _ (
    Covers-smear n 16 _ (
      Covers-smear n 8 _
        (Covers-smear n 4 _ (Covers-smear n 2 _ (Covers-smear n 1 _ (Covers-start n))))))

cascade-lt-pow : (k n : ℕ) → n < 2 ^ k → cascade n < 2 ^ k
unfolding cascade
cascade-lt-pow k n h = smear-lt-pow k 32 _ (
    smear-lt-pow k 16 _
      (smear-lt-pow k 8 _ (smear-lt-pow k 4 _ (smear-lt-pow k 2 _ (smear-lt-pow k 1 n h)))))

cascade-add-one : (k n : ℕ) → k < 64 → 2 ^ k ≤ n → n < 2 ^ suc k → cascade n + 1 ≡ 2 ^ suc k
unfolding Covers
cascade-add-one k n h lo hi = all_ones (suc k) (cascade n) (cascade-lt-pow (suc k) n hi) λ i p.
    cascade-Covers n i (k - i) (omega arith) (ap (bit n) {y = k} (omega arith) ∙ top_bit k n lo hi)

-- the number of binary digits of a positive number
top : (w n : ℕ) → 0 < n → n < 2 ^ w → (k : ℕ) × (k < w) × (2 ^ k ≤ n) × (n < 2 ^ suc k)
top zero n p h = absurd (omega arith)
top (suc w) n p h = elim (dec_lt n (2 ^ w)) [
  | yes q ↦ let (k, a, b, c) = top w n p q in (k, omega arith, b, c)
  | no q ↦ (w, omega arith, omega arith, h)
]

next_power_of2-one : next_power_of2 1 ≡ 1
unfolding next_power_of2 cascade
next_power_of2-one = refl

-- what `nextPowerOf2` returns past one, by the number of binary digits of its argument less one
next_power_of2-top :
    (k n : ℕ) → k < 64 → 2 ^ k ≤ n - 1 → n - 1 < 2 ^ suc k → next_power_of2 n ≡ 2 ^ suc k % word
unfolding next_power_of2
next_power_of2-top k n p lo hi =
    let q = pow_pos k in
    let some_n : (n == 0) ≡ false = ground arith in
    rw some_n (ap (λ t. t % word) (cascade-add-one k (n - 1) p lo hi))

-- For a request of 1 to 2 ^ 63 slots `nextPowerOf2` returns the least power of two that holds it.
pub next_power_of2-least :
    (n : ℕ)
    → 0 < n
    → n ≤ 2 ^ 63
    → (k : ℕ) × (k < 64) × (next_power_of2 n ≡ 2 ^ k) × (n ≤ 2 ^ k) × (2 ^ k < 2 * n)
next_power_of2-least n p h = elim (dec_lt 1 n) [
  | yes q ↦
      let (k, a, b, c) = top 63 (n - 1) (omega arith) (omega arith) in
      let fits = pow_lt 64 (suc k) (omega arith) in
      let e = next_power_of2-top k n (omega arith) b c in
      (suc k, omega arith, e ∙ mod-eq_of_lt fits, omega arith, rw pow-succ' (omega arith))
  | no q ↦
      let one : n ≡ 1 = omega arith in
      (0, omega arith, rw one next_power_of2-one, omega arith, omega arith)
]

-- A request past 2 ^ 63 wraps to no capacity at all.
pub next_power_of2-wraps : (n : ℕ) → 2 ^ 63 < n → n < word → next_power_of2 n ≡ 0
next_power_of2-wraps n p h =
    rw (next_power_of2-top 63 n (omega arith) (omega arith) (omega arith)) refl
