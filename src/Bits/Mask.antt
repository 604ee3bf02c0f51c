-- ===== src/Bits/Mask.antt =====
-- Extensionality of digits, a mask of ones, and a number all of whose digits are one.
use native.Mathlib.Nat.{
  zero-add, suc-add, pow-succ', add-mul-mod_self_left, mod-eq_of_lt, mod-lt, mod-add-div, mul_assoc,
  le_of_lt, le_refl,
}
use grin_with_golang.Prelude.{
  ℕ, zero, suc, ◌+◌, ◌-◌, ◌*◌, ◌/◌, ◌%◌, ◌^◌, ◌≤◌, ◌<◌, min, max, bit_and, bit_or, ◌≡◌, ap,
  ℕ_discrete, ◌∙◌, arith, sym, dec_lt,
}
use grin_with_golang.Bits.{bit, bit-zero, bit-bit_or, bit-bit_and}

ext_below : (n x y : ℕ) → x + y < n → ((i : ℕ) → bit x i ≡ bit y i) → x ≡ y
unfolding bit
ext_below zero x y f h = absurd (omega arith)
ext_below (suc n) x y f h = elim (ℕ_discrete (x + y) 0) [
  | yes e ↦ omega arith
  | no e ↦ omega (arith, h 0, ext_below n (x / 2) (y / 2) (omega arith) (λ i. h (suc i)))
]

-- Numbers with the same digits are equal.
pub bit_ext : (x y : ℕ) → ((i : ℕ) → bit x i ≡ bit y i) → x ≡ y
bit_ext x y h = ext_below (suc (x + y)) x y (omega arith) h

pub pow_pos : (k : ℕ) → 0 < 2 ^ k
pow_pos zero = omega arith
pow_pos (suc k) = rw pow-succ' (omega (arith, pow_pos k))

pub pow-add : (j k : ℕ) → 2 ^ (j + k) ≡ 2 ^ j * 2 ^ k
pow-add zero k = rw zero-add (omega arith)
pow-add (suc j) k = rw (suc-add, pow-succ' 2 (j + k), pow-succ' 2 j, pow-add j k, mul_assoc)

pub pow_lt : (m k : ℕ) → k < m → 2 ^ k < 2 ^ m
pow_lt m k h =
    let e : m ≡ suc (k + (m - k - 1)) = omega arith in
    let p = pow_pos k in let q = pow_pos (m - k - 1) in rw (e, pow-succ', pow-add) (grind arith)

pub pow_double : (j k : ℕ) → j < k → 2 * 2 ^ j ≤ 2 ^ k
pow_double j k h = elim (dec_lt (suc j) k) [
  | yes p ↦ rw (← pow-succ' 2 j) (le_of_lt (pow_lt k (suc j) p))
  | no p ↦ let e : k ≡ suc j = omega arith in rw (e, pow-succ') (le_refl (2 * 2 ^ j))
]

-- The lowest digits of a number, one digit at a time.
mod-double : (x p : ℕ) → 0 < p → x % (2 * p) ≡ x / 2 % p * 2 + x % 2
mod-double x p h =
    let q = x / 2 in
    let r : ℕ = q % p * 2 + x % 2 in
    let small : r < 2 * p = omega (arith, mod-lt q h) in
    let split : x ≡ r + 2 * p * (q / p) = omega (arith, mod-add-div q p, mul_assoc 2 p (q / p)) in
    ap (λ t. t % (2 * p)) split ∙ add-mul-mod_self_left r (2 * p) (q / p) ∙ mod-eq_of_lt small

-- The digits of `&` and `|`, lowest first.
bit_and_step : (a b : ℕ) → bit_and a b ≡ bit_and (a / 2) (b / 2) * 2 + min (a % 2) (b % 2)
unfolding bit
bit_and_step a b = bit_ext _ _ (elim [
  | zero ↦ omega (arith, bit-bit_and a b 0)
  | suc i ↦
      bit-bit_and a b (suc i)
      ∙ sym (bit-bit_and (a / 2) (b / 2) i)
      ∙ ap (λ y. bit y i) (omega arith)
])

bit_or_step : (a b : ℕ) → bit_or a b ≡ bit_or (a / 2) (b / 2) * 2 + max (a % 2) (b % 2)
unfolding bit
bit_or_step a b = bit_ext _ _ (elim [
  | zero ↦ omega (arith, bit-bit_or a b 0)
  | suc i ↦
      bit-bit_or a b (suc i) ∙ sym (bit-bit_or (a / 2) (b / 2) i) ∙ ap (λ y. bit y i) (omega arith)
])

bit_and-zero : (x : ℕ) → bit_and x 0 ≡ 0
bit_and-zero x = bit_ext _ 0 λ i. omega (arith, bit-bit_and x 0 i, bit-zero i)

pub bit_and-mask : (k x : ℕ) → bit_and x (2 ^ k - 1) ≡ x % 2 ^ k
bit_and-mask zero x = omega (arith, bit_and-zero x)
bit_and-mask (suc k) x =
    let p = pow_pos k in
    let half : (2 ^ suc k - 1) / 2 ≡ 2 ^ k - 1 = rw pow-succ' (omega arith) in
    let ih : bit_and (x / 2) ((2 ^ suc k - 1) / 2) ≡ x / 2 % 2 ^ k =
      rw half (bit_and-mask k (x / 2)) in
    let odd : (2 ^ suc k - 1) % 2 ≡ 1 = rw pow-succ' (omega arith) in
    bit_and_step x (2 ^ suc k - 1)
    ∙ rw (ih, odd) (omega arith)
    ∙ sym (ap (λ t. x % t) (pow-succ' 2 k) ∙ mod-double x (2 ^ k) p)

-- A number below 2 ^ k whose k lowest digits are one.
pub all_ones : (k x : ℕ) → x < 2 ^ k → ((i : ℕ) → i < k → bit x i ≡ 1) → x + 1 ≡ 2 ^ k
unfolding bit
all_ones zero x h ones = omega arith
all_ones (suc k) x h ones =
    let p = rw pow-succ' at h in
    let low = ones 0 (omega arith) in
    let rest = all_ones k (x / 2) (omega arith) (λ i q. ones (suc i) (omega arith)) in
    rw pow-succ' (omega arith)

-- A number with k + 1 digits has a one in front.
pub top_bit : (k x : ℕ) → 2 ^ k ≤ x → x < 2 ^ suc k → bit x k ≡ 1
unfolding bit
top_bit zero x p q = omega arith
top_bit (suc k) x p q =
    let p' = rw pow-succ' at p in
    let q' = rw pow-succ' at q in top_bit k (x / 2) (omega arith) (omega arith)

pub bit_or-lt-pow : (k a b : ℕ) → a < 2 ^ k → b < 2 ^ k → bit_or a b < 2 ^ k
bit_or-lt-pow zero a b p q =
    let a0 : a ≡ 0 = omega arith in let b0 : b ≡ 0 = omega arith in rw (a0, b0) (omega arith)
bit_or-lt-pow (suc k) a b p q =
    let p' = rw pow-succ' at p in
    let q' = rw pow-succ' at q in
    rw pow-succ'
      (omega (arith, bit_or_step a b, bit_or-lt-pow k (a / 2) (b / 2) (omega arith) (omega arith)))
