-- ===== src/Bits.antt =====
-- Binary digits of the native numbers, and what Go's `|`, `&` and `>>` on uint64 do to them.
pub mod Mask
use native.Mathlib.Nat.{div-div-eq-div-mul, pow-succ', zero-add, suc-add}
use Prim.Native.Nat.{digits, bit_or-bitwise, bit_and-bitwise}
use grin_with_golang.Prelude.{
  ℕ, zero, suc, ◌+◌, ◌*◌, ◌/◌, ◌%◌, ◌^◌, ◌≤◌, ◌<◌, min, max, bit_and, bit_or, ◌≡◌, refl, ap, ◌∙◌,
  arith,
}

-- the digit of weight 2 ^ i
unfoldable pub bit : ℕ → ℕ → ℕ
bit x zero = x % 2
bit x (suc i) = bit (x / 2) i

pub bit-lt : (x i : ℕ) → bit x i < 2
unfolding bit
bit-lt x zero = omega arith
bit-lt x (suc i) = bit-lt (x / 2) i

pub bit-zero : (i : ℕ) → bit 0 i ≡ 0
unfolding bit
bit-zero zero = refl
bit-zero (suc i) = bit-zero i

pub bit-div-pow : (x s i : ℕ) → bit (x / 2 ^ s) i ≡ bit x (s + i)
unfolding bit
bit-div-pow x zero i = let e : x / 1 ≡ x = omega arith in rw (zero-add, e)
bit-div-pow x (suc s) i =
    rw (pow-succ' 2 s, ← div-div-eq-div-mul x 2 (2 ^ s), bit-div-pow (x / 2) s i, suc-add)

module _ (z : ℕ → ℕ) (f : ℕ → ℕ → ℕ) (f_lt : (a b : ℕ) → a < 2 → b < 2 → f a b < 2)
    (z_bit : (b i : ℕ) → bit (z b) i ≡ f 0 (bit b i)) where
  -- A digitwise operation acts on each digit by itself.
  bit-digits : (n a b i : ℕ) → a ≤ n → bit (digits z f n a b) i ≡ f (bit a i) (bit b i)
  unfolding bit
  bit-digits zero zero b i h = rw bit-zero (z_bit b i)
  bit-digits zero (suc a) b i h = absurd (omega arith)
  bit-digits (suc n) zero b i h = rw bit-zero (z_bit b i)
  bit-digits (suc n) (suc a) b zero h =
      let d = f_lt (suc a % 2) (b % 2) (omega arith) (omega arith) in omega arith
  bit-digits (suc n) (suc a) b (suc i) h =
      let d = f_lt (suc a % 2) (b % 2) (omega arith) (omega arith) in
      ap (λ y. bit y i) (omega arith) ∙ bit-digits n (suc a / 2) (b / 2) i (omega arith)

pub bit-bit_or : (a b i : ℕ) → bit (bit_or a b) i ≡ max (bit a i) (bit b i)
bit-bit_or a b i =
    rw (bit_or-bitwise a b)
      (bit-digits (λ b. b) max (λ a b p q. omega arith) (λ b i. omega arith) a a b i (omega arith))

pub bit-bit_and : (a b i : ℕ) → bit (bit_and a b) i ≡ min (bit a i) (bit b i)
bit-bit_and a b i = rw (bit_and-bitwise a b) (
    bit-digits (λ b. 0) min (λ a b p q. omega arith) (λ b i. omega (arith, bit-zero i)) a a b i
      (omega arith))
