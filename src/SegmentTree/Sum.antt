-- ===== src/SegmentTree/Sum.antt =====
-- Sums of runs of 64-bit numbers, for the nodes of src/09_dsa/07_segment_tree.
use grin_with_golang.Prelude.{ap₂, arith, suc, zero, ℕ, ◌+◌, ◌≤◌, ◌≡◌, ◌&&◌, if◌then◌else◌, leb}
use grin_with_golang.Words.{add64}
use native.Mathlib.Nat.{zero-add, suc-add}

-- the sum of `f s`, …, `f (s + k)`, wrapping at each addition
unfoldable pub seg : (ℕ → ℕ) → ℕ → ℕ → ℕ
seg f s zero = f s
seg f s (suc k) = add64 (f s) (seg f (suc s) k)

pub seg-split :
    (f : ℕ → ℕ) (s j k : ℕ) → seg f s (suc (j + k)) ≡ add64 (seg f s j) (seg f (suc (s + j)) k)
unfolding seg
seg-split f s zero k = let e : s + 0 ≡ s = omega arith in rw (zero-add, e)
seg-split f s (suc j) k =
    let e : suc s + j ≡ s + suc j = omega arith in
    let rest = rw e at (seg-split f (suc s) j k) in rw (suc-add, rest) (omega arith)

-- `f` from `l` to `r`, and 0 elsewhere
abbrev pub within : ℕ → ℕ → (ℕ → ℕ) → ℕ → ℕ
within l r f i = if leb l i && leb i r then f i else 0

pub seg-congr :
    (f g : ℕ → ℕ) (s k : ℕ) → ((i : ℕ) → s ≤ i → i ≤ s + k → f i ≡ g i) → seg f s k ≡ seg g s k
unfolding seg
seg-congr f g s zero h = h s (omega arith) (omega arith)
seg-congr f g s (suc k) h =
    ap₂ add64 (h s (omega arith) (omega arith))
      (seg-congr f g (suc s) k (λ i p q. h i (omega arith) (omega arith)))

pub seg-zero : (f : ℕ → ℕ) (s k : ℕ) → ((i : ℕ) → s ≤ i → i ≤ s + k → f i ≡ 0) → seg f s k ≡ 0
unfolding seg
seg-zero f s zero h = h s (omega arith) (omega arith)
seg-zero f s (suc k) h =
    omega (arith, h s, seg-zero f (suc s) k (λ i p q. h i (omega arith) (omega arith)))
