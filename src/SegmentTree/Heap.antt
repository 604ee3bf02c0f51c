-- ===== src/SegmentTree/Heap.antt =====
-- The numbering of nodes in src/09_dsa/07_segment_tree: the children of node i are 2 i and 2 i + 1.
use grin_with_golang.Prelude.{arith, dec_lt, suc, sym, ℕ, ◌+◌, ◌*◌, ◌^◌, ◌≤◌, ◌<◌, ◌≡◌, ◌∙◌}
use native.Mathlib.Nat.{pow-succ', mul-le-mul_left, mul-le-mul_right}
use grin_with_golang.Bits.Mask.{pow_double, pow_pos}

-- The slots of the subtree at a node: the node, and the subtrees at twice it and one more.
pub data Under (m : ℕ) : ℕ → Type 0 where
  below : {x : ℕ} (k r : ℕ) → x ≡ m * 2 ^ k + r → r < 2 ^ k → Under m x

pub Under-self : (m : ℕ) → Under m m
Under-self m = below 0 0 (omega arith) (omega arith)

pub Under-left : (m : ℕ) {x : ℕ} → Under (2 * m) x → Under m x
Under-left m (below k r e h) =
    below (suc k) r (rw pow-succ' (omega arith)) (rw pow-succ' (omega arith))

pub Under-right : (m : ℕ) {x : ℕ} → Under (2 * m + 1) x → Under m x
Under-right m (below k r e h) =
    below (suc k) (2 ^ k + r) (rw pow-succ' (omega arith)) (rw pow-succ' (omega arith))

apart_lt : (m a b r r' : ℕ) → 2 * a ≤ b → r < a → 2 * m * a + r ≡ (2 * m + 1) * b + r' → ⊥
apart_lt m a b r r' h p e = omega (arith, mul-le-mul_left m h)

apart_gt : (m a b r r' : ℕ) → 0 < m → 2 * b ≤ a → r' < b → 2 * m * a + r ≡ (2 * m + 1) * b + r' → ⊥
apart_gt m a b r r' q h p e = omega (arith, mul-le-mul_left m h, mul-le-mul_right b q)

-- The two subtrees of a node share no slot, and the node is in neither.
pub Under-apart : (m : ℕ) {x : ℕ} → 0 < m → Under (2 * m) x → Under (2 * m + 1) x → ⊥
Under-apart m p (below k r e h) (below k' r' e' h') = elim (dec_lt k k') [
  | yes q ↦ apart_lt m (2 ^ k) (2 ^ k') r r' (pow_double k k' q) h (sym e ∙ e')
  | no q ↦ elim (dec_lt k' k) [
    | yes q' ↦ apart_gt m (2 ^ k) (2 ^ k') r r' p (pow_double k' k q') h' (sym e ∙ e')
    | no q' ↦ let same : k' ≡ k = omega arith in let f = rw same at (sym e ∙ e') in omega arith
  ]
]

above_child : (m c k r : ℕ) → 0 < m → 2 * m ≤ c → m ≡ c * 2 ^ k + r → ⊥
above_child m c k r p h e = omega (arith, mul-le-mul_left c (pow_pos k))

pub not-Under_children : (m : ℕ) → 0 < m → (Under (2 * m) m → ⊥) × (Under (2 * m + 1) m → ⊥)
not-Under_children m p = (left, right)
  where
    left : Under (2 * m) m → ⊥
    left (below k r e h) = above_child m (2 * m) k r p (omega arith) e

    right : Under (2 * m + 1) m → ⊥
    right (below k r e h) = above_child m (2 * m + 1) k r p (omega arith) e
