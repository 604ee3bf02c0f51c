-- ===== src/SegmentTree/Shape.antt =====
-- What the slots of the tree of src/09_dsa/07_segment_tree hold: sums of an array, which is given as
-- a function.
use grin_with_golang.SegmentTree.Sum.{seg, seg-congr, seg-split}
use grin_with_golang.Prelude.{
  List, arith, refl, some, suc, ℕ, ◌+◌, ◌-◌, ◌*◌, ◌/◌, ◌≤◌, ◌<◌, ◌≡◌, ◌∙◌, get_elem?,
}
use grin_with_golang.Words.{add64}
use grin_with_golang.SegmentTree.Heap.{Under, Under-self, Under-left, Under-right}

-- The node of a tree stands for the positions from `s` to `e`.
pub data Covers (f : ℕ → ℕ) (t : List ℕ) : ℕ → ℕ → ℕ → Type 0 where
  leaf : {node s e : ℕ} → s ≡ e → get_elem? t node ≡ some (f s) → Covers f t node s e
  fork :
      {node s e : ℕ} (mid : ℕ)
      → mid ≡ (s + e) / 2
      → s < e
      → get_elem? t node ≡ some (seg f s (e - s))
      → Covers f t (2 * node) s mid
      → Covers f t (2 * node + 1) (mid + 1) e
      → Covers f t node s e

pub seg-halves :
    (f : ℕ → ℕ) (s m e : ℕ)
    → s ≤ m
    → m < e
    → seg f s (e - s) ≡ add64 (seg f s (m - s)) (seg f (m + 1) (e - (m + 1)))
seg-halves f s m e p q =
    let whole : e - s ≡ suc (m - s + (e - (m + 1))) = omega arith in
    let next : suc (s + (m - s)) ≡ m + 1 = omega arith in
    let parts = rw next at (seg-split f s (m - s) (e - (m + 1))) in rw (whole, parts) refl

pub seg-one : (f : ℕ → ℕ) (s e : ℕ) → s ≡ e → seg f s (e - s) ≡ f s
unfolding seg
seg-one f s e p = let none_left : e - s ≡ 0 = omega arith in rw none_left refl

pub root_sum :
    (f : ℕ → ℕ) (t : List ℕ) {node s e : ℕ}
    → Covers f t node s e
    → get_elem? t node ≡ some (seg f s (e - s))
root_sum f t {s = s} {e = e} (leaf p h) = rw (seg-one f s e p) h
root_sum f t (fork mid p q h a b) = h

pub Covers-frame :
    (f : ℕ → ℕ) (t t' : List ℕ) {node s e : ℕ}
    → Covers f t node s e
    → ((x : ℕ) → Under node x → get_elem? t' x ≡ get_elem? t x)
    → Covers f t' node s e
Covers-frame f t t' {node = node} (leaf p h) same = leaf p (same node (Under-self node) ∙ h)
Covers-frame f t t' {node = node} (fork mid p q h a b) same =
    fork mid p q (same node (Under-self node) ∙ h)
      (Covers-frame f t t' a (λ x u. same x (Under-left node u)))
      (Covers-frame f t t' b (λ x u. same x (Under-right node u)))

pub Covers-congr :
    (f g : ℕ → ℕ) (t : List ℕ) {node s e : ℕ}
    → Covers f t node s e
    → ((i : ℕ) → s ≤ i → i ≤ e → f i ≡ g i)
    → Covers g t node s e
Covers-congr f g t {s = s} (leaf p h) same = leaf p (rw (← same s (omega arith) (omega arith)) h)
Covers-congr f g t {s = s} {e = e} (fork mid p q h a b) same =
    let sums = seg-congr f g s (e - s) (λ i x y. same i x (omega arith)) in
    fork mid p q (rw (← sums) h) (Covers-congr f g t a (λ i x y. same i x (omega arith)))
      (Covers-congr f g t b (λ i x y. same i (omega arith) y))
