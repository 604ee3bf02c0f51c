-- ===== src/SegmentTree/Query.antt =====
-- `query` of src/09_dsa/07_segment_tree on a tree that holds the sums of an array.
use grin_with_golang.Prelude.{
  List, arith, false, inl, inr, refl, some, suc, true, zero, ℕ, ◌-◌, ◌≤◌, ◌<◌, ◌≡◌, ◌&&◌, ◌||◌, ltb,
  leb, Bool-cases,
}
use grin_with_golang.SegmentTree.Shape.{Covers, root_sum, leaf, fork, seg-halves}
use grin_with_golang.SegmentTree.{query}
use grin_with_golang.SegmentTree.Sum.{seg, within, seg-zero, seg-congr}

outside :
    (l r s e : ℕ) (f : ℕ → ℕ) (i : ℕ)
    → (ltb r s || ltb e l) ≡ true
    → s ≤ i
    → i ≤ e
    → within l r f i ≡ 0
outside l r s e f i h p q = ground arith

inside :
    (l r s e : ℕ) (f : ℕ → ℕ) (i : ℕ)
    → (leb l s && leb e r) ≡ true
    → s ≤ i
    → i ≤ e
    → within l r f i ≡ f i
inside l r s e f i h p q = ground arith

one_position :
    (l r s e : ℕ) → s ≡ e → (ltb r s || ltb e l) ≡ false → (leb l s && leb e r) ≡ false → ⊥
one_position l r s e p h k = ground arith

pub query_sum :
    (fuel : ℕ) (f : ℕ → ℕ) (t : List ℕ) {node s e : ℕ} (l r : ℕ)
    → Covers f t node s e
    → e - s < fuel
    → s ≤ e
    → query fuel t node s e l r ≡ some (seg (within l r f) s (e - s))
unfolding query
query_sum zero f t l r c h o = absurd (omega arith)
query_sum (suc fuel) f t {node = node} {s = s} {e = e} l r c h o =
    elim (Bool-cases (ltb r s || ltb e l)) [
      | inl out ↦
          let zeros =
            seg-zero (within l r f) s (e - s) (λ i p q. outside l r s e f i out p (omega arith)) in
          rw (out, zeros) refl
      | inr in_part ↦ elim (Bool-cases (leb l s && leb e r)) [
        | inl whole ↦
            let all =
              seg-congr (within l r f) f s (e - s)
                (λ i p q. inside l r s e f i whole p (omega arith)) in
            rw (in_part, whole, root_sum f t c, all) refl
        | inr partial ↦
            rw (in_part, partial)
              (elim c [
                | leaf p k ↦ absurd (one_position l r s e p in_part partial)
                | fork mid m q k a b ↦
                    let left = query_sum fuel f t l r a (omega arith) (omega arith) in
                    let right = query_sum fuel f t l r b (omega arith) (omega arith) in
                    rw
                      (
                        ← m,
                        left,
                        right,
                        seg-halves (within l r f) s mid e (omega arith) (omega arith),
                      )
                      refl
              ])
      ]
    ]
