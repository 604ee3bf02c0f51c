-- ===== src/SegmentTree/Update.antt =====
-- `update` of src/09_dsa/07_segment_tree on a tree that holds the sums of an array.
use grin_with_golang.SegmentTree.{update, pull, update_at, SegmentTree}
use grin_with_golang.Prelude.{
  List, Option, arith, dec_le, false, suc, true, zero, ℕ, ◌+◌, ◌-◌, ◌*◌, ◌/◌, ◌≤◌, ◌<◌, ◌≡◌, ◌∙◌,
  ◌==◌, if◌then◌else◌, leb, length, get_elem?-inside, ℕ_discrete, refl,
}
use grin_with_golang.SegmentTree.Shape.{Covers, Covers-congr, leaf, Covers-frame, root_sum, fork}
use grin_with_golang.SegmentTree.Build.{Written, store-Covers, pull-Covers}
use grin_with_golang.SegmentTree.Heap.{Under-apart, Under-left, Under-right}

-- `f` with the value `val` at `idx`
abbrev pub changed : (ℕ → ℕ) → ℕ → ℕ → ℕ → ℕ
changed f idx val i = if idx == i then val else f i

-- the sibling of the updated subtree keeps its sums
module _ (f : ℕ → ℕ) (t : List ℕ) (idx val : ℕ) where
  keep_before :
      {node s e : ℕ} → Covers f t node s e → e < idx → Covers (changed f idx val) t node s e
  keep_before c h = Covers-congr f (changed f idx val) t c (λ i p q. ground arith)

  keep_after :
      {node s e : ℕ} → Covers f t node s e → idx < s → Covers (changed f idx val) t node s e
  keep_after c h = Covers-congr f (changed f idx val) t c (λ i p q. ground arith)

module _ (f : ℕ → ℕ) (t : List ℕ) (node s e mid : ℕ) {o : Option (List ℕ)} where
  pull_left :
      0 < node
      → node < length t
      → mid ≡ (s + e) / 2
      → s < e
      → (w : Written f t (2 * node) s mid o) → Covers f t (2 * node + 1) (mid + 1) e
      → Written f t node s e (pull w.after node)
  pull_left p h m q w c =
      let right = Covers-frame f t w.after c (λ x u. w.frame x (λ v. Under-apart node p v u)) in
      let size = w.size in
      let top = pull-Covers f w.after node s e mid p (omega arith) m q w.covers right in
      record {
        after = top.after;
        returns = top.returns;
        size = top.size ∙ size;
        covers = top.covers;
        frame = λ x out. top.frame x out ∙ w.frame x (λ u. out (Under-left node u));
      }

  pull_right :
      0 < node
      → node < length t
      → mid ≡ (s + e) / 2
      → s < e
      → Covers f t (2 * node) s mid
      → (w : Written f t (2 * node + 1) (mid + 1) e o) → Written f t node s e (pull w.after node)
  pull_right p h m q c w =
      let left = Covers-frame f t w.after c (λ x u. w.frame x (λ v. Under-apart node p u v)) in
      let size = w.size in
      let top = pull-Covers f w.after node s e mid p (omega arith) m q left w.covers in
      record {
        after = top.after;
        returns = top.returns;
        size = top.size ∙ size;
        covers = top.covers;
        frame = λ x out. top.frame x out ∙ w.frame x (λ u. out (Under-right node u));
      }

node_inside : (f : ℕ → ℕ) (t : List ℕ) {node s e : ℕ} → Covers f t node s e → node < length t
node_inside f t c = get_elem?-inside t _ (root_sum f t c)

pub update-Covers :
    (fuel : ℕ) (f : ℕ → ℕ) (t : List ℕ) {node s e : ℕ} (idx val : ℕ)
    → Covers f t node s e
    → 0 < node
    → e - s < fuel
    → s ≤ idx
    → idx ≤ e
    → Written (changed f idx val) t node s e (update fuel t node s e idx val)
unfolding update
update-Covers zero f t idx val c p h q r = absurd (omega arith)
update-Covers (suc fuel) f t {node = node} {s = s} {e = e} idx val (leaf m k) p h q r =
    let here : (s == e) ≡ true = ground arith in
    let same : val ≡ changed f idx val s = ground arith in
    rw here
      (store-Covers (changed f idx val) t node s e val m same (node_inside f t (leaf {e = e} m k)))
update-Covers (suc fuel) f t {node = node} {s = s} {e = e} idx val (fork mid m n k a b) p h q r =
    let many : (s == e) ≡ false = ground arith in
    let inside = get_elem?-inside t node k in
    elim (dec_le idx mid) [
      | yes x ↦
          let way : leb idx mid ≡ true = ground arith in
          let w = update-Covers fuel f t idx val a (omega arith) (omega arith) q x in
          let kept = keep_after f t idx val b (omega arith) in
          rw (← m, many, way, w.returns)
            (pull_left (changed f idx val) t node s e mid p inside m n w kept)
      | no x ↦
          let way : leb idx mid ≡ false = ground arith in
          let w = update-Covers fuel f t idx val b (omega arith) (omega arith) (omega arith) r in
          let kept = keep_before f t idx val a (omega arith) in
          rw (← m, many, way, w.returns)
            (pull_right (changed f idx val) t node s e mid p inside m n kept w)
    ]

update_clamps :
    (fuel : ℕ) (t : List ℕ) (node s e idx val : ℕ)
    → s ≤ e
    → e ≤ idx
    → update fuel t node s e idx val ≡ update fuel t node s e e val
unfolding update
update_clamps zero t node s e idx val p q = refl
update_clamps (suc fuel) t node s e idx val p q = elim (ℕ_discrete s e) [
  | yes x ↦ let here : (s == e) ≡ true = ground arith in rw here refl
  | no x ↦
      let many : (s == e) ≡ false = ground arith in
      let way : leb idx ((s + e) / 2) ≡ false = ground arith in
      let last : leb e ((s + e) / 2) ≡ false = ground arith in
      rw
        (
          many,
          way,
          last,
          update_clamps fuel t (2 * node + 1) ((s + e) / 2 + 1) e idx val (omega arith) q,
        )
        refl
]

-- `Update` at an index from the last position on, past the end of the array too, does what it does
-- at the last position.
pub update_at-clamps :
    (st : SegmentTree) (idx val : ℕ)
    → st.n - 1 ≤ idx
    → update_at st idx val ≡ update_at st (st.n - 1) val
unfolding update_at
update_at-clamps st idx val h =
    rw (update_clamps (2 * st.n) st.tree 1 0 (st.n - 1) idx val (omega arith) h) refl
