-- ===== src/SegmentTree/Build.antt =====
-- `build` of src/09_dsa/07_segment_tree, and what it writes.
use grin_with_golang.Prelude.{
  List, Option, ap, arith, false, refl, some, subst, suc, sym, true, zero, ℕ, ℕ_discrete, ◌+◌, ◌-◌,
  ◌*◌, ◌/◌, ◌^◌, ◌≤◌, ◌<◌, ◌≡◌, ◌≢◌, ◌∙◌, ◌==◌, length, get_elem?, get_or, set, store, length-set,
  get_elem?-get_or, get_elem?-set, store-some,
}
use grin_with_golang.SegmentTree.{pull, add64, build}
use grin_with_golang.SegmentTree.Shape.{Covers, leaf, seg-halves, root_sum, fork, Covers-frame}
use grin_with_golang.SegmentTree.Heap.{
  Under, Under-self, not-Under_children, Under-apart, Under-right, Under-left,
}
use grin_with_golang.SegmentTree.Sum.{seg}
use native.Mathlib.Nat.{mul-le-mul_left, pow-succ'}
use grin_with_golang.Bits.Mask.{pow_pos}

-- What a write of the subtree at a node leaves: a tree of the same length that holds the sums of
-- `f` at the node and below it, and is as before elsewhere.
pub record Written (f : ℕ → ℕ) (t : List ℕ) (node s e : ℕ) (o : Option (List ℕ)) : Type 0 where
  pub after : List ℕ
  pub returns : o ≡ some after
  pub size : length after ≡ length t
  pub covers : Covers f after node s e
  pub frame : (x : ℕ) → (Under node x → ⊥) → get_elem? after x ≡ get_elem? t x

pub other_slot :
    (t : List ℕ) (i j v : ℕ) → i < length t → i ≢ j → get_elem? (set t i v) j ≡ get_elem? t j
other_slot t i j v h p =
    let far : (i == j) ≡ false = ground arith in get_elem?-set t i j v h ∙ rw far refl

pub this_slot : (t : List ℕ) (i v : ℕ) → i < length t → get_elem? (set t i v) i ≡ some v
this_slot t i v h =
    let near : (i == i) ≡ true = ground arith in get_elem?-set t i i v h ∙ rw near refl

-- the slots outside a subtree do not include its node
not_node : (node : ℕ) {x : ℕ} → (Under node x → ⊥) → node ≢ x
not_node node out p = out (subst (λ y. Under node y) p (Under-self node))

not_below : (node c : ℕ) {x : ℕ} → (Under c node → ⊥) → Under c x → node ≢ x
not_below node c out u p = out (subst (λ y. Under c y) (sym p) u)

pub store-Covers :
    (f : ℕ → ℕ) (t : List ℕ) (node s e v : ℕ)
    → s ≡ e
    → v ≡ f s
    → node < length t
    → Written f t node s e (store t node v)
store-Covers f t node s e v p q h = record {
  after = set t node v;
  returns = store-some t node v h;
  size = length-set t node v;
  covers = leaf p (this_slot t node v h ∙ ap some q);
  frame = λ x out. other_slot t node x v h (not_node node out);
}

pub pull-Covers :
    (f : ℕ → ℕ) (t : List ℕ) (node s e mid : ℕ)
    → 0 < node
    → node < length t
    → mid ≡ (s + e) / 2
    → s < e
    → Covers f t (2 * node) s mid
    → Covers f t (2 * node + 1) (mid + 1) e
    → Written f t node s e (pull t node)
unfolding pull
pull-Covers f t node s e mid p h m q a b =
    let v = add64 (seg f s (mid - s)) (seg f (mid + 1) (e - (mid + 1))) in
    let sum : some v ≡ some (seg f s (e - s)) =
      ap some (sym (seg-halves f s mid e (omega arith) (omega arith))) in
    let out = not-Under_children node p in
    record {
      after = set t node v;
      returns = rw (root_sum f t a, root_sum f t b) (store-some t node v h);
      size = length-set t node v;
      covers =
          fork mid m q (this_slot t node v h ∙ sum)
            (Covers-frame f t (set t node v) a
              (λ x u. other_slot t node x v h (not_below node (2 * node) out.0 u)))
            (Covers-frame f t (set t node v) b
              (λ x u. other_slot t node x v h (not_below node (2 * node + 1) out.1 u)));
      frame = λ x o. other_slot t node x v h (not_node node o);
    }

pub fork-Covers :
    (f : ℕ → ℕ) (t : List ℕ) (node s e mid : ℕ) {o1 o2 : Option (List ℕ)}
    → 0 < node
    → node < length t
    → mid ≡ (s + e) / 2
    → s < e
    → (first : Written f t (2 * node) s mid o1)
    → (second : Written f first.after (2 * node + 1) (mid + 1) e o2)
    → Written f t node s e (pull second.after node)
fork-Covers f t node s e mid p h m q first second =
    let left =
      Covers-frame f first.after second.after first.covers
        (λ x u. second.frame x (Under-apart node p u)) in
    let size = second.size ∙ first.size in
    let top = pull-Covers f second.after node s e mid p (omega arith) m q left second.covers in
    record {
      after = top.after;
      returns = top.returns;
      size = top.size ∙ size;
      covers = top.covers;
      frame = λ x o.
          top.frame x o
          ∙ second.frame x (λ u. o (Under-right node u))
          ∙ first.frame x (λ u. o (Under-left node u));
    }

room : (node b len : ℕ) → (node + 1) * 2 ^ b ≤ len → node < len
room node b len h = omega (arith, mul-le-mul_left (node + 1) (pow_pos b))

room_left : (node b len : ℕ) → (node + 1) * 2 ^ suc b ≤ len → (2 * node + 1) * 2 ^ b ≤ len
room_left node b len h = let h' = rw pow-succ' at h in omega arith

room_right : (node b len : ℕ) → (node + 1) * 2 ^ suc b ≤ len → (2 * node + 1 + 1) * 2 ^ b ≤ len
room_right node b len h = let h' = rw pow-succ' at h in omega arith

build_leaf :
    (fuel : ℕ) (arr t : List ℕ) (node s e : ℕ)
    → s ≡ e
    → e < length arr
    → node < length t
    → Written (λ i. get_or arr i 0) t node s e (build (suc fuel) arr t node s e)
unfolding build
build_leaf fuel arr t node s e p h r =
    let one : (s == e) ≡ true = ground arith in
    rw (one, get_elem?-get_or arr s 0 (omega arith))
      (store-Covers (λ i. get_or arr i 0) t node s e (get_or arr s 0) p refl r)

-- A subtree over fewer than 2 ^ b positions needs b levels of slots and of fuel.
pub build-Covers :
    (fuel b : ℕ) (arr t : List ℕ) (node s e : ℕ)
    → 0 < node
    → s ≤ e
    → e < length arr
    → e - s < 2 ^ b
    → (node + 1) * 2 ^ b ≤ length t
    → b < fuel
    → Written (λ i. get_or arr i 0) t node s e (build fuel arr t node s e)
unfolding build
build-Covers zero b arr t node s e p q h k r o = absurd (omega arith)
build-Covers (suc fuel) zero arr t node s e p q h k r o =
    build_leaf fuel arr t node s e (omega arith) h (omega arith)
build-Covers (suc fuel) (suc b) arr t node s e p q h k r o = elim (ℕ_discrete s e) [
  | yes x ↦ build_leaf fuel arr t node s e x h (room node (suc b) (length t) r)
  | no x ↦
      let mid = (s + e) / 2 in
      let k' = rw pow-succ' at k in
      let many : (s == e) ≡ false = ground arith in
      let first =
        build-Covers fuel b arr t (2 * node) s mid (omega arith) (omega arith) (omega arith)
          (omega arith) (room_left node b (length t) r) (omega arith) in
      let second =
        build-Covers fuel b arr first.after (2 * node + 1) (mid + 1) e (omega arith) (omega arith) h
          (omega arith) (omega (arith, first.size, room_right node b (length t) r)) (omega arith) in
      rw (many, first.returns, second.returns)
        (fork-Covers (λ i. get_or arr i 0) t node s e mid p (room node (suc b) (length t) r) refl
          (omega arith) first second)
]
