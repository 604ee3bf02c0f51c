-- ===== src/SegmentTree/Session.antt =====
-- A segment tree of src/09_dsa/07_segment_tree from its construction on: updates and queries, and
-- the sums of a list.
use grin_with_golang.Prelude.{
  List, Option, [], ap, arith, dec_lt, false, refl, some, suc, sym, true, zero, ℕ, ◌+◌, ◌-◌, ◌*◌,
  ◌%◌, ◌^◌, ◌≤◌, ◌<◌, ◌≡◌, ◌∙◌, ◌&&◌, ◌∷◌, ◌==◌, ◌>>=◌, if◌then◌else◌, ltb, leb, length, get_or,
  set, replicate, length-set, length-replicate, get_or-set,
}
use grin_with_golang.SegmentTree.Sum.{seg, within}
use grin_with_golang.SegmentTree.{new, update_at, query_range, build, update}
use grin_with_golang.Words.{word}
use native.Mathlib.Nat.{pow-succ', add-zero, zero-add}
use grin_with_golang.SegmentTree.{SegmentTree}
use grin_with_golang.SegmentTree.Shape.{Covers, Covers-congr}
use grin_with_golang.SegmentTree.Build.{build-Covers}
use grin_with_golang.SegmentTree.Update.{changed, update-Covers}
use grin_with_golang.SegmentTree.Query.{query_sum}

-- the sum of the elements at positions `l` to `r` of a list that starts at position `i`
unfoldable pub total : List ℕ → ℕ → ℕ → ℕ → ℕ
total [] i l r = 0
total (x ∷ xs) i l r = (if leb l i && leb i r then x else 0) + total xs (suc i) l r

pub data AllWords : List ℕ → Type 0 where
  nil : AllWords []
  cons : {x : ℕ} {xs : List ℕ} → x < word → AllWords xs → AllWords (x ∷ xs)

seg-total :
    (x : ℕ) (xs : List ℕ) (f : ℕ → ℕ) (i l r : ℕ)
    → AllWords (x ∷ xs)
    → ((j : ℕ) → j < length (x ∷ xs) → f (i + j) ≡ get_or (x ∷ xs) j 0)
    → seg (within l r f) i (length xs) ≡ total (x ∷ xs) i l r % word
unfolding seg total
seg-total x [] f i l r (cons p nil) h = let e = rw add-zero at (h 0 (omega arith)) in ground arith
seg-total x (y ∷ xs) f i l r (cons p ps) h =
    let e = rw add-zero at (h 0 (omega arith)) in
    let rest = seg-total y xs f (suc i) l r ps (λ j q.
      let shift : suc i + j ≡ i + suc j = omega arith in ap f shift ∙ h (suc j) (omega arith)) in
    rw (rest, e) (omega arith)

power_above : (n : ℕ) → (b : ℕ) × (suc n ≤ 2 ^ b) × (2 ^ b < 2 * suc n)
power_above zero = (0, omega arith, omega arith)
power_above (suc n) =
    let (b, p, q) = power_above n in
    elim (dec_lt (suc n) (2 ^ b)) [
      | yes h ↦ (b, omega arith, omega arith)
      | no h ↦ (suc b, rw pow-succ' (omega arith), rw pow-succ' (omega arith))
    ]

below_power : (b : ℕ) → b < 2 ^ b
below_power zero = omega arith
below_power (suc b) = rw pow-succ' (omega (arith, below_power b))

-- The tree of an array: its length, and the sums of the array at every node.
pub record IsTreeOf (arr : List ℕ) (st : SegmentTree) : Type 0 where
  pub size : st.n ≡ length arr
  pub sums : 0 < st.n → Covers (λ i. get_or arr i 0) st.tree 1 0 (st.n - 1)

pub new-IsTreeOf : (arr : List ℕ) → (st : SegmentTree) × (new arr ≡ some st) × IsTreeOf arr st
unfolding new
new-IsTreeOf [] =
    (record { tree = []; n = 0 }, refl, record { size = refl; sums = λ h. absurd (omega arith) })
new-IsTreeOf (x ∷ xs) =
    let arr = x ∷ xs in
    let n = suc (length xs) in
    let t : List ℕ = replicate (4 * n) 0 in
    let (b, p, q) = power_above (length xs) in
    let w =
      build-Covers (2 * n) b arr t 1 0 (n - 1) (omega arith) (omega arith) (omega arith)
        (omega arith) (omega (arith, length-replicate {A = ℕ} (4 * n) 0))
        (omega (arith, below_power b)) in
    let here : ltb 0 n ≡ true = ground arith in
    let made : build (2 * n) arr t 1 0 (n - 1) ≡ some w.after = w.returns in
    (
      record { tree = w.after; n = n },
      rw (here, made) refl,
      record { size = refl; sums = λ h. w.covers },
    )

changed-set :
    (arr : List ℕ) (idx val i : ℕ)
    → idx < length arr
    → changed (λ j. get_or arr j 0) idx val i ≡ get_or (set arr idx val) i 0
changed-set arr idx val i h = sym (get_or-set arr idx i val 0 h)

-- An update within the array returns, and leaves the tree of the changed array.
pub update_at-IsTreeOf :
    (arr : List ℕ) (st : SegmentTree) (idx val : ℕ)
    → IsTreeOf arr st
    → idx < length arr
    → (st' : SegmentTree) × (update_at st idx val ≡ some st') × IsTreeOf (set arr idx val) st'
unfolding update_at
update_at-IsTreeOf arr st idx val c h =
    let size = c.size in
    let some_elements : (st.n == 0) ≡ false = ground arith in
    let w =
      update-Covers (2 * st.n) (λ i. get_or arr i 0) st.tree idx val (c.sums (omega arith))
        (omega arith) (omega arith) (omega arith) (omega arith) in
    let done : update (2 * st.n) st.tree 1 0 (st.n - 1) idx val ≡ some w.after = w.returns in
    (
      record { tree = w.after; n = st.n },
      rw (some_elements, done) refl,
      record {
        size = size ∙ sym (length-set arr idx val);
        sums = λ p.
            Covers-congr (changed (λ i. get_or arr i 0) idx val) (λ i. get_or (set arr idx val) i 0)
              w.after w.covers (λ i _ _. changed-set arr idx val i h);
      },
    )

pub query_range-IsTreeOf :
    (arr : List ℕ) (st : SegmentTree) (l r : ℕ)
    → IsTreeOf arr st
    → AllWords arr
    → query_range st l r ≡ some (total arr 0 l r % word)
unfolding query_range total
query_range-IsTreeOf [] st l r c words =
    let size = c.size in let empty : (st.n == 0) ≡ true = ground arith in rw empty refl
query_range-IsTreeOf (x ∷ xs) st l r c words =
    let size = c.size in
    let some_elements : (st.n == 0) ≡ false = ground arith in
    let last : st.n - 1 ≡ length xs = omega arith in
    let sums = rw last at (c.sums (omega arith)) in
    let f : ℕ → ℕ = λ i. get_or (x ∷ xs) i 0 in
    let whole : length xs - 0 ≡ length xs = omega arith in
    let sum : seg (within l r f) 0 (length xs) ≡ total (x ∷ xs) 0 l r % word =
      seg-total x xs f 0 l r words (λ j p. ap f (zero-add j)) in
    rw (some_elements, last)
      (query_sum (2 * st.n) f st.tree l r sums (omega arith) (omega arith) ∙ rw whole (ap some sum))

-- A run of updates, each an index and a value, and what it does to a list.
unfoldable pub update_all : SegmentTree → List (ℕ × ℕ) → Option SegmentTree
update_all st [] = some st
update_all st ((idx, val) ∷ us) = update_at st idx val >>= λ st'. update_all st' us

unfoldable pub edit_all : List ℕ → List (ℕ × ℕ) → List ℕ
edit_all arr [] = arr
edit_all arr ((idx, val) ∷ us) = edit_all (set arr idx val) us

-- Updates within a list of `n` elements, with values that a Go int can hold.
pub data AllWithin (n : ℕ) : List (ℕ × ℕ) → Type 0 where
  nil : AllWithin n []
  cons :
      {idx val : ℕ} {us : List (ℕ × ℕ)}
      → idx < n
      → val < word
      → AllWithin n us
      → AllWithin n ((idx, val) ∷ us)

pub set-AllWords :
    {arr : List ℕ} (idx val : ℕ) → AllWords arr → val < word → AllWords (set arr idx val)
set-AllWords idx val nil h = nil
set-AllWords zero val (cons p ps) h = cons h ps
set-AllWords (suc idx) val (cons p ps) h = cons p (set-AllWords idx val ps h)

query_after_updates :
    (arr : List ℕ) (st : SegmentTree) (us : List (ℕ × ℕ)) (l r : ℕ)
    → IsTreeOf arr st
    → AllWords arr
    → AllWithin (length arr) us
    → (update_all st us >>= λ st'. query_range st' l r)
      ≡ some (total (edit_all arr us) 0 l r % word)
unfolding update_all edit_all
query_after_updates arr st [] l r c ws us = query_range-IsTreeOf arr st l r c ws
query_after_updates arr st ((idx, val) ∷ us) l r c ws (cons p q ps) =
    let (st', ran, c') = update_at-IsTreeOf arr st idx val c p in
    let ps' = rw (← length-set arr idx val) at ps in
    rw ran (query_after_updates (set arr idx val) st' us l r c' (set-AllWords idx val ws q) ps')

-- From the construction on, for an array and a run of updates whose indices are within the array
-- and whose values are below 2 ^ 64: construction, updates and query all return, none of them
-- panics or runs out of fuel, and the query's result is, for every `l` and `r`, the sum of the
-- current elements at the positions `l` to `r`, reduced modulo 2 ^ 64.
pub query_range-session :
    (arr : List ℕ) (us : List (ℕ × ℕ)) (l r : ℕ)
    → AllWords arr
    → AllWithin (length arr) us
    → (new arr >>= λ st. update_all st us >>= λ st'. query_range st' l r)
      ≡ some (total (edit_all arr us) 0 l r % word)
query_range-session arr us l r ws ps =
    let (st, made, c) = new-IsTreeOf arr in rw made (query_after_updates arr st us l r c ws ps)
