-- ===== src/SegmentTree/Overrun.antt =====
-- Updates past the end of the array of src/09_dsa/07_segment_tree.
use grin_with_golang.SegmentTree.{SegmentTree, new, update_at, query_range, List}
use grin_with_golang.SegmentTree.Update.{update_at-clamps}
use grin_with_golang.SegmentTree.Session.{
  AllWords, AllWithin, cons, IsTreeOf, new-IsTreeOf, update_at-IsTreeOf, query_range-IsTreeOf,
  update_all, edit_all, total, set-AllWords,
}
use grin_with_golang.Words.{word}
use grin_with_golang.Prelude.{
  List, [], ap, arith, some, ℕ, ◌-◌, ◌%◌, ◌≤◌, ◌<◌, ◌≡◌, ◌∙◌, ◌∷◌, ◌>>=◌, length, set, length-set,
}

past_end_after :
    (arr : List ℕ) (st : SegmentTree) (us : List (ℕ × ℕ)) (idx val l r : ℕ)
    → IsTreeOf arr st
    → AllWords arr
    → AllWithin (length arr) us
    → 0 < length arr
    → length arr ≤ idx
    → val < word
    → (update_all st us >>= λ st'. update_at st' idx val >>= λ st''. query_range st'' l r)
      ≡ some (total (set (edit_all arr us) (length arr - 1) val) 0 l r % word)
unfolding update_all edit_all
past_end_after arr st [] idx val l r c ws us some_elements past small =
    let last = length arr - 1 in
    let (st', ran, c') = update_at-IsTreeOf arr st last val c (omega arith) in
    let size : st.n - 1 ≡ last = let n = c.size in omega arith in
    let clamped = update_at-clamps st idx val (let n = c.size in omega arith) in
    let done = clamped ∙ ap (λ i. update_at st i val) size ∙ ran in
    rw done (query_range-IsTreeOf (set arr last val) st' l r c' (set-AllWords last val ws small))
past_end_after arr st ((i, v) ∷ us) idx val l r c ws (cons p q ps) some_elements past small =
    let (st', ran, c') = update_at-IsTreeOf arr st i v c p in
    let size = length-set arr i v in
    let ps' = rw (← size) at ps in
    let more =
      past_end_after (set arr i v) st' us idx val l r c' (set-AllWords i v ws q) ps' (omega arith)
        (omega arith) small in
    rw ran (
      more ∙ ap (λ n. some (total (set (edit_all (set arr i v) us) (n - 1) val) 0 l r % word)) size)

-- From the construction on, for a non-empty array and a run of updates whose indices are within the
-- array, with all values below 2 ^ 64, an `Update` at an index past the end returns: a query after it
-- is answered with the sum of the array in which the last element has the new value, modulo 2 ^ 64.
-- The index neither panics nor is ignored, it changes the last element.
pub update_past_end :
    (arr : List ℕ) (us : List (ℕ × ℕ)) (idx val l r : ℕ)
    → AllWords arr
    → AllWithin (length arr) us
    → 0 < length arr
    → length arr ≤ idx
    → val < word
    → (new arr >>= λ st.
        update_all st us >>= λ st'. update_at st' idx val >>= λ st''. query_range st'' l r)
      ≡ some (total (set (edit_all arr us) (length arr - 1) val) 0 l r % word)
update_past_end arr us idx val l r ws ps some_elements past small =
    let (st, made, c) = new-IsTreeOf arr in
    rw made (past_end_after arr st us idx val l r c ws ps some_elements past small)
