-- ===== src/SegmentTree/Examples.antt =====
-- The segment tree at concrete arrays and updates.
use grin_with_golang.Prelude.{◌>>=◌, List, ◌≡◌, [], arith, refl, some, ℕ, ◌%◌, ◌∷◌, set}
use grin_with_golang.SegmentTree.{new, query_range, update_at}
use grin_with_golang.SegmentTree.Session.{
  AllWords, AllWithin, total, cons, edit_all, nil, query_range-session,
}
use grin_with_golang.Words.{word}
use grin_with_golang.SegmentTree.Session.{update_all}
use grin_with_golang.SegmentTree.Overrun.{update_past_end}

abbrev numbers : List ℕ
numbers = 1 ∷ 3 ∷ 5 ∷ 7 ∷ 9 ∷ 11 ∷ []

abbrev edits : List (ℕ × ℕ)
edits = (2, 10) ∷ (5, 0) ∷ []

numbers-AllWords : AllWords numbers
numbers-AllWords = cons (omega arith) (
    cons (omega arith)
      (cons (omega arith) (cons (omega arith) (cons (omega arith) (cons (omega arith) nil)))))

edits-AllWithin : AllWithin 6 edits
edits-AllWithin =
    AllWithin.cons (omega arith) (omega arith)
      (AllWithin.cons (omega arith) (omega arith) AllWithin.nil)

query_range-session_example :
    (new numbers >>= λ st. update_all st edits >>= λ st'. query_range st' 1 3)
    ≡ some (total (edit_all numbers edits) 0 1 3 % word)
query_range-session_example = query_range-session numbers edits 1 3 numbers-AllWords edits-AllWithin

-- the sum of 3, 10 and 7
total_of_edited : total (edit_all numbers edits) 0 1 3 ≡ 20
unfolding total edit_all
total_of_edited = refl

update_past_end_example :
    (new numbers >>= λ st.
    update_all st edits >>= λ st'. update_at st' 9 100 >>= λ st''. query_range st'' 4 9)
    ≡ some (total (set (edit_all numbers edits) 5 100) 0 4 9 % word)
update_past_end_example =
    update_past_end numbers edits 9 100 4 9 numbers-AllWords edits-AllWithin (omega arith)
      (omega arith) (omega arith)
