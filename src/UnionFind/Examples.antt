-- ===== src/UnionFind/Examples.antt =====
-- A forest of five elements, of which one is alone, and runs from the empty structure.
use grin_with_golang.UnionFind.{
  UnionFind, new, make_set, parent_of, find, link, union, connected, ℕ,
}
use grin_with_golang.UnionFind.{make_all}
use grin_with_golang.UnionFind.Elements.{member, made}
use grin_with_golang.UnionFind.Session.{
  Call, union_call, connected_call, AllIn, Answers, merges, run, run-Answers,
}
use grin_with_golang.UnionFind.Roots.{Up}
use grin_with_golang.Prelude.Integers.{ℤ, pos}
use grin_with_golang.Prelude.{
  ℕ_discrete, Bool, Option, arith, none, refl, some, true, ℕ, ◌≡◌, ◌||◌, ◌==◌, ◌>>=◌, if◌then◌else◌,
  List, [], ◌+◌, ◌∷◌, length,
}

-- 4 hangs below 3, 3 and 2 below 1; 6 is alone
abbrev par : ℕ → Option ℕ
par x =
    if x == 4
    then some 3
    else if x == 3 || x == 2 || x == 1
    then some 1
    else if x == 6
    then some 6
    else none

abbrev forest : UnionFind ℕ
forest = record { parent = par; rank = λ x. some (if x == 1 then 2 else 0); count = pos 2 }

three≢four : ¬ (◌≡◌ {A = ℕ} 3 4)
three≢four e = omega arith

one≢three : ¬ (◌≡◌ {A = ℕ} 1 3)
one≢three e = omega arith

four-Up : Up (parent_of ℕ_discrete 0 forest) 2 4 1
unfolding Up
four-Up = (λ e. absurd (three≢four e), (λ e. absurd (one≢three e), (refl, refl)))

six-Up : Up (parent_of ℕ_discrete 0 forest) 0 6 6
unfolding Up
six-Up = (refl, refl)

-- the result of a union and of a question after it, and the count
abbrev two_unions : Option (Bool × Bool × ℤ)
two_unions =
    let uf = make_set ℕ_discrete 0 3 (make_set ℕ_discrete 0 2 (make_set ℕ_discrete 0 1 new)) in
    union ℕ_discrete 0 5 1 2 uf >>= λ r.
    connected ℕ_discrete 0 5 2 1 r.0 >>= λ c. some (r.1, c.1, c.0.count)

unions : two_unions ≡ some (true, true, pos 2)
unfolding union find make_set link connected ℕ_discrete
unions = refl

abbrev with_stranger : Option (Bool × ℤ)
with_stranger =
    union ℕ_discrete 0 5 1 7 (make_set ℕ_discrete 0 1 new) >>= λ r. some (r.1, r.0.count)

-- An element that was never made counts as the zero value, and the count of sets becomes 0.
stranger : with_stranger ≡ some (true, pos 0)
unfolding union find make_set link ℕ_discrete
stranger = refl

abbrev nodes : List ℕ
nodes = 1 ∷ 2 ∷ 3 ∷ 4 ∷ []

abbrev calls : List (Call ℕ)
calls =
    union_call 1 2 ∷ connected_call 1 3 ∷ union_call 3 2 ∷ connected_call 1 3 ∷ union_call 1 3 ∷ []

calls-AllIn : AllIn ℕ_discrete nodes calls
unfolding AllIn member ℕ_discrete
calls-AllIn = (refl, refl, (refl, refl, (refl, refl, (refl, refl, (refl, refl, tt)))))

run-Answers_example :
    (uf : UnionFind ℕ) × (answers : List Bool) × (run ℕ_discrete 0 5 calls
        (make_all ℕ_discrete 0 nodes new)
      ≡ some (uf, answers))
    × Answers [] calls answers
    × (left : ℕ) × (uf.count ≡ pos left)
    × (left + merges calls answers ≡ length (made ℕ_discrete nodes []))
run-Answers_example = run-Answers ℕ_discrete 0 nodes calls 5 calls-AllIn (omega arith)
