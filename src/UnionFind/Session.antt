-- ===== src/UnionFind/Session.antt =====
-- Calls of Union and Connected on the elements that MakeSet made, src/09_dsa/06_union_find.
use grin_with_golang.UnionFind.{
  UnionFind, new, make_set, make_all, union, connected, more, value, List, [],
}
use grin_with_golang.UnionFind.Linked.{Linked, Plus, Linked-Plus, Linked-label}
use grin_with_golang.UnionFind.Roots.{Up, value-insert}
use grin_with_golang.UnionFind.Elements.{
  member, Distinct, made, made-Distinct, member-made, length-made, count_of-all,
}
use grin_with_golang.UnionFind.Forest.{In, is_root}
use grin_with_golang.UnionFind.Partition.{
  IsPartition, UnionOutcome, union-IsPartition, connected-IsPartition,
}
use grin_with_golang.Prelude.Integers.{pos}
use mathlib.Core.Logic.{if_pos, if_neg}
use mathlib.Core.Bool.{false≢true}
use grin_with_golang.Prelude.{
  Bool, List, Option, [], ap, arith, false, inl, inr, none, refl, some, subst, sym, true, ℕ, ◌+◌,
  ◌<◌, ◌≡◌, ◌⊎◌, ◌∙◌, ◌∷◌, ◌>>=◌, if◌then◌else◌, length, Bool-cases,
}

-- one of the pairs
unfoldable pub Among : {T : Type 0} → List (T × T) → T → T → Type 0
Among [] x y = ⊥
Among (p ∷ ps) x y = Plus (Among ps) p.0 p.1 x y

-- a structure to which nothing but MakeSet was done, of `xs`
record IsFresh {T : Type 0} (dec : Discrete T) (xs : List T) (uf : UnionFind T) : Type 0 where
  own : (x : T) → In dec xs x → uf.parent x ≡ some x
  none_else : (x : T) → member dec x xs ≡ false → uf.parent x ≡ none
  low : (x : T) → value 0 (uf.rank x) ≡ 0
  counted : uf.count ≡ pos (length xs)

module _ {T : Type 0} (dec : Discrete T) (missing : T) where
  make_set-IsFresh :
      (x : T) (xs : List T) (uf : UnionFind T)
      → IsFresh dec xs uf
      → IsFresh dec (if member dec x xs then xs else x ∷ xs) (make_set dec missing x uf)
  unfolding make_set member
  make_set-IsFresh x xs uf f = elim (Bool-cases (member dec x xs)) [
    | inl old ↦ rw (old, make_set, f.own x old) f
    | inr fresh ↦
        rw (fresh, make_set, f.none_else x fresh)
          (record {
            own = λ y h. elim (dec x y) [
              | yes p ↦ if_pos (dec x y) p (some x) (uf.parent y) ∙ ap some p
              | no p ↦
                  if_neg (dec x y) p (some x) (uf.parent y)
                  ∙ f.own y (sym (if_neg (dec x y) p true (member dec y xs)) ∙ h)
            ];
            none_else = λ y h. elim (dec x y) [
              | yes p ↦ absurd (false≢true (sym h ∙ if_pos (dec x y) p true (member dec y xs)))
              | no p ↦
                  if_neg (dec x y) p (some x) (uf.parent y)
                  ∙ f.none_else y (sym (if_neg (dec x y) p true (member dec y xs)) ∙ h)
            ];
            low = λ y. elim (dec x y) [
              | yes p ↦
                  value-insert dec 0 x 0 y uf.rank ∙ if_pos (dec x y) p 0 (value 0 (uf.rank y))
              | no p ↦
                  value-insert dec 0 x 0 y uf.rank
                  ∙ if_neg (dec x y) p 0 (value 0 (uf.rank y))
                  ∙ f.low y
            ];
            counted = ap more f.counted ∙ ap pos (omega arith);
          })
  ]

  make_all-IsFresh :
      (nodes xs : List T) (uf : UnionFind T)
      → IsFresh dec xs uf
      → IsFresh dec (made dec nodes xs) (make_all dec missing nodes uf)
  unfolding make_all made
  make_all-IsFresh [] xs uf f = f
  make_all-IsFresh (x ∷ nodes) xs uf f =
      make_all-IsFresh nodes (if member dec x xs then xs else x ∷ xs) (make_set dec missing x uf)
        (make_set-IsFresh x xs uf f)

  new-IsFresh : IsFresh dec [] new
  unfolding member
  new-IsFresh = record {
    own = λ x h. absurd (false≢true h);
    none_else = λ x h. refl;
    low = λ x. refl;
    counted = refl;
  }

  -- No edges: every element is a set of its own.
  fresh-IsPartition :
      (xs : List T) (uf : UnionFind T)
      → IsFresh dec xs uf
      → IsPartition dec missing xs (Among []) uf (length xs)
  unfolding Among Up
  fresh-IsPartition xs uf f = record {
    label = λ x. x;
    forest = record {
      depth = λ x h. (0, omega arith, (refl, ap (value missing) (f.own x h)));
      closed = λ x h. h;
      counted = f.counted;
      roots = count_of-all dec (is_root dec (λ x. x)) xs (λ x. if_pos (dec x x) refl true false);
      ranks = λ x h. let e = f.low x in omega arith;
    };
    linked = λ x y a b e. subst (Linked (Among []) x) e Linked.here;
    kept = λ x y e. absurd e;
  }

  pub make_all-IsPartition :
      (nodes : List T)
      → IsPartition dec missing
          (made dec nodes [])
          (Among [])
          (make_all dec missing nodes new)
          (length (made dec nodes []))
  make_all-IsPartition nodes =
      fresh-IsPartition (made dec nodes []) (make_all dec missing nodes new)
        (make_all-IsFresh nodes [] new new-IsFresh)

pub data Call (T : Type 0) : Type 0 where
  union_call : T → T → Call T
  connected_call : T → T → Call T

-- both elements of every call are nodes
unfoldable pub AllIn : {T : Type 0} → Discrete T → List T → List (Call T) → Type 0
AllIn dec nodes [] = Unit
AllIn dec nodes (union_call x y ∷ calls) = In dec nodes x × In dec nodes y × AllIn dec nodes calls
AllIn dec nodes (connected_call x y ∷ calls) =
    In dec nodes x × In dec nodes y × AllIn dec nodes calls

-- The answers that the pairs of the unions before a call ask for: Connected tells whether they link
-- its elements, and Union whether they did not.
unfoldable pub Answers : {T : Type 0} → List (T × T) → List (Call T) → List Bool → Type 0
Answers pairs [] [] = Unit
Answers pairs (union_call x y ∷ calls) (b ∷ bs) =
    ((b ≡ true × (¬ Linked (Among pairs) x y)) ⊎ (b ≡ false × Linked (Among pairs) x y))
    × Answers ((x, y) ∷ pairs) calls bs
Answers pairs (connected_call x y ∷ calls) (b ∷ bs) =
    ((b ≡ true × Linked (Among pairs) x y) ⊎ (b ≡ false × (¬ Linked (Among pairs) x y)))
    × Answers pairs calls bs
Answers pairs _ _ = ⊥

-- how many unions returned true
unfoldable pub merges : {T : Type 0} → List (Call T) → List Bool → ℕ
merges (union_call x y ∷ calls) (b ∷ bs) = (if b then 1 else 0) + merges calls bs
merges (connected_call x y ∷ calls) (b ∷ bs) = merges calls bs
merges _ _ = 0

module _ {T : Type 0} (dec : Discrete T) (missing : T) where
  unfoldable pub run : ℕ → List (Call T) → UnionFind T → Option (UnionFind T × List Bool)
  run fuel [] uf = some (uf, [])
  run fuel (union_call x y ∷ calls) uf = union dec missing fuel x y uf >>= λ r.
      run fuel calls r.0 >>= λ rest. some (rest.0, r.1 ∷ rest.1)
  run fuel (connected_call x y ∷ calls) uf = connected dec missing fuel x y uf >>= λ r.
      run fuel calls r.0 >>= λ rest. some (rest.0, r.1 ∷ rest.1)

  module _ (xs : List T) (distinct : Distinct dec xs) (fuel : ℕ) (enough : length xs < fuel) where
    Ran : List (T × T) → List (Call T) → UnionFind T → ℕ → Type 0
    Ran pairs calls uf sets =
        (uf1 : UnionFind T) × (answers : List Bool) × (run fuel calls uf ≡ some (uf1, answers))
        × Answers pairs calls answers
        × (left : ℕ) × (uf1.count ≡ pos left)
        × (left + merges calls answers ≡ sets)

    -- an edge that links nothing new
    absorb-IsPartition :
        (x y : T) (pairs : List (T × T)) (uf : UnionFind T) (sets : ℕ)
        → IsPartition dec missing xs (Among pairs) uf sets
        → Linked (Among pairs) x y
        → IsPartition dec missing xs (Among ((x, y) ∷ pairs)) uf sets
    unfolding Among
    absorb-IsPartition x y pairs uf sets p l = record {
      label = p.label;
      forest = p.forest;
      linked = λ u v a b e. Linked-Plus x y (p.linked u v a b e);
      kept = λ u v e. elim e [
        | inl old ↦ p.kept u v old
        | inr (xu, yv) ↦ ap p.label (sym xu) ∙ Linked-label p.label p.kept l ∙ ap p.label yv
      ];
    }

    run-Partition :
        (calls : List (Call T)) (pairs : List (T × T)) (uf : UnionFind T) (sets : ℕ)
        → IsPartition dec missing xs (Among pairs) uf sets
        → AllIn dec xs calls
        → Ran pairs calls uf sets
    unfolding Ran run Answers merges AllIn UnionOutcome Among
    run-Partition [] pairs uf sets p inside =
        (uf, [], refl, tt, sets, p.forest.counted, omega arith)
    run-Partition (union_call x y ∷ calls) pairs uf sets p (in_x, in_y, inside) =
        let (uf1, merged, ran, outcome) =
          union-IsPartition dec missing xs (Among pairs) fuel x y uf sets p distinct in_x in_y
            enough in
        elim outcome [
          | inl (not_merged, l, p1) ↦
              let (uf2, answers, ran2, right, left, counted, total) =
                run-Partition calls ((x, y) ∷ pairs) uf1 sets
                  (absorb-IsPartition x y pairs uf1 sets p1 l) inside in
              (
                uf2,
                merged ∷ answers,
                rw (run, ran, ran2) refl,
                (inr (not_merged, l), right),
                left,
                counted,
                rw not_merged (omega arith),
              )
          | inr (is_merged, apart, sets1, one_less, p1) ↦
              let (uf2, answers, ran2, right, left, counted, total) =
                run-Partition calls ((x, y) ∷ pairs) uf1 sets1 p1 inside in
              (
                uf2,
                merged ∷ answers,
                rw (run, ran, ran2) refl,
                (inl (is_merged, apart), right),
                left,
                counted,
                rw is_merged (omega arith),
              )
        ]
    run-Partition (connected_call x y ∷ calls) pairs uf sets p (in_x, in_y, inside) =
        let (uf1, answer, ran, p1, which) =
          connected-IsPartition dec missing xs (Among pairs) fuel x y uf sets p in_x in_y enough in
        let (uf2, answers, ran2, right, left, counted, total) =
          run-Partition calls pairs uf1 sets p1 inside in
        (uf2, answer ∷ answers, rw (run, ran, ran2) refl, (which, right), left, counted, total)

  AllIn-made :
      (nodes : List T) (calls : List (Call T))
      → AllIn dec nodes calls
      → AllIn dec (made dec nodes []) calls
  unfolding AllIn
  AllIn-made nodes [] h = h
  AllIn-made nodes (union_call x y ∷ calls) (a, b, h) =
      (member-made dec x nodes [] a, member-made dec y nodes [] b, AllIn-made nodes calls h)
  AllIn-made nodes (connected_call x y ∷ calls) (a, b, h) =
      (member-made dec x nodes [] a, member-made dec y nodes [] b, AllIn-made nodes calls h)

  -- After MakeSet of the nodes, every sequence of calls of Union and Connected on nodes returns, on fuel
  -- above the number of nodes. Connected answers whether the pairs of the unions before it link its
  -- elements, and Union whether they did not; the count and the unions that returned true are together
  -- as many as the different nodes.
  pub run-Answers :
      (nodes : List T) (calls : List (Call T)) (fuel : ℕ)
      → AllIn dec nodes calls
      → length nodes < fuel
      → (uf : UnionFind T) × (answers : List Bool) × (run fuel calls
            (make_all dec missing nodes new)
          ≡ some (uf, answers))
        × Answers [] calls answers
        × (left : ℕ) × (uf.count ≡ pos left)
        × (left + merges calls answers ≡ length (made dec nodes []))
  unfolding Ran Distinct
  run-Answers nodes calls fuel inside enough =
      let few = length-made dec nodes [] in
      run-Partition (made dec nodes []) (made-Distinct dec nodes [] tt) fuel (ground arith) calls []
        (make_all dec missing nodes new) (length (made dec nodes []))
        (make_all-IsPartition dec missing nodes) (AllIn-made nodes calls inside)
