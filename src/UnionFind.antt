-- ===== src/UnionFind.antt =====
-- The union-find structure of src/09_dsa/06_union_find/main.go.
-- `missing` is the zero value of the type of the elements, which a read of the map of parents gives
-- for an element that is not there; the zero of a missing rank is 0. `Find` recurses on fuel.
pub mod Roots
pub mod Merge
pub mod Linked
pub mod Elements
pub mod Forest
pub mod Partition
pub mod Session
pub mod Kruskal
mod Examples
use grin_with_golang.Prelude.{
  ◌≡◌, Bool, List, Option, [], false, none, not, refl, some, true, ℕ, zero, suc, ◌∷◌, ◌++◌, ◌>>=◌,
  if◌then◌else◌, ◌+◌, ltb,
}
use grin_with_golang.Prelude.Maps.{GoMap, make, insert}
use grin_with_golang.Prelude.Integers.{ℤ, pos, negsuc}
use mathlib.Core.Logic.{ite}

pub record UnionFind (T : Type 0) : Type 0 where
  pub parent : GoMap T T
  pub rank : GoMap T ℕ
  pub count : ℤ

abbrev pub new : {T : Type 0} → UnionFind T
new = record { parent = make; rank = make; count = pos 0 }

abbrev pub value : {A : Type 0} → A → Option A → A
value absent none = absent
value absent (some a) = a

-- `count++` and `count--`
abbrev pub more : ℤ → ℤ
more (pos n) = pos (n + 1)
more (negsuc zero) = pos 0
more (negsuc (suc n)) = negsuc n

abbrev pub fewer : ℤ → ℤ
fewer (pos zero) = negsuc 0
fewer (pos (suc n)) = pos n
fewer (negsuc n) = negsuc (n + 1)

module _ {T : Type 0} (dec : Discrete T) (missing : T) where
  unfoldable pub make_set : T → UnionFind T → UnionFind T
  make_set x uf = elim (uf.parent x) [
    | none ↦ record {
      parent = insert dec x x uf.parent;
      rank = insert dec x 0 uf.rank;
      count = more uf.count;
    }
    | some p ↦ uf
  ]

  -- `MakeSet` of every node, as in `kruskalMST`
  unfoldable pub make_all : List T → UnionFind T → UnionFind T
  make_all [] uf = uf
  make_all (n ∷ nodes) uf = make_all nodes (make_set n uf)

  abbrev pub parent_of : UnionFind T → T → T
  parent_of uf x = value missing (uf.parent x)

  unfoldable pub find : ℕ → T → UnionFind T → Option (UnionFind T × T)
  find zero x uf = none
  find (suc fuel) x uf =
      let above = find fuel (parent_of uf x) uf in
      ite (dec (parent_of uf x) x) (some (uf, parent_of uf x))
        (above >>= λ r. some (record r.0 { parent = insert dec x r.1 r.0.parent }, r.1))

  -- the branches of `Union` for two different roots
  unfoldable pub link : T → T → UnionFind T → UnionFind T
  link root_x root_y uf =
      let rank_x = value 0 (uf.rank root_x) in
      let rank_y = value 0 (uf.rank root_y) in
      if ltb rank_x rank_y
      then record uf { parent = insert dec root_x root_y uf.parent; count = fewer uf.count }
      else if ltb rank_y rank_x
      then record uf { parent = insert dec root_y root_x uf.parent; count = fewer uf.count }
      else record uf {
        parent = insert dec root_y root_x uf.parent;
        rank = insert dec root_x (rank_x + 1) uf.rank;
        count = fewer uf.count;
      }

  unfoldable pub union : ℕ → T → T → UnionFind T → Option (UnionFind T × Bool)
  union fuel x y uf = find fuel x uf >>= λ a.
      find fuel y a.0 >>= λ b. some (ite (dec a.1 b.1) (b.0, false) (link a.1 b.1 b.0, true))

  unfoldable pub connected : ℕ → T → T → UnionFind T → Option (UnionFind T × Bool)
  connected fuel x y uf =
      find fuel x uf >>= λ a. find fuel y a.0 >>= λ b. some (b.0, ite (dec a.1 b.1) true false)
