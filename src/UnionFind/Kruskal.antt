-- ===== src/UnionFind/Kruskal.antt =====
-- `kruskalMST` of src/09_dsa/06_union_find/main.go.
-- A weight is an int as its 64-bit pattern: sums wrap, and the comparison reads the sign. In the
-- insertion sort the part of the slice before an edge is a list from the nearest neighbour on.
pub mod Order
pub mod Links
pub mod Spanning
mod Examples
use grin_with_golang.UnionFind.{make_all, new, union, UnionFind}
use grin_with_golang.Words.{add64, word}
use grin_with_golang.Prelude.{
  List, [], ◌∷◌, ◌++◌, ℕ, Option, some, Bool, ◌&&◌, if◌then◌else◌, length, ltb, ◌==◌, ◌>>=◌, ◌+◌,
  ◌%◌, ◌^◌,
}

pub record Edge (T : Type 0) : Type 0 where
  pub from : T
  pub to : T
  pub weight : ℕ

-- the place of a 64-bit pattern in the order of signed ints
unfoldable pub signed : ℕ → ℕ
signed w = (w + 2 ^ 63) % word

module _ {T : Type 0} where
  abbrev pub key : Edge T → ℕ
  key e = signed e.weight

  abbrev pub lighter : Edge T → Edge T → Bool
  lighter e f = ltb (key e) (key f)

  -- the inner loop: the edge moves past heavier ones
  unfoldable pub sink : Edge T → List (Edge T) → List (Edge T)
  sink e [] = e ∷ []
  sink e (f ∷ before) = let rest = sink e before in if lighter e f then f ∷ rest else e ∷ f ∷ before

  -- the outer loop
  unfoldable pub sort_from : List (Edge T) → List (Edge T) → List (Edge T)
  sort_from before [] = before
  sort_from before (e ∷ es) = sort_from (sink e before) es

  -- the part before the end, read from its start
  unfoldable pub forwards : List (Edge T) → List (Edge T) → List (Edge T)
  forwards [] after = after
  forwards (e ∷ before) after = forwards before (e ∷ after)

  unfoldable pub sorted : List (Edge T) → List (Edge T)
  sorted edges = forwards (sort_from [] edges) []

module _ {T : Type 0} (dec : Discrete T) (missing : T) where
  -- the loop over the sorted edges, with the number of nodes
  unfoldable pub grow :
      ℕ → ℕ → UnionFind T → List (Edge T) → ℕ → List (Edge T) → Option (List (Edge T) × ℕ)
  grow fuel nodes uf mst total_weight [] = some (mst, total_weight)
  grow fuel nodes uf mst total_weight (e ∷ es) = union dec missing fuel e.from e.to uf >>= λ r.
      let next : List (Edge T) × ℕ =
        if r.1 then (mst ++ e ∷ [], add64 total_weight e.weight) else (mst, total_weight) in
      let rest = grow fuel nodes r.0 next.0 next.1 es in
      if r.1 && length next.0 + 1 == nodes then some next else rest

  unfoldable pub kruskal_mst : ℕ → List T → List (Edge T) → Option (List (Edge T) × ℕ)
  kruskal_mst fuel nodes edges =
      grow fuel (length nodes) (make_all dec missing nodes new) [] 0 (sorted edges)
