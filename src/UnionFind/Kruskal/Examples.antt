-- ===== src/UnionFind/Kruskal/Examples.antt =====
-- The graph of five nodes of `main`, its nodes as numbers and with an edge of negative weight.
use grin_with_golang.UnionFind.{find, union, make_set, make_all, link, ℕ, List}
use grin_with_golang.UnionFind.Linked.{Linked}
use grin_with_golang.UnionFind.Elements.{member}
use grin_with_golang.UnionFind.Kruskal.{
  Edge, sink, sort_from, forwards, sorted, grow, kruskal_mst, signed,
}
use grin_with_golang.UnionFind.Kruskal.Order.{Has}
use grin_with_golang.UnionFind.Kruskal.Links.{JoinsWithin, Acyclic, weights}
use grin_with_golang.UnionFind.Kruskal.Spanning.{EndsIn, kruskal_mst-spans}
use grin_with_golang.Prelude.{ℕ_discrete, List, [], arith, refl, some, ℕ, ◌-◌, ◌^◌, ◌≡◌, ◌∷◌}

abbrev edge : ℕ → ℕ → ℕ → Edge ℕ
edge a b w = record { from = a; to = b; weight = w }

abbrev nodes : List ℕ
nodes = 1 ∷ 2 ∷ 3 ∷ 4 ∷ []

-- the last weight is -5
abbrev edges : List (Edge ℕ)
edges = edge 1 2 4 ∷ edge 1 3 2 ∷ edge 2 3 1 ∷ edge 3 4 (2 ^ 64 - 5) ∷ []

ends : EndsIn ℕ_discrete nodes edges
unfolding EndsIn member ℕ_discrete
ends = (refl, refl, (refl, refl, (refl, refl, (refl, refl, tt))))

kruskal_mst-spans_example :
    (mst : List (Edge ℕ)) × (total : ℕ) × (kruskal_mst ℕ_discrete 0 5 nodes edges
      ≡ some (mst, total))
    × ((e : Edge ℕ) → Has e mst → Has e edges)
    × (total ≡ weights 0 mst)
    × Acyclic [] mst
    × ((e : Edge ℕ) → Has e edges → Linked (JoinsWithin mst e.weight) e.from e.to)
kruskal_mst-spans_example = kruskal_mst-spans ℕ_discrete 0 nodes edges 5 ends (omega arith)

-- the negative edge first, and the edge of weight 4 not at all; the weights sum to -2
tree_of_run :
    kruskal_mst ℕ_discrete 0 5 nodes edges
    ≡ some (edge 3 4 (2 ^ 64 - 5) ∷ edge 2 3 1 ∷ edge 1 3 2 ∷ [], 2 ^ 64 - 2)
unfolding kruskal_mst grow sorted sort_from sink forwards union find make_all make_set link signed
    ℕ_discrete
tree_of_run = refl
