-- ===== src/UnionFind/Kruskal/Spanning.antt =====
-- The result of `kruskalMST`, src/09_dsa/06_union_find, against the edges of the graph.
use grin_with_golang.UnionFind.{UnionFind, new, make_all, List}
use grin_with_golang.UnionFind.Linked.{Linked, Plus, Linked-mono, along, here}
use grin_with_golang.UnionFind.Elements.{
  member, Distinct, made, made-Distinct, member-made, length-made, count_of-two,
}
use grin_with_golang.UnionFind.Forest.{In, is_root, label-root}
use grin_with_golang.UnionFind.Partition.{IsPartition, UnionOutcome, union-IsPartition}
use grin_with_golang.UnionFind.Session.{Among, make_all-IsPartition}
use grin_with_golang.UnionFind.Kruskal.{Edge, key, sorted, grow, kruskal_mst}
use grin_with_golang.UnionFind.Kruskal.Order.{
  Has, AtLeast, Ascending, AtLeast-Has, sorted-Ascending, sorted-Has,
}
use grin_with_golang.UnionFind.Kruskal.Links.{
  Joins, JoinsWithin, Acyclic, weights, weights-append, Acyclic-append, Has-append_left, Has-snoc,
  Has-snoc_cases, Joins-snoc, Joins-unsnoc, light_links, more_links,
}
use grin_with_golang.Words.{add64}
use mathlib.Core.Logic.{if_pos}
use grin_with_golang.Prelude.{
  List, [], ap, arith, false, inl, inr, refl, some, subst, sym, true, ℕ, ◌+◌, ◌≤◌, ◌<◌, ◌≡◌, ◌⊎◌,
  ◌∙◌, ◌∷◌, ◌++◌, ◌==◌, length, Bool-cases, length-append,
}

-- both ends of every edge are nodes
unfoldable pub EndsIn : {T : Type 0} → Discrete T → List T → List (Edge T) → Type 0
EndsIn dec nodes [] = Unit
EndsIn dec nodes (e ∷ es) = In dec nodes e.from × In dec nodes e.to × EndsIn dec nodes es

pub EndsIn-Has :
    {T : Type 0} (dec : Discrete T) (nodes : List T) (es : List (Edge T))
    → ((e : Edge T) → Has e es → In dec nodes e.from × In dec nodes e.to)
    → EndsIn dec nodes es
unfolding EndsIn Has
EndsIn-Has dec nodes [] h = tt
EndsIn-Has dec nodes (e ∷ es) h =
    let (a, b) = h e (inl refl) in (a, b, EndsIn-Has dec nodes es (λ f i. h f (inr i)))

pub Has-EndsIn :
    {T : Type 0} (dec : Discrete T) (nodes : List T) (es : List (Edge T))
    → EndsIn dec nodes es
    → (e : Edge T) → Has e es
    → In dec nodes e.from × In dec nodes e.to
unfolding EndsIn Has
Has-EndsIn dec nodes [] ends e h = absurd h
Has-EndsIn dec nodes (f ∷ es) (a, b, ends) e (inl same) = (
  ap (λ g. member dec g.from nodes) (sym same) ∙ a,
  ap (λ g. member dec g.to nodes) (sym same) ∙ b,
)
Has-EndsIn dec nodes (f ∷ es) (a, b, ends) e (inr later) = Has-EndsIn dec nodes es ends e later

-- what is to be had from the edges `es` and the edges `mst0` that were taken before them
pub record IsTreeFor {T : Type 0} (mst0 es mst : List (Edge T)) (total : ℕ) : Type 0 where
  pub extends : (f : Edge T) → Has f mst0 → Has f mst
  pub taken : (f : Edge T) → Has f mst → Has f mst0 ⊎ Has f es
  pub acyclic : Acyclic [] mst
  pub summed : total ≡ weights 0 mst
  pub spans : (e : Edge T) → Has e es → Linked (JoinsWithin mst e.weight) e.from e.to

module _ {T : Type 0} where
  skip_tree :
      (mst0 es mst : List (Edge T)) (e : Edge T) (total : ℕ)
      → IsTreeFor mst0 es mst total
      → Linked (JoinsWithin mst e.weight) e.from e.to
      → IsTreeFor mst0 (e ∷ es) mst total
  unfolding Has
  skip_tree mst0 es mst e total tree l = record {
    extends = tree.extends;
    taken = λ f h. elim (tree.taken f h) [ inl old ↦ inl old | inr later ↦ inr (inr later) ];
    acyclic = tree.acyclic;
    summed = tree.summed;
    spans = λ f h. elim h [
      | inl same ↦ subst (λ g. Linked (JoinsWithin mst g.weight) g.from g.to) same l
      | inr later ↦ tree.spans f later
    ];
  }

  take_tree :
      (mst0 es mst : List (Edge T)) (e : Edge T) (total : ℕ)
      → IsTreeFor (mst0 ++ e ∷ []) es mst total
      → IsTreeFor mst0 (e ∷ es) mst total
  unfolding Has JoinsWithin
  take_tree mst0 es mst e total tree = record {
    extends = λ f h. tree.extends f (Has-append_left f mst0 (e ∷ []) h);
    taken = λ f h. elim (tree.taken f h) [
      | inl old ↦ elim (Has-snoc_cases f e mst0 old) [
        | inl older ↦ inl older
        | inr same ↦ inr (inl same)
      ]
      | inr later ↦ inr (inr later)
    ];
    acyclic = tree.acyclic;
    summed = tree.summed;
    spans = λ f h. elim h [
      | inl same ↦
          subst (λ g. Linked (JoinsWithin mst g.weight) g.from g.to) same
            (along (e, tree.extends e (Has-snoc e mst0), omega arith, refl, refl) here)
      | inr later ↦ tree.spans f later
    ];
  }

  snoc_light :
      (mst : List (Edge T)) (e : Edge T) (es : List (Edge T))
      → ((f : Edge T) → Has f mst → AtLeast (key f) es)
      → AtLeast (key e) es
      → (f : Edge T) → Has f (mst ++ e ∷ [])
      → AtLeast (key f) es
  snoc_light mst e es light low f h = elim (Has-snoc_cases f e mst h) [
    | inl old ↦ light f old
    | inr same ↦ subst (λ g. AtLeast (key g) es) same low
  ]

module _ {T : Type 0} (dec : Discrete T) (missing : T) (xs : List T) where
  IsPartition-mono :
      (E F : T → T → Type 0) (uf : UnionFind T) (sets : ℕ)
      → ((x y : T) → E x y → F x y)
      → ((x y : T) → F x y → E x y)
      → IsPartition dec missing xs E uf sets
      → IsPartition dec missing xs F uf sets
  IsPartition-mono E F uf sets to back p = record {
    label = p.label;
    forest = p.forest;
    linked = λ x y a b e.
        Linked-mono {E = E} {F = F} (λ u v i. along (to u v i) here) (p.linked x y a b e);
    kept = λ x y i. p.kept x y (back x y i);
  }

  -- one set links everything
  one_set :
      (E : T → T → Type 0) (uf : UnionFind T) (sets : ℕ)
      → IsPartition dec missing xs E uf sets
      → sets ≤ 1
      → (x y : T) → In dec xs x
      → In dec xs y
      → Linked E x y
  one_set E uf sets p few x y in_x in_y =
      let f = p.forest in
      let root : (z : T) → In dec xs z → is_root dec p.label (p.label z) ≡ true = λ z h.
        if_pos (dec (p.label (p.label z)) (p.label z))
          (label-root dec missing xs uf p.label sets f z h) true false in
      elim (dec (p.label x) (p.label y)) [
        | yes e ↦ p.linked x y in_x in_y e
        | no e ↦
            let two =
              count_of-two dec (is_root dec p.label) (p.label x) (p.label y) xs e (root x in_x)
                (root y in_y) (f.closed x in_x) (f.closed y in_y) in
            let same = f.roots in absurd (omega arith)
      ]

  -- one set: the edges so far span everything, the rest need not be looked at
  full_tree :
      (es mst : List (Edge T)) (uf : UnionFind T) (sets total : ℕ)
      → IsPartition dec missing xs (Joins mst) uf sets
      → EndsIn dec xs es
      → sets ≤ 1
      → ((f : Edge T) → Has f mst → AtLeast (key f) es)
      → Acyclic [] mst
      → total ≡ weights 0 mst
      → IsTreeFor mst es mst total
  full_tree es mst uf sets total p ends few light acyclic sum = record {
    extends = λ f h. h;
    taken = λ f h. inl h;
    acyclic = acyclic;
    summed = sum;
    spans = λ e h.
        let (in_from, in_to) = Has-EndsIn dec xs es ends e h in
        light_links mst e.weight (λ f i. AtLeast-Has (key f) e es (light f i) h)
          (one_set (Joins mst) uf sets p few e.from e.to in_from in_to);
  }

  module _ (distinct : Distinct dec xs) (fuel nodes : ℕ) (enough : length xs < fuel)
      (bound : length xs ≤ nodes) where
    grow-IsTreeFor :
        (es mst : List (Edge T)) (uf : UnionFind T) (sets total : ℕ)
        → IsPartition dec missing xs (Joins mst) uf sets
        → EndsIn dec xs es
        → sets + length mst ≡ length xs
        → Ascending es
        → ((f : Edge T) → Has f mst → AtLeast (key f) es)
        → Acyclic [] mst
        → total ≡ weights 0 mst
        → (result : List (Edge T) × ℕ) × (grow dec missing fuel nodes uf mst total es ≡ some result)
          × IsTreeFor mst es result.0 result.1
    unfolding grow EndsIn Ascending AtLeast UnionOutcome Has
    grow-IsTreeFor [] mst uf sets total p ends counts up light acyclic sum = (
      (mst, total),
      refl,
      record {
        extends = λ f h. h;
        taken = λ f h. inl h;
        acyclic = acyclic;
        summed = sum;
        spans = λ e h. absurd h;
      },
    )
    grow-IsTreeFor (e ∷ es) mst uf sets total p (in_from, in_to, ends) counts (low, up) light
          acyclic sum =
        let (uf1, merged, ran, outcome) =
          union-IsPartition dec missing xs (Joins mst) fuel e.from e.to uf sets p distinct in_from
            in_to enough in
        let light_rest : (f : Edge T) → Has f mst → AtLeast (key f) es = λ f h. (light f h).1 in
        elim outcome [
          | inl (not_merged, l, p1) ↦
              let (result, rest, tree) =
                grow-IsTreeFor es mst uf1 sets total p1 ends counts up light_rest acyclic sum in
              (
                result,
                rw (grow, ran, not_merged, rest) refl,
                skip_tree mst es result.0 e result.1 tree (
                    more_links mst result.0 e.weight tree.extends
                      (light_links mst e.weight (λ f h. (light f h).0) l)),
              )
          | inr (is_merged, apart, sets1, one_less, p2) ↦
              let mst1 = mst ++ e ∷ [] in
              let total1 = add64 total e.weight in
              let p1 =
                IsPartition-mono (Plus (Joins mst) e.from e.to) (Joins mst1) uf1 sets1
                  (Joins-snoc mst e) (Joins-unsnoc mst e) p2 in
              let longer : length mst1 ≡ length mst + 1 = length-append mst (e ∷ []) in
              let light1 : (f : Edge T) → Has f mst1 → AtLeast (key f) es =
                snoc_light mst e es light_rest low in
              let acyclic1 = Acyclic-append [] mst e acyclic apart in
              let sum1 = ap (λ t. add64 t e.weight) sum ∙ sym (weights-append 0 mst e) in
              let (result, rest, tree) =
                grow-IsTreeFor es mst1 uf1 sets1 total1 p1 ends (omega arith) up light1 acyclic1
                  sum1 in
              elim (Bool-cases (length mst1 + 1 == nodes)) [
                | inl full ↦ (
                  (mst1, total1),
                  rw (grow, ran, is_merged, full) refl,
                  take_tree mst es mst1 e total1 (
                      full_tree es mst1 uf1 sets1 total1 p1 ends (ground arith) light1 acyclic1
                        sum1),
                )
                | inr on ↦ (
                  result,
                  rw (grow, ran, is_merged, on, rest) refl,
                  take_tree mst es result.0 e result.1 tree,
                )
              ]
        ]

module _ {T : Type 0} (dec : Discrete T) (missing : T) where
  nodes_in :
      (nodes : List T) (es : List (Edge T))
      → EndsIn dec nodes es
      → EndsIn dec (made dec nodes []) (sorted es)
  nodes_in nodes es ends = EndsIn-Has dec (made dec nodes []) (sorted es) (λ e h.
      let (a, b) = Has-EndsIn dec nodes es ends e ((sorted-Has e es).0 h) in
      (member-made dec e.from nodes [] a, member-made dec e.to nodes [] b))

  no-Among : (x y : T) → Among [] x y → Joins [] x y
  unfolding Among
  no-Among x y h = absurd h

  no-Joins : (x y : T) → Joins [] x y → Among [] x y
  unfolding Joins Has
  no-Joins x y (e, h, from, to) = absurd h

  -- Where the ends of all edges are nodes and the fuel is above the number of nodes, `kruskalMST` returns a
  -- list of edges of the graph and their summed weight. No edge of the list joins what those before it
  -- link, and for every edge of the graph the list links its ends by edges that are no heavier, as
  -- a minimum spanning forest does.
  pub kruskal_mst-spans :
      (nodes : List T) (edges : List (Edge T)) (fuel : ℕ)
      → EndsIn dec nodes edges
      → length nodes < fuel
      → (mst : List (Edge T)) × (total : ℕ) × (kruskal_mst dec missing fuel nodes edges
          ≡ some (mst, total))
        × ((e : Edge T) → Has e mst → Has e edges)
        × (total ≡ weights 0 mst)
        × Acyclic [] mst
        × ((e : Edge T) → Has e edges → Linked (JoinsWithin mst e.weight) e.from e.to)
  unfolding kruskal_mst Has Acyclic weights Distinct
  kruskal_mst-spans nodes edges fuel ends enough =
      let xs = made dec nodes [] in
      let few = length-made dec nodes [] in
      let start = make_all-IsPartition dec missing nodes in
      let p0 =
        IsPartition-mono dec missing xs (Among []) (Joins []) (make_all dec missing nodes new)
          (length xs) no-Among no-Joins start in
      let (result, ran, tree) =
        grow-IsTreeFor dec missing xs (made-Distinct dec nodes [] tt) fuel (length nodes)
          (ground arith) (ground arith) (sorted edges) [] (make_all dec missing nodes new)
          (length xs) 0 p0 (nodes_in nodes edges ends) (omega arith) (sorted-Ascending edges)
          (λ f h. absurd h) tt refl in
      (
        result.0,
        result.1,
        ran,
        λ e h. elim (tree.taken e h) [
          | inl no_one ↦ absurd no_one
          | inr i ↦ (sorted-Has e edges).0 i
        ],
        tree.summed,
        tree.acyclic,
        λ e h. tree.spans e ((sorted-Has e edges).1 h),
      )
