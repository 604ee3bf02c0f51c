-- ===== src/UnionFind/Kruskal/Links.antt =====
-- Edges of a graph as links between its nodes, for `kruskalMST` of src/09_dsa/06_union_find.
use grin_with_golang.UnionFind.{List, ℕ}
use grin_with_golang.UnionFind.Linked.{Linked, Plus, Linked-mono, along, here}
use grin_with_golang.UnionFind.Kruskal.{Edge, key, signed}
use grin_with_golang.UnionFind.Kruskal.Order.{Has}
use grin_with_golang.Words.{add64}
use grin_with_golang.Prelude.{
  List, [], ap, append-nil, append_assoc, inl, inr, refl, subst, sym, ℕ, ◌≤◌, ◌≡◌, ◌⊎◌, ◌∙◌, ◌∷◌,
  ◌++◌,
}

module _ {T : Type 0} where
  -- some edge of the list goes from `x` to `y`
  unfoldable pub Joins : List (Edge T) → T → T → Type 0
  Joins es x y = (e : Edge T) × Has e es × (e.from ≡ x) × (e.to ≡ y)

  -- and weighs at most `w`
  unfoldable pub JoinsWithin : List (Edge T) → ℕ → T → T → Type 0
  JoinsWithin es w x y = (e : Edge T) × Has e es × (key e ≤ signed w) × (e.from ≡ x) × (e.to ≡ y)

  -- No edge joins what those before it link: the list has no cycle.
  unfoldable pub Acyclic : List (Edge T) → List (Edge T) → Type 0
  Acyclic before [] = Unit
  Acyclic before (e ∷ es) = (¬ Linked (Joins before) e.from e.to) × Acyclic (before ++ e ∷ []) es

  unfoldable pub weights : ℕ → List (Edge T) → ℕ
  weights sum [] = sum
  weights sum (e ∷ es) = weights (add64 sum e.weight) es

  pub weights-append :
      (sum : ℕ) (es : List (Edge T)) (e : Edge T)
      → weights sum (es ++ e ∷ []) ≡ add64 (weights sum es) e.weight
  unfolding weights
  weights-append sum [] e = refl
  weights-append sum (f ∷ es) e = weights-append (add64 sum f.weight) es e

  pub Acyclic-append :
      (before es : List (Edge T)) (e : Edge T)
      → Acyclic before es
      → ¬ Linked (Joins (before ++ es)) e.from e.to
      → Acyclic before (es ++ e ∷ [])
  unfolding Acyclic
  Acyclic-append before [] e a off =
      (subst (λ l. ¬ Linked (Joins l) e.from e.to) (append-nil before) off, tt)
  Acyclic-append before (f ∷ es) e (first, a) off = (
    first,
    Acyclic-append (before ++ f ∷ []) es e a
        (subst (λ l. ¬ Linked (Joins l) e.from e.to) (sym (append_assoc before (f ∷ []) es)) off),
  )

  pub Has-append_left : (e : Edge T) (xs ys : List (Edge T)) → Has e xs → Has e (xs ++ ys)
  unfolding Has
  Has-append_left e [] ys h = absurd h
  Has-append_left e (x ∷ xs) ys (inl same) = inl same
  Has-append_left e (x ∷ xs) ys (inr later) = inr (Has-append_left e xs ys later)

  pub Has-snoc : (e : Edge T) (xs : List (Edge T)) → Has e (xs ++ e ∷ [])
  unfolding Has
  Has-snoc e [] = inl refl
  Has-snoc e (x ∷ xs) = inr (Has-snoc e xs)

  pub Has-snoc_cases :
      (e f : Edge T) (xs : List (Edge T)) → Has e (xs ++ f ∷ []) → Has e xs ⊎ (f ≡ e)
  unfolding Has
  Has-snoc_cases e f [] (inl same) = inr same
  Has-snoc_cases e f [] (inr no_one) = absurd no_one
  Has-snoc_cases e f (x ∷ xs) (inl same) = inl (inl same)
  Has-snoc_cases e f (x ∷ xs) (inr later) = elim (Has-snoc_cases e f xs later) [
    | inl old ↦ inl (inr old)
    | inr same ↦ inr same
  ]

  pub Joins-snoc :
      (es : List (Edge T)) (e : Edge T) (x y : T)
      → Plus (Joins es) e.from e.to x y
      → Joins (es ++ e ∷ []) x y
  unfolding Joins
  Joins-snoc es e x y (inl (f, has, from, to)) = (f, Has-append_left f es (e ∷ []) has, from, to)
  Joins-snoc es e x y (inr (from, to)) = (e, Has-snoc e es, from, to)

  pub Joins-unsnoc :
      (es : List (Edge T)) (e : Edge T) (x y : T)
      → Joins (es ++ e ∷ []) x y
      → Plus (Joins es) e.from e.to x y
  unfolding Joins
  Joins-unsnoc es e x y (f, has, from, to) = elim (Has-snoc_cases f e es has) [
    | inl old ↦ inl (f, old, from, to)
    | inr same ↦ inr (ap (λ g. g.from) same ∙ from, ap (λ g. g.to) same ∙ to)
  ]

  -- links by edges that are all light enough
  pub light_links :
      (es : List (Edge T)) (w : ℕ) {x y : T}
      → ((e : Edge T) → Has e es → key e ≤ signed w)
      → Linked (Joins es) x y
      → Linked (JoinsWithin es w) x y
  unfolding Joins JoinsWithin
  light_links es w light =
      Linked-mono {E = Joins es} {F = JoinsWithin es w}
        (λ u v (e, has, from, to). along (e, has, light e has, from, to) here)

  pub more_links :
      (es fs : List (Edge T)) (w : ℕ) {x y : T}
      → ((e : Edge T) → Has e es → Has e fs)
      → Linked (JoinsWithin es w) x y
      → Linked (JoinsWithin fs w) x y
  unfolding JoinsWithin
  more_links es fs w sub =
      Linked-mono {E = JoinsWithin es w} {F = JoinsWithin fs w}
        (λ u v (e, has, light, from, to). along (e, sub e has, light, from, to) here)
