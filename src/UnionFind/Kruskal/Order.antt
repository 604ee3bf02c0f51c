-- ===== src/UnionFind/Kruskal/Order.antt =====
-- The sorted edges of src/09_dsa/06_union_find: their order and their members.
use grin_with_golang.UnionFind.Kruskal.{Edge, key, lighter, sink, sort_from, forwards, sorted}
use grin_with_golang.Prelude.{◌⊎◌, inl, inr, List, ℕ, [], ap, arith, ◌≤◌, ◌≡◌, ◌∷◌, Bool-cases}

module _ {T : Type 0} where
  unfoldable pub Has : Edge T → List (Edge T) → Type 0
  Has e [] = ⊥
  Has e (f ∷ fs) = (f ≡ e) ⊎ Has e fs

  unfoldable pub AtLeast : ℕ → List (Edge T) → Type 0
  AtLeast k [] = Unit
  AtLeast k (e ∷ es) = (k ≤ key e) × AtLeast k es

  unfoldable pub Ascending : List (Edge T) → Type 0
  Ascending [] = Unit
  Ascending (e ∷ es) = AtLeast (key e) es × Ascending es

  unfoldable AtMost : ℕ → List (Edge T) → Type 0
  AtMost k [] = Unit
  AtMost k (e ∷ es) = (key e ≤ k) × AtMost k es

  unfoldable Descending : List (Edge T) → Type 0
  Descending [] = Unit
  Descending (e ∷ es) = AtMost (key e) es × Descending es

  pub AtLeast-le : (j k : ℕ) (es : List (Edge T)) → j ≤ k → AtLeast k es → AtLeast j es
  unfolding AtLeast
  AtLeast-le j k [] h a = tt
  AtLeast-le j k (e ∷ es) h (b, a) = (ground arith, AtLeast-le j k es h a)

  pub AtLeast-Has : (k : ℕ) (e : Edge T) (es : List (Edge T)) → AtLeast k es → Has e es → k ≤ key e
  unfolding AtLeast Has
  AtLeast-Has k e [] a h = absurd h
  AtLeast-Has k e (f ∷ es) (b, a) (inl same) = let at = ap key same in ground arith
  AtLeast-Has k e (f ∷ es) (b, a) (inr later) = AtLeast-Has k e es a later

  AtMost-le : (j k : ℕ) (es : List (Edge T)) → j ≤ k → AtMost j es → AtMost k es
  unfolding AtMost
  AtMost-le j k [] h a = tt
  AtMost-le j k (e ∷ es) h (b, a) = (ground arith, AtMost-le j k es h a)

  sink-AtMost :
      (k : ℕ) (e : Edge T) (es : List (Edge T)) → key e ≤ k → AtMost k es → AtMost k (sink e es)
  unfolding AtMost sink
  sink-AtMost k e [] h a = (h, tt)
  sink-AtMost k e (f ∷ es) h (b, a) = elim (Bool-cases (lighter e f)) [
    | inl less ↦ rw less (b, sink-AtMost k e es h a)
    | inr not_less ↦ rw not_less (h, (b, a))
  ]

  sink-Descending : (e : Edge T) (es : List (Edge T)) → Descending es → Descending (sink e es)
  unfolding Descending AtMost sink
  sink-Descending e [] d = (tt, tt)
  sink-Descending e (f ∷ es) (b, d) = elim (Bool-cases (lighter e f)) [
    | inl less ↦
        let low : key e ≤ key f = ground arith in
        rw less (sink-AtMost (key f) e es low b, sink-Descending e es d)
    | inr not_less ↦
        let low : key f ≤ key e = ground arith in
        rw not_less ((low, AtMost-le (key f) (key e) es low b), (b, d))
  ]

  sort_from-Descending :
      (before es : List (Edge T)) → Descending before → Descending (sort_from before es)
  unfolding sort_from
  sort_from-Descending before [] d = d
  sort_from-Descending before (e ∷ es) d =
      sort_from-Descending (sink e before) es (sink-Descending e before d)

  -- every edge of the one list is no heavier than those of the other
  unfoldable Before : List (Edge T) → List (Edge T) → Type 0
  Before [] after = Unit
  Before (e ∷ before) after = AtLeast (key e) after × Before before after

  Before-cons :
      (e : Edge T) (before after : List (Edge T))
      → AtMost (key e) before
      → Before before after
      → Before before (e ∷ after)
  unfolding Before AtMost AtLeast
  Before-cons e [] after a b = tt
  Before-cons e (f ∷ before) after (low, a) (c, b) = ((low, c), Before-cons e before after a b)

  forwards-Ascending :
      (before after : List (Edge T))
      → Descending before
      → Before before after
      → Ascending after
      → Ascending (forwards before after)
  unfolding forwards Before Descending Ascending
  forwards-Ascending [] after d b a = a
  forwards-Ascending (e ∷ before) after (low, d) (c, b) a =
      forwards-Ascending before (e ∷ after) d (Before-cons e before after low b) (c, a)

  Before-nil : (before : List (Edge T)) → Before before []
  unfolding Before AtLeast
  Before-nil [] = tt
  Before-nil (e ∷ before) = (tt, Before-nil before)

  pub sorted-Ascending : (edges : List (Edge T)) → Ascending (sorted edges)
  unfolding sorted Ascending Descending
  sorted-Ascending edges =
      forwards-Ascending (sort_from [] edges) [] (sort_from-Descending [] edges tt)
        (Before-nil (sort_from [] edges)) tt

  -- sorting keeps the members
  sink-Has :
      (x e : Edge T) (es : List (Edge T))
      → (Has x (sink e es) → Has x (e ∷ es)) × (Has x (e ∷ es) → Has x (sink e es))
  unfolding Has sink
  sink-Has x e [] = (λ h. h, λ h. h)
  sink-Has x e (f ∷ es) = elim (Bool-cases (lighter e f)) [
    | inl less ↦
        let (out, back) = sink-Has x e es in
        rw less (
          λ h. elim h [
            | inl here ↦ inr (inl here)
            | inr later ↦ elim (out later) [ inl here ↦ inl here | inr old ↦ inr (inr old) ]
          ],
          λ h. elim h [
            | inl here ↦ inr (back (inl here))
            | inr later ↦ elim later [ inl here ↦ inl here | inr old ↦ inr (back (inr old)) ]
          ],
        )
    | inr not_less ↦ rw not_less (λ h. h, λ h. h)
  ]

  sort_from-Has :
      (x : Edge T) (before es : List (Edge T))
      → (Has x (sort_from before es) → Has x before ⊎ Has x es)
        × (Has x before ⊎ Has x es → Has x (sort_from before es))
  unfolding Has sort_from
  sort_from-Has x before [] =
      (λ h. inl h, λ h. elim h [ inl old ↦ old | inr no_one ↦ absurd no_one ])
  sort_from-Has x before (e ∷ es) =
      let (out, back) = sort_from-Has x (sink e before) es in
      let (off, on) = sink-Has x e before in
      (
        λ h. elim (out h) [
          | inl sunk ↦ elim (off sunk) [ inl here ↦ inr (inl here) | inr old ↦ inl old ]
          | inr later ↦ inr (inr later)
        ],
        λ h. elim h [
          | inl old ↦ back (inl (on (inr old)))
          | inr later ↦ elim later [
            | inl here ↦ back (inl (on (inl here)))
            | inr more ↦ back (inr more)
          ]
        ],
      )

  forwards-Has :
      (x : Edge T) (before after : List (Edge T))
      → (Has x (forwards before after) → Has x before ⊎ Has x after)
        × (Has x before ⊎ Has x after → Has x (forwards before after))
  unfolding Has forwards
  forwards-Has x [] after = (λ h. inr h, λ h. elim h [ inl no_one ↦ absurd no_one | inr a ↦ a ])
  forwards-Has x (e ∷ before) after =
      let (out, back) = forwards-Has x before (e ∷ after) in
      (
        λ h. elim (out h) [
          | inl old ↦ inl (inr old)
          | inr later ↦ elim later [ inl here ↦ inl (inl here) | inr more ↦ inr more ]
        ],
        λ h. elim h [
          | inl first ↦ elim first [ inl here ↦ back (inr (inl here)) | inr old ↦ back (inl old) ]
          | inr more ↦ back (inr (inr more))
        ],
      )

  pub sorted-Has :
      (x : Edge T) (edges : List (Edge T))
      → (Has x (sorted edges) → Has x edges) × (Has x edges → Has x (sorted edges))
  unfolding sorted Has
  sorted-Has x edges =
      let (out, back) = forwards-Has x (sort_from [] edges) [] in
      let (off, on) = sort_from-Has x [] edges in
      (
        λ h. elim (out h) [
          | inl found ↦ elim (off found) [ inl no_one ↦ absurd no_one | inr e ↦ e ]
          | inr no_one ↦ absurd no_one
        ],
        λ h. back (inl (on (inr h))),
      )
