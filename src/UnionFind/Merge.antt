-- ===== src/UnionFind/Merge.antt =====
-- What Union does to the roots of the forest of src/09_dsa/06_union_find.
use grin_with_golang.UnionFind.{UnionFind, parent_of, link, fewer, value, ◌≡◌, union, GoMap, insert}
use grin_with_golang.UnionFind.Roots.{
  Up, parent_of-insert, KeepsRoots, find-root, KeepsRoots-trans, Up-end, value-insert,
}
use mathlib.Core.Logic.{ite, if_pos, if_neg}
use grin_with_golang.Prelude.{
  ◌≡◌, ap, inl, inr, refl, subst, suc, sym, zero, ℕ, ◌⊎◌, ◌∙◌, ltb, Bool-cases, arith, false, some,
  true, ◌<◌, ◌≤◌, ◌+◌,
}

module _ {T : Type 0} (dec : Discrete T) (par par1 : T → T) (a b : T) where
  -- one root is hung below another, and only what was below it gets further from its root
  pub hung-Up :
      ¬ (a ≡ b)
      → par a ≡ a
      → par b ≡ b
      → ((y : T) → par1 y ≡ ite (dec a y) b (par y))
      → (m : ℕ) (y t : T) → Up par m y t
      → (k : ℕ) × (k ≤ suc m) × (¬ (a ≡ t) → k ≤ m) × Up par1 k y (ite (dec a t) b t)
  unfolding Up
  hung-Up apart root_a root_b hung zero y t (same, root) = elim (dec a t) [
    | yes p ↦
        let at_y : a ≡ y = p ∙ sym same in
        let to_b : par1 y ≡ b = hung y ∙ if_pos (dec a y) at_y b (par y) in
        let root : par1 b ≡ b = hung b ∙ if_neg (dec a b) apart b (par b) ∙ root_b in
        (
          1,
          omega arith,
          λ off. absurd (off p),
          subst (λ z. Up par1 1 y z) (sym (if_pos (dec a t) p b t))
              ((λ e. apart (at_y ∙ sym e ∙ to_b)), (to_b, ap par1 to_b ∙ root ∙ sym to_b)),
        )
    | no p ↦
        let off : ¬ (a ≡ y) = λ e. p (e ∙ same) in
        (
          0,
          omega arith,
          λ _. omega arith,
          subst (λ z. Up par1 0 y z) (sym (if_neg (dec a t) p b t))
              (same, hung y ∙ if_neg (dec a y) off b (par y) ∙ root),
        )
  ]
  hung-Up apart root_a root_b hung (suc m) y t (inner, up) =
      let off : ¬ (a ≡ y) = λ e. inner (ap par (sym e) ∙ root_a ∙ e) in
      let step : par1 y ≡ par y = hung y ∙ if_neg (dec a y) off b (par y) in
      let (k, near, kept, up1) = hung-Up apart root_a root_b hung m (par y) t up in
      let end = ite (dec a t) b t in
      (
        suc k,
        ground arith,
        λ o. let few = kept o in ground arith,
        ((λ e. inner (sym step ∙ e)), subst (λ z. Up par1 k z end) (sym step) up1),
      )

module _ {T : Type 0} (dec : Discrete T) (missing : T) where
  -- the root after a merge, where nothing changes
  absorb : (j t w z : T) → w ≡ j → (j ≡ t → z ≡ t) → ite (dec j t) w z ≡ z
  absorb j t w z p f = elim (dec j t) [
    | yes q ↦ if_pos (dec j t) q w z ∙ p ∙ q ∙ sym (f q)
    | no q ↦ if_neg (dec j t) q w z
  ]

  same_root : (r s t : T) → r ≡ s → t ≡ ite (dec r t) r (ite (dec s t) r t)
  same_root r s t p =
      let inside = ite (dec s t) r t in
      sym (
        absorb r t r inside refl (λ q. if_pos (dec s t) (sym p ∙ q) r t ∙ q)
        ∙ absorb s t r t p (λ q. refl))

  unfoldable pub Hangs : T → T → T → T → Type 0
  Hangs r s l w = (l ≡ r × w ≡ s) ⊎ (l ≡ s × w ≡ r)

  merged_root :
      (r s l w t : T)
      → ¬ (r ≡ s)
      → Hangs r s l w
      → ite (dec l t) w t ≡ ite (dec r t) w (ite (dec s t) w t)
  unfolding Hangs
  merged_root r s l w t p (inl (lr, ws)) =
      ap (λ z. ite (dec z t) w t) lr
      ∙ ap (λ z. ite (dec r t) w z) (sym (absorb s t w t ws (λ q. refl)))
  merged_root r s l w t p (inr (ls, wr)) =
      ap (λ z. ite (dec z t) w t) ls
      ∙ sym (absorb r t w (ite (dec s t) w t) wr (λ q. if_neg (dec s t) (λ e. p (q ∙ sym e)) w t))

  pub ends-Hangs :
      (par : T → T) (r s l w : T)
      → ¬ (r ≡ s)
      → par r ≡ r
      → par s ≡ s
      → Hangs r s l w
      → (¬ (l ≡ w)) × (par l ≡ l) × (par w ≡ w) × (w ≡ r ⊎ w ≡ s)
  unfolding Hangs
  ends-Hangs par r s l w p root_r root_s (inl (lr, ws)) =
      (λ e. p (sym lr ∙ e ∙ ws), ap par lr ∙ root_r ∙ sym lr, ap par ws ∙ root_s ∙ sym ws, inr ws)
  ends-Hangs par r s l w p root_r root_s (inr (ls, wr)) = (
    λ e. p (sym wr ∙ sym e ∙ ls),
    ap par ls ∙ root_s ∙ sym ls,
    ap par wr ∙ root_r ∙ sym wr,
    inl wr,
  )

  abbrev pub rank_of : UnionFind T → T → ℕ
  rank_of uf t = value 0 (uf.rank t)

  -- Ranks only rise, by at most one, and the winner ends above the loser.
  unfoldable pub Ranked : UnionFind T → UnionFind T → T → T → Type 0
  Ranked uf uf1 loser winner =
      ((t : T) → rank_of uf t ≤ rank_of uf1 t)
      × (suc (rank_of uf loser) ≤ rank_of uf1 winner)
      × ((t : T) → rank_of uf1 t ≤ suc (rank_of uf t))

  raised :
      (r t : T) (m : GoMap T ℕ)
      → (value 0 (m t) ≤ value 0 (insert dec r (value 0 (m r) + 1) m t))
        × (value 0 (insert dec r (value 0 (m r) + 1) m t) ≤ suc (value 0 (m t)))
  raised r t m =
      let top = value 0 (m r) + 1 in
      let at = value-insert dec 0 r top t m in
      elim (dec r t) [
        | yes p ↦
            let same : value 0 (m t) ≡ value 0 (m r) = ap (λ z. value 0 (m z)) (sym p) in
            let is = at ∙ if_pos (dec r t) p top (value 0 (m t)) in (omega arith, omega arith)
        | no p ↦ let is = at ∙ if_neg (dec r t) p top (value 0 (m t)) in (omega arith, omega arith)
      ]

  -- Of two roots, one is hung below the other.
  pub link-Hangs :
      (r s : T) (uf : UnionFind T)
      → (loser winner : T) × Hangs r s loser winner
        × ((y : T)
            → parent_of dec missing (link dec missing r s uf) y
              ≡ ite (dec loser y) winner (parent_of dec missing uf y))
        × ((link dec missing r s uf).count ≡ fewer uf.count)
        × Ranked uf (link dec missing r s uf) loser winner
  unfolding link Hangs Ranked
  link-Hangs r s uf =
      let rank_r = value 0 (uf.rank r) in
      let rank_s = value 0 (uf.rank s) in
      elim (Bool-cases (ltb rank_r rank_s)) [
        | inl lower ↦ (
          r,
          s,
          inl (refl, refl),
          rw (link, lower) (λ y. parent_of-insert dec missing r s y uf.parent),
          rw (link, lower) refl,
          rw (link, lower) (λ t. omega arith, ground arith, λ t. omega arith),
        )
        | inr not_lower ↦ elim (Bool-cases (ltb rank_s rank_r)) [
          | inl higher ↦ (
            s,
            r,
            inr (refl, refl),
            rw (link, not_lower, higher) (λ y. parent_of-insert dec missing s r y uf.parent),
            rw (link, not_lower, higher) refl,
            rw (link, not_lower, higher) (λ t. omega arith, ground arith, λ t. omega arith),
          )
          | inr equal ↦ (
            s,
            r,
            inr (refl, refl),
            rw (link, not_lower, equal) (λ y. parent_of-insert dec missing s r y uf.parent),
            rw (link, not_lower, equal) refl,
            rw (link, not_lower, equal)
                (
                  λ t. (raised r t uf.rank).0,
                  let at =
                        value-insert dec 0 r (rank_r + 1) r uf.rank
                        ∙ if_pos (dec r r) refl (rank_r + 1) rank_r in
                      ground arith,
                  λ t. (raised r t uf.rank).1,
                ),
          )
        ]
      ]

  -- Where `x` and `y` have the roots `r` and `s` and the fuel is more than their distances, Union returns,
  -- and returns true just when the roots differ. Then one of the roots is the root of the merged set,
  -- which every element of the two sets has, the elements of the other sets keep their roots, and the
  -- count is one lower; where the roots are the same, all roots and the count are kept.
  union-roots :
      (m n fuel : ℕ) (x y r s : T) (uf : UnionFind T)
      → Up (parent_of dec missing uf) m x r
      → Up (parent_of dec missing uf) n y s
      → m < fuel
      → n < fuel
      → (uf1 : UnionFind T) × (winner : T) × (union dec missing fuel x y uf
          ≡ some (uf1, ite (dec r s) false true))
        × (winner ≡ r ⊎ winner ≡ s)
        × ((i : ℕ) (z t : T)
            → Up (parent_of dec missing uf) i z t
            → (k : ℕ) × Up
                (parent_of dec missing uf1)
                k
                z
                (ite (dec r t) winner (ite (dec s t) winner t)))
        × (uf1.count ≡ ite (dec r s) uf.count (fewer uf.count))
  unfolding union KeepsRoots
  union-roots m n fuel x y r s uf up_x up_y enough_m enough_n =
      let par = parent_of dec missing uf in
      let (ufa, found_x, top_x, keeps_x, ranks_x, count_x) =
        find-root dec missing m fuel x r uf up_x enough_m in
      let (na, near, up_ya) = keeps_x n y s up_y in
      let (ufb, found_y, top_y, keeps_y, ranks_y, count_y) =
        find-root dec missing na fuel y s ufa up_ya (omega arith) in
      let parb = parent_of dec missing ufb in
      let keeps = KeepsRoots-trans par (parent_of dec missing ufa) parb keeps_x keeps_y in
      let counts = count_y ∙ count_x in
      let linked = link dec missing r s ufb in
      let ran : union dec missing fuel x y uf ≡ some (ite (dec r s) (ufb, false) (linked, true)) =
        rw (found_x, found_y) refl in
      elim (dec r s) [
        | yes p ↦ (
          ufb,
          r,
          ran
              ∙ ap some (if_pos (dec r s) p (ufb, false) (linked, true))
              ∙ ap (λ b. some (ufb, b)) (sym (if_pos (dec r s) p false true)),
          inl refl,
          λ i z t up.
              let (k, few, up1) = keeps i z t up in
              (k, subst (λ w. Up parb k z w) (same_root r s t p) up1),
          counts ∙ sym (if_pos (dec r s) p uf.count (fewer uf.count)),
        )
        | no p ↦
            let (loser, winner, which, hung, fewer_sets, _) = link-Hangs r s ufb in
            let (kx, few_x, up_xb) = keeps m x r up_x in
            let (ky, few_y, up_yb) = keeps n y s up_y in
            let (apart, root_l, root_w, one_of) =
              ends-Hangs parb r s loser winner p (Up-end parb kx x r up_xb)
                (Up-end parb ky y s up_yb) which in
            (
              linked,
              winner,
              ran
                  ∙ ap some (if_neg (dec r s) p (ufb, false) (linked, true))
                  ∙ ap (λ b. some (linked, b)) (sym (if_neg (dec r s) p false true)),
              one_of,
              λ i z t up.
                  let (k, few, up1) = keeps i z t up in
                  let par1 = parent_of dec missing linked in
                  let (k1, _, _, up2) =
                    hung-Up dec parb par1 loser winner apart root_l root_w hung k z t up1 in
                  (k1, subst (λ w. Up par1 k1 z w) (merged_root r s loser winner t p which) up2),
              fewer_sets ∙ ap fewer counts ∙ sym (if_neg (dec r s) p uf.count (fewer uf.count)),
            )
      ]
