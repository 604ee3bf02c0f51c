-- ===== src/UnionFind/Partition.antt =====
-- The sets of src/09_dsa/06_union_find as the classes that edges link.
use grin_with_golang.UnionFind.{UnionFind, link, union, connected, List}
use grin_with_golang.UnionFind.Linked.{
  Linked, along, against, Plus, Linked-trans, Linked-sym, Linked-Plus, Linked-label,
}
use grin_with_golang.UnionFind.Merge.{Hangs}
use grin_with_golang.UnionFind.Elements.{Distinct}
use grin_with_golang.UnionFind.Forest.{
  In, IsForest, relabel, relabel_at, relabel_off, find-IsForest, link-IsForest,
}
use mathlib.Core.Logic.{ite, if_pos, if_neg}
use grin_with_golang.Prelude.{
  Bool, List, ap, false, inl, inr, refl, some, suc, sym, true, ℕ, ◌<◌, ◌≡◌, ◌⊎◌, ◌∙◌, length,
}

-- The sets are the classes of `xs` that the edges `E` link, and there are `sets` of them.
pub record IsPartition {T : Type 0} (dec : Discrete T) (missing : T) (xs : List T)
    (E : T → T → Type 0) (uf : UnionFind T) (sets : ℕ) : Type 0 where
  pub label : T → T
  pub forest : IsForest dec missing xs uf label sets
  pub linked : (x y : T) → In dec xs x → In dec xs y → label x ≡ label y → Linked E x y
  pub kept : (x y : T) → E x y → label x ≡ label y

module _ {T : Type 0} (dec : Discrete T) (missing : T) (xs : List T) (E : T → T → Type 0) where
  joined_labels :
      (x y loser winner : T) (label : T → T)
      → ¬ (label x ≡ label y)
      → Hangs dec missing (label x) (label y) loser winner
      → relabel dec loser winner label x ≡ relabel dec loser winner label y
  unfolding Hangs
  joined_labels x y loser winner label p (inl (lx, wy)) =
      relabel_at dec missing xs loser winner label x lx
      ∙ wy
      ∙ sym (relabel_off dec missing xs loser winner label y (λ e. p (sym lx ∙ e)))
  joined_labels x y loser winner label p (inr (ly, wx)) =
      relabel_off dec missing xs loser winner label x (λ e. p (sym e ∙ ly))
      ∙ sym wx
      ∙ sym (relabel_at dec missing xs loser winner label y ly)

  merged_kept :
      (x y loser winner : T) (label : T → T)
      → ((u v : T) → E u v → label u ≡ label v)
      → ¬ (label x ≡ label y)
      → Hangs dec missing (label x) (label y) loser winner
      → (u v : T) → Plus E x y u v
      → relabel dec loser winner label u ≡ relabel dec loser winner label v
  merged_kept x y loser winner label kept p which u v (inl e) =
      ap (λ z. ite (dec loser z) winner z) (kept u v e)
  merged_kept x y loser winner label kept p which u v (inr (xu, yv)) =
      ap (relabel dec loser winner label) (sym xu)
      ∙ joined_labels x y loser winner label p which
      ∙ ap (relabel dec loser winner label) yv

  -- the new edge is a bridge between the loser's class and the winner's
  bridge :
      (x y loser winner : T) (uf : UnionFind T) (sets : ℕ)
      (p : IsPartition dec missing xs E uf sets)
      → In dec xs x
      → In dec xs y
      → Hangs dec missing (p.label x) (p.label y) loser winner
      → (u v : T) → In dec xs u
      → In dec xs v
      → loser ≡ p.label u
      → winner ≡ p.label v
      → Linked (Plus E x y) u v
  unfolding Hangs
  bridge x y loser winner uf sets p in_x in_y (inl (lx, wy)) u v in_u in_v lu wv =
      Linked-trans (Linked-Plus x y (p.linked u x in_u in_x (sym lu ∙ lx)))
        (along (inr (refl, refl)) (Linked-Plus x y (p.linked y v in_y in_v (sym wy ∙ wv))))
  bridge x y loser winner uf sets p in_x in_y (inr (ly, wx)) u v in_u in_v lu wv =
      Linked-trans (Linked-Plus x y (p.linked u y in_u in_y (sym lu ∙ ly)))
        (against (inr (refl, refl)) (Linked-Plus x y (p.linked x v in_x in_v (sym wx ∙ wv))))

  merged-Linked :
      (x y loser winner : T) (uf : UnionFind T) (sets : ℕ)
      (p : IsPartition dec missing xs E uf sets)
      → In dec xs x
      → In dec xs y
      → Hangs dec missing (p.label x) (p.label y) loser winner
      → (u v : T) → In dec xs u
      → In dec xs v
      → relabel dec loser winner p.label u ≡ relabel dec loser winner p.label v
      → Linked (Plus E x y) u v
  merged-Linked x y loser winner uf sets p in_x in_y which u v in_u in_v e =
      let over = bridge x y loser winner uf sets p in_x in_y which in
      let at = relabel_at dec missing xs loser winner p.label in
      let off = relabel_off dec missing xs loser winner p.label in
      elim (dec loser (p.label u)) [
        | yes a ↦ elim (dec loser (p.label v)) [
          | yes b ↦ Linked-Plus x y (p.linked u v in_u in_v (sym a ∙ b))
          | no b ↦ over u v in_u in_v a (sym (at u a) ∙ e ∙ off v b)
        ]
        | no a ↦ elim (dec loser (p.label v)) [
          | yes b ↦ Linked-sym (over v u in_v in_u b (sym (at v b) ∙ sym e ∙ off u a))
          | no b ↦ Linked-Plus x y (p.linked u v in_u in_v (sym (off u a) ∙ e ∙ off v b))
        ]
      ]

  -- what a call of Union on two elements did
  unfoldable pub UnionOutcome : T → T → ℕ → UnionFind T → Bool → Type 0
  UnionOutcome x y sets uf1 merged =
      (merged ≡ false × Linked E x y × IsPartition dec missing xs E uf1 sets)
      ⊎ (merged ≡ true
          × (¬ Linked E x y)
          × (sets1 : ℕ) × (sets ≡ suc sets1)
          × IsPartition dec missing xs (Plus E x y) uf1 sets1)

  pub union-IsPartition :
      (fuel : ℕ) (x y : T) (uf : UnionFind T) (sets : ℕ)
      → IsPartition dec missing xs E uf sets
      → Distinct dec xs
      → In dec xs x
      → In dec xs y
      → length xs < fuel
      → (uf1 : UnionFind T) × (merged : Bool) × (union dec missing fuel x y uf ≡ some (uf1, merged))
        × UnionOutcome x y sets uf1 merged
  unfolding union UnionOutcome
  union-IsPartition fuel x y uf sets p distinct in_x in_y enough =
      let label = p.label in
      let (ufa, found_x, fa) =
        find-IsForest dec missing xs fuel x uf label sets p.forest in_x enough in
      let (ufb, found_y, fb) = find-IsForest dec missing xs fuel y ufa label sets fa in_y enough in
      let linked = link dec missing (label x) (label y) ufb in
      let ran : union dec missing fuel x y uf
          ≡ some (ite (dec (label x) (label y)) (ufb, false) (linked, true)) =
        rw (found_x, found_y) refl in
      elim (dec (label x) (label y)) [
        | yes e ↦ (
          ufb,
          false,
          ran ∙ ap some (if_pos (dec (label x) (label y)) e (ufb, false) (linked, true)),
          inl (
            refl,
            p.linked x y in_x in_y e,
            record { label = label; forest = fb; linked = p.linked; kept = p.kept },
          ),
        )
        | no e ↦
            let (loser, winner, which, sets1, fewer_sets, f1) =
              link-IsForest dec missing xs x y ufb label sets fb distinct in_x in_y e in
            (
              linked,
              true,
              ran ∙ ap some (if_neg (dec (label x) (label y)) e (ufb, false) (linked, true)),
              inr (
                refl,
                λ l. e (Linked-label label p.kept l),
                sets1,
                fewer_sets,
                record {
                  label = relabel dec loser winner label;
                  forest = f1;
                  linked = merged-Linked x y loser winner uf sets p in_x in_y which;
                  kept = merged_kept x y loser winner label p.kept e which;
                },
              ),
            )
      ]

  pub connected-IsPartition :
      (fuel : ℕ) (x y : T) (uf : UnionFind T) (sets : ℕ)
      → IsPartition dec missing xs E uf sets
      → In dec xs x
      → In dec xs y
      → length xs < fuel
      → (uf1 : UnionFind T) × (answer : Bool) × (connected dec missing fuel x y uf
          ≡ some (uf1, answer))
        × IsPartition dec missing xs E uf1 sets
        × ((answer ≡ true × Linked E x y) ⊎ (answer ≡ false × (¬ Linked E x y)))
  unfolding connected
  connected-IsPartition fuel x y uf sets p in_x in_y enough =
      let label = p.label in
      let (ufa, found_x, fa) =
        find-IsForest dec missing xs fuel x uf label sets p.forest in_x enough in
      let (ufb, found_y, fb) = find-IsForest dec missing xs fuel y ufa label sets fa in_y enough in
      let ran : connected dec missing fuel x y uf
          ≡ some (ufb, ite (dec (label x) (label y)) true false) =
        rw (found_x, found_y) refl in
      let again : IsPartition dec missing xs E ufb sets = record {
        label = label;
        forest = fb;
        linked = p.linked;
        kept = p.kept;
      } in
      elim (dec (label x) (label y)) [
        | yes e ↦ (
          ufb,
          true,
          ran ∙ ap (λ b. some (ufb, b)) (if_pos (dec (label x) (label y)) e true false),
          again,
          inl (refl, p.linked x y in_x in_y e),
        )
        | no e ↦ (
          ufb,
          false,
          ran ∙ ap (λ b. some (ufb, b)) (if_neg (dec (label x) (label y)) e true false),
          again,
          inr (refl, λ l. e (Linked-label label p.kept l)),
        )
      ]
