-- ===== src/UnionFind/Forest.antt =====
-- The invariant of the forest of src/09_dsa/06_union_find under Find and Union: union by rank keeps
-- every element near its root, and the count is the number of roots.
use grin_with_golang.UnionFind.{UnionFind, parent_of, value, find, link, fewer, List, Bool}
use grin_with_golang.UnionFind.Roots.{Up, Up-end, Up-unique, find-root, KeepsRoots}
use grin_with_golang.UnionFind.Merge.{Hangs, Ranked, link-Hangs, ends-Hangs, hung-Up}
use grin_with_golang.UnionFind.Elements.{member, Distinct, count_of, count_of-less}
use grin_with_golang.Prelude.Integers.{pos}
use mathlib.Core.Logic.{ite, if_pos, if_neg}
use grin_with_golang.Prelude.{
  Bool, List, ap, arith, false, inl, inr, refl, some, suc, sym, true, ℕ, ◌+◌, ◌≤◌, ◌<◌, ◌≡◌, ◌∙◌,
  length,
}

abbrev pub In : {T : Type 0} → Discrete T → List T → T → Type 0
In dec xs x = member dec x xs ≡ true

-- the elements that are their own label
abbrev pub is_root : {T : Type 0} → Discrete T → (T → T) → T → Bool
is_root dec label x = ite (dec (label x) x) true false

-- `label` gives the root of every element of `xs`, and `sets` is the number of roots
pub record IsForest {T : Type 0} (dec : Discrete T) (missing : T) (xs : List T) (uf : UnionFind T)
    (label : T → T) (sets : ℕ) : Type 0 where
  pub depth :
      (x : T)
      → In dec xs x
      → (k : ℕ) × (k ≤ value 0 (uf.rank (label x))) × Up (parent_of dec missing uf) k x (label x)
  pub closed : (x : T) → In dec xs x → In dec xs (label x)
  pub counted : uf.count ≡ pos sets
  pub roots : count_of (is_root dec label) xs ≡ sets
  pub ranks : (x : T) → In dec xs x → value 0 (uf.rank x) + sets ≤ length xs

abbrev pub relabel : {T : Type 0} → Discrete T → T → T → (T → T) → T → T
relabel dec loser winner label t = ite (dec loser (label t)) winner (label t)

module _ {T : Type 0} (dec : Discrete T) (missing : T) (xs : List T) where
  pub find-IsForest :
      (fuel : ℕ) (x : T) (uf : UnionFind T) (label : T → T) (sets : ℕ)
      → IsForest dec missing xs uf label sets
      → In dec xs x
      → length xs < fuel
      → (uf1 : UnionFind T) × (find dec missing fuel x uf ≡ some (uf1, label x))
        × IsForest dec missing xs uf1 label sets
  unfolding KeepsRoots
  find-IsForest fuel x uf label sets f inside enough =
      let (k, low, up) = f.depth x inside in
      let bound = f.ranks (label x) (f.closed x inside) in
      let (uf1, found, _, keeps, same, counts) =
        find-root dec missing k fuel x (label x) uf up (omega arith) in
      let rank_same : (t : T) → value 0 (uf1.rank t) ≡ value 0 (uf.rank t) =
        λ t. ap (λ m. value 0 (m t)) same in
      (
        uf1,
        found,
        record {
          depth = λ y h.
              let (m, few, up_y) = f.depth y h in
              let (m1, near, up1) = keeps m y (label y) up_y in
              (m1, (let e = rank_same (label y) in omega arith), up1);
          closed = f.closed;
          counted = counts ∙ f.counted;
          roots = f.roots;
          ranks = λ y h. let e = rank_same y in let b = f.ranks y h in omega arith;
        },
      )

  pub label-root :
      (uf : UnionFind T) (label : T → T) (sets : ℕ)
      → IsForest dec missing xs uf label sets
      → (x : T) → In dec xs x
      → label (label x) ≡ label x
  unfolding Up
  label-root uf label sets f x inside =
      let par = parent_of dec missing uf in
      let (k, _, up) = f.depth x inside in
      let (m, _, up1) = f.depth (label x) (f.closed x inside) in
      Up-unique par m 0 (label x) (label (label x)) (label x) up1
        (refl, Up-end par k x (label x) up)

  pub relabel_at :
      (loser winner : T) (label : T → T) (t : T)
      → loser ≡ label t
      → relabel dec loser winner label t ≡ winner
  relabel_at loser winner label t p = if_pos (dec loser (label t)) p winner (label t)

  pub relabel_off :
      (loser winner : T) (label : T → T) (t : T)
      → ¬ (loser ≡ label t)
      → relabel dec loser winner label t ≡ label t
  relabel_off loser winner label t p = if_neg (dec loser (label t)) p winner (label t)

  -- the loser is a root no longer, and the others stay what they were
  is_root-relabel :
      (loser winner : T) (label : T → T)
      → ¬ (loser ≡ winner)
      → label loser ≡ loser
      → label winner ≡ winner
      → (x : T) → ¬ (loser ≡ x)
      → is_root dec (relabel dec loser winner label) x ≡ is_root dec label x
  is_root-relabel loser winner label apart root_l root_w x off = elim (dec loser (label x)) [
    | yes p ↦
        let to_w = relabel_at loser winner label x p in
        let not_old : ¬ (label x ≡ x) = λ e. off (p ∙ e) in
        let not_new : ¬ (relabel dec loser winner label x ≡ x) =
          λ e. apart (p ∙ ap label (sym e ∙ to_w) ∙ root_w) in
        if_neg (dec (relabel dec loser winner label x) x) not_new true false
        ∙ sym (if_neg (dec (label x) x) not_old true false)
    | no p ↦
        let same = relabel_off loser winner label x p in ap (λ z. ite (dec z x) true false) same
  ]

  labelled :
      (uf : UnionFind T) (label : T → T) (sets : ℕ)
      → IsForest dec missing xs uf label sets
      → (x : T) → In dec xs x
      → (z : T) → z ≡ label x
      → In dec xs z × (label z ≡ z)
  labelled uf label sets f x inside z e = (
    ap (λ v. member dec v xs) e ∙ f.closed x inside,
    ap label e ∙ label-root uf label sets f x inside ∙ sym e,
  )

  two_sides :
      (r s loser winner : T) (P : T → Type 0)
      → ((z : T) → z ≡ r → P z)
      → ((z : T) → z ≡ s → P z)
      → Hangs dec missing r s loser winner
      → P loser × P winner
  unfolding Hangs
  two_sides r s loser winner P at_r at_s (inl (lr, ws)) = (at_r loser lr, at_s winner ws)
  two_sides r s loser winner P at_r at_s (inr (ls, wr)) = (at_s loser ls, at_r winner wr)

  deeper :
      (uf uf1 : UnionFind T) (label : T → T) (loser winner : T)
      → ((t : T) → value 0 (uf.rank t) ≤ value 0 (uf1.rank t))
      → suc (value 0 (uf.rank loser)) ≤ value 0 (uf1.rank winner)
      → (y : T) (k k1 : ℕ) → k ≤ value 0 (uf.rank (label y))
      → k1 ≤ suc k
      → (¬ (loser ≡ label y) → k1 ≤ k)
      → k1 ≤ value 0 (uf1.rank (relabel dec loser winner label y))
  deeper uf uf1 label loser winner rise above y k k1 low near kept = elim (dec loser (label y)) [
    | yes q ↦
        let same : value 0 (uf.rank loser) ≡ value 0 (uf.rank (label y)) =
          ap (λ z. value 0 (uf.rank z)) q in
        let at = ap (λ z. value 0 (uf1.rank z)) (relabel_at loser winner label y q) in omega arith
    | no q ↦
        let at = ap (λ z. value 0 (uf1.rank z)) (relabel_off loser winner label y q) in
        let up = rise (label y) in let few = kept q in omega arith
  ]

  pub link-IsForest :
      (x y : T) (uf : UnionFind T) (label : T → T) (sets : ℕ)
      → IsForest dec missing xs uf label sets
      → Distinct dec xs
      → In dec xs x
      → In dec xs y
      → ¬ (label x ≡ label y)
      → (loser winner : T) × Hangs dec missing (label x) (label y) loser winner
        × (sets1 : ℕ) × (sets ≡ suc sets1)
        × IsForest dec missing xs
            (link dec missing (label x) (label y) uf)
            (relabel dec loser winner label)
            sets1
  unfolding Ranked Hangs
  link-IsForest x y uf label sets f distinct in_x in_y p =
      let par = parent_of dec missing uf in
      let r = label x in
      let s = label y in
      let uf1 = link dec missing r s uf in
      let par1 = parent_of dec missing uf1 in
      let (kx, _, up_x) = f.depth x in_x in
      let (ky, _, up_y) = f.depth y in_y in
      let (loser, winner, which, hung, fewer_sets, (rise, above, by_one)) =
        link-Hangs dec missing r s uf in
      let (apart, par_l, par_w, one_of) =
        ends-Hangs dec missing par r s loser winner p (Up-end par kx x r up_x)
          (Up-end par ky y s up_y) which in
      let lab1 = relabel dec loser winner label in
      let side = labelled uf label sets f in
      let (ends_l, ends_w) =
        two_sides (label x) (label y) loser winner (λ z. In dec xs z × (label z ≡ z)) (side x in_x)
          (side y in_y) which in
      let was = if_pos (dec (label loser) loser) ends_l.1 true false in
      let to_w = relabel_at loser winner label loser (sym ends_l.1) in
      let is = if_neg (dec (lab1 loser) loser) (λ e. apart (sym e ∙ to_w)) true false in
      let drop =
        count_of-less dec (is_root dec label) (is_root dec lab1) loser xs
          (is_root-relabel loser winner label apart ends_l.1 ends_w.1) was is distinct ends_l.0 in
      let sets1 = count_of (is_root dec lab1) xs in
      let one_less : sets ≡ suc sets1 = sym f.roots ∙ drop in
      (
        loser,
        winner,
        which,
        sets1,
        one_less,
        record {
          depth = λ y1 h.
              let (k, low, up) = f.depth y1 h in
              let (k1, near, kept, up1) =
                hung-Up dec par par1 loser winner apart par_l par_w hung k y1 (label y1) up in
              (k1, deeper uf uf1 label loser winner rise above y1 k k1 low near kept, up1);
          closed = λ y1 h. elim (dec loser (label y1)) [
            | yes q ↦ ap (λ z. member dec z xs) (relabel_at loser winner label y1 q) ∙ ends_w.0
            | no q ↦ ap (λ z. member dec z xs) (relabel_off loser winner label y1 q) ∙ f.closed y1 h
          ];
          counted = fewer_sets ∙ ap fewer (f.counted ∙ ap pos one_less);
          roots = refl;
          ranks = λ y1 h. let up = by_one y1 in let b = f.ranks y1 h in omega arith;
        },
      )
