-- ===== src/UnionFind/Roots.antt =====
-- The roots of the forest of src/09_dsa/06_union_find, and what Find does to it.
use grin_with_golang.UnionFind.{UnionFind, parent_of, find, ℕ, GoMap, insert, value}
use mathlib.Core.Logic.{ite, if_pos, if_neg}
use grin_with_golang.Prelude.{
  Option, ap, arith, refl, some, subst, suc, sym, zero, ℕ, ◌≤◌, ◌<◌, ◌≡◌, ◌∙◌, ◌>>=◌,
}

-- `r` is the root of `x`, and `n` steps to a parent lead to it
unfoldable pub Up : {T : Type 0} → (T → T) → ℕ → T → T → Type 0
Up par zero x r = x ≡ r × par x ≡ x
Up par (suc n) x r = ¬ (par x ≡ x) × Up par n (par x) r

module _ {T : Type 0} (par : T → T) where
  pub Up-end : (n : ℕ) (x r : T) → Up par n x r → par r ≡ r
  unfolding Up
  Up-end zero x r (same, root) = ap par (sym same) ∙ root ∙ same
  Up-end (suc n) x r (inner, up) = Up-end n (par x) r up

  -- an element has one root
  pub Up-unique : (m n : ℕ) (x r s : T) → Up par m x r → Up par n x s → r ≡ s
  unfolding Up
  Up-unique zero zero x r s (p, root) (q, root2) = sym p ∙ q
  Up-unique zero (suc n) x r s (p, root) (inner, up) = absurd (inner root)
  Up-unique (suc m) zero x r s (inner, up) (q, root) = absurd (inner root)
  Up-unique (suc m) (suc n) x r s (inner, up) (inner2, up2) = Up-unique m n (par x) r s up up2

  Up-inner : (n : ℕ) (x r : T) → Up par n x r → ¬ (x ≡ r) → ¬ (par x ≡ x)
  unfolding Up
  Up-inner zero x r (same, root) apart = absurd (apart same)
  Up-inner (suc n) x r (inner, up) apart = inner

-- The forest keeps its roots, and no element gets further from its root.
unfoldable pub KeepsRoots : {T : Type 0} → (T → T) → (T → T) → Type 0
KeepsRoots {T} par par1 = (m : ℕ) (y s : T) → Up par m y s → (k : ℕ) × (k ≤ m) × Up par1 k y s

module _ {T : Type 0} (dec : Discrete T) (par par1 : T → T) (x r : T) where
  -- a forest in which `x` hangs below its root
  compressed-KeepsRoots :
      (n : ℕ)
      → ¬ (x ≡ r)
      → Up par n x r
      → ((y : T) → par1 y ≡ ite (dec x y) r (par y))
      → KeepsRoots par par1
  unfolding Up KeepsRoots
  compressed-KeepsRoots n apart up hung zero y s (same, root) = elim (dec x y) [
    | yes p ↦ absurd (Up-inner par n x r up apart (ap par p ∙ root ∙ sym p))
    | no p ↦ (0, omega arith, (same, hung y ∙ if_neg (dec x y) p r (par y) ∙ root))
  ]
  compressed-KeepsRoots n apart up hung (suc m) y s (inner, rest) = elim (dec x y) [
    | yes p ↦
        let up_y : Up par n y r = subst (λ z. Up par n z r) p up in
        let same : s ≡ r = Up-unique par (suc m) n y s r (inner, rest) up_y in
        let to_r : par1 y ≡ r = hung y ∙ if_pos (dec x y) p r (par y) in
        let root : par1 r ≡ r = hung r ∙ if_neg (dec x r) apart r (par r) ∙ Up-end par n x r up in
        (
          1,
          omega arith,
          (λ e. apart (p ∙ sym e ∙ to_r), (to_r ∙ sym same, ap par1 to_r ∙ root ∙ sym to_r)),
        )
    | no p ↦
        let step : par1 y ≡ par y = hung y ∙ if_neg (dec x y) p r (par y) in
        let (k, few, up1) = compressed-KeepsRoots n apart up hung m (par y) s rest in
        (
          suc k,
          ground arith,
          (λ e. inner (sym step ∙ e), subst (λ z. Up par1 k z s) (sym step) up1),
        )
  ]

pub KeepsRoots-trans :
    {T : Type 0} (par par1 par2 : T → T)
    → KeepsRoots par par1
    → KeepsRoots par1 par2
    → KeepsRoots par par2
unfolding KeepsRoots
KeepsRoots-trans par par1 par2 keeps keeps1 m y s up =
    let (k, few, up1) = keeps m y s up in
    let (j, fewer, up2) = keeps1 k y s up1 in (j, omega arith, up2)

pub value-insert :
    {T V : Type 0} (dec : Discrete T) (absent : V) (x : T) (v : V) (y : T) (m : GoMap T V)
    → value absent (insert dec x v m y) ≡ ite (dec x y) v (value absent (m y))
value-insert dec absent x v y m = elim (dec x y) [
  | yes p ↦
      ap (value absent) (if_pos (dec x y) p (some v) (m y))
      ∙ sym (if_pos (dec x y) p v (value absent (m y)))
  | no p ↦
      ap (value absent) (if_neg (dec x y) p (some v) (m y))
      ∙ sym (if_neg (dec x y) p v (value absent (m y)))
]

module _ {T : Type 0} (dec : Discrete T) (missing : T) where
  pub parent_of-insert :
      (x r y : T) (m : GoMap T T)
      → value missing (insert dec x r m y) ≡ ite (dec x y) r (value missing (m y))
  parent_of-insert x r y m = value-insert dec missing x r y m

  -- the write of Find after the call for the parent
  abbrev hang : T → UnionFind T × T → Option (UnionFind T × T)
  hang x r = some (record r.0 { parent = insert dec x r.1 r.0.parent }, r.1)

  -- Where `n` steps lead from `x` to the root `r` and the fuel is more than `n`, Find returns `r`. In the
  -- forest that it leaves, `r` is the parent of `x`, and every element that had a root has the same
  -- root, no further away; the ranks and the count of sets do not change.
  pub find-root :
      (n fuel : ℕ) (x r : T) (uf : UnionFind T)
      → Up (parent_of dec missing uf) n x r
      → n < fuel
      → (uf1 : UnionFind T) × (find dec missing fuel x uf ≡ some (uf1, r))
        × (parent_of dec missing uf1 x ≡ r)
        × KeepsRoots (parent_of dec missing uf) (parent_of dec missing uf1)
        × (uf1.rank ≡ uf.rank)
        × (uf1.count ≡ uf.count)
  unfolding find Up KeepsRoots
  find-root n zero x r uf up enough = absurd (omega arith)
  find-root zero (suc fuel) x r uf (same, root) enough =
      let par = parent_of dec missing uf in
      (
        uf,
        if_pos (dec (par x) x) root (some (uf, par x)) (find dec missing fuel (par x) uf >>= hang x)
            ∙ ap (λ z. some (uf, z)) (root ∙ same),
        root ∙ same,
        λ m y s up. (m, omega arith, up),
        refl,
        refl,
      )
  find-root (suc n) (suc fuel) x r uf (inner, up) enough =
      let par = parent_of dec missing uf in
      let (uf1, found, top, keeps, ranks, counts) =
        find-root n fuel (par x) r uf up (ground arith) in
      let apart : ¬ (x ≡ r) = λ e. inner (ap par e ∙ Up-end par n (par x) r up ∙ sym e) in
      let (k, few, up1) = keeps (suc n) x r (inner, up) in
      let uf2 = record uf1 { parent = insert dec x r uf1.parent } in
      (
        uf2,
        if_neg (dec (par x) x) inner (some (uf, par x))
              (find dec missing fuel (par x) uf >>= hang x)
            ∙ ap (λ o. o >>= hang x) found,
        parent_of-insert x r x uf1.parent ∙ if_pos (dec x x) refl r (parent_of dec missing uf1 x),
        KeepsRoots-trans par (parent_of dec missing uf1) (parent_of dec missing uf2) keeps (
            compressed-KeepsRoots dec (parent_of dec missing uf1) (parent_of dec missing uf2) x r k
              apart up1 (λ y. parent_of-insert x r y uf1.parent)),
        ranks,
        counts,
      )
