-- ===== src/UnionFind/Linked.antt =====
-- Elements that edges link, the independent view of the sets of src/09_dsa/06_union_find.
use grin_with_golang.Prelude.{◌≡◌, refl, sym, ◌∙◌, ◌⊎◌, inl}

-- a path of edges, taken in either direction
pub data Linked {T : Type 0} (E : T → T → Type 0) : T → T → Type 0 where
  here : {x : T} → Linked E x x
  along : {x y z : T} → E x y → Linked E y z → Linked E x z
  against : {x y z : T} → E y x → Linked E y z → Linked E x z

-- one edge more
abbrev pub Plus : {T : Type 0} → (T → T → Type 0) → T → T → T → T → Type 0
Plus E a b u v = E u v ⊎ (a ≡ u × b ≡ v)

pub Linked-trans :
    {T : Type 0} {E : T → T → Type 0} {x y z : T} → Linked E x y → Linked E y z → Linked E x z
Linked-trans here q = q
Linked-trans (along e p) q = along e (Linked-trans p q)
Linked-trans (against e p) q = against e (Linked-trans p q)

pub Linked-sym : {T : Type 0} {E : T → T → Type 0} {x y : T} → Linked E x y → Linked E y x
Linked-sym here = here
Linked-sym (along e p) = Linked-trans (Linked-sym p) (against e here)
Linked-sym (against e p) = Linked-trans (Linked-sym p) (along e here)

pub Linked-mono :
    {T : Type 0} {E F : T → T → Type 0}
    → ((u v : T) → E u v → Linked F u v)
    → {x y : T} → Linked E x y
    → Linked F x y
Linked-mono f here = here
Linked-mono f (along {x} {y} e p) = Linked-trans (f x y e) (Linked-mono f p)
Linked-mono f (against {x} {y} e p) = Linked-trans (Linked-sym (f y x e)) (Linked-mono f p)

-- a label that edges keep is kept by paths
pub Linked-label :
    {T L : Type 0} {E : T → T → Type 0} (label : T → L)
    → ((u v : T) → E u v → label u ≡ label v)
    → {x y : T} → Linked E x y
    → label x ≡ label y
Linked-label label f here = refl
Linked-label label f (along {x} {y} e p) = f x y e ∙ Linked-label label f p
Linked-label label f (against {x} {y} e p) = sym (f y x e) ∙ Linked-label label f p

pub Linked-Plus :
    {T : Type 0} {E : T → T → Type 0} (a b : T) {x y : T} → Linked E x y → Linked (Plus E a b) x y
Linked-Plus {E = E} a b = Linked-mono {E = E} {F = Plus E a b} (λ u v e. along (inl e) here)
