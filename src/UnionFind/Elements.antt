-- ===== src/UnionFind/Elements.antt =====
-- The elements that were made, without repetition, and how many of them pass a test.
use mathlib.Core.Logic.{ite, if_pos, if_neg}
use mathlib.Core.Bool.{false≢true}
use grin_with_golang.Prelude.{
  List, ℕ, Bool, length, if◌then◌else◌, false, ◌∷◌, ◌≡◌, ◌≤◌, [], ap, ap₂, arith, inl, inr, refl,
  suc, sym, true, ◌+◌, ◌∙◌, Bool-cases,
}

module _ {T : Type 0} (dec : Discrete T) where
  unfoldable pub member : T → List T → Bool
  member x [] = false
  member x (y ∷ ys) = ite (dec y x) true (member x ys)

  unfoldable pub Distinct : List T → Type 0
  Distinct [] = Unit
  Distinct (x ∷ xs) = member x xs ≡ false × Distinct xs

  -- the elements after `MakeSet` of every node
  unfoldable pub made : List T → List T → List T
  made [] xs = xs
  made (x ∷ nodes) xs = made nodes (if member x xs then xs else x ∷ xs)

  pub made-Distinct : (nodes xs : List T) → Distinct xs → Distinct (made nodes xs)
  unfolding made Distinct
  made-Distinct [] xs d = d
  made-Distinct (x ∷ nodes) xs d = elim (Bool-cases (member x xs)) [
    | inl old ↦ rw old (made-Distinct nodes xs d)
    | inr fresh ↦ rw fresh (made-Distinct nodes (x ∷ xs) (fresh, d))
  ]

  pub member-head : (x : T) (xs : List T) → member x (x ∷ xs) ≡ true
  unfolding member
  member-head x xs = if_pos (dec x x) refl true (member x xs)

  pub member-tail : (x y : T) (xs : List T) → member x xs ≡ true → member x (y ∷ xs) ≡ true
  unfolding member
  member-tail x y xs h = elim (dec y x) [
    | yes p ↦ if_pos (dec y x) p true (member x xs)
    | no p ↦ if_neg (dec y x) p true (member x xs) ∙ h
  ]

  pub member-made-old :
      (x : T) (nodes xs : List T) → member x xs ≡ true → member x (made nodes xs) ≡ true
  unfolding made
  member-made-old x [] xs h = h
  member-made-old x (y ∷ nodes) xs h = elim (Bool-cases (member y xs)) [
    | inl old ↦ rw old (member-made-old x nodes xs h)
    | inr fresh ↦ rw fresh (member-made-old x nodes (y ∷ xs) (member-tail x y xs h))
  ]

  pub member-made :
      (x : T) (nodes xs : List T) → member x nodes ≡ true → member x (made nodes xs) ≡ true
  unfolding made member
  member-made x [] xs h = absurd (false≢true h)
  member-made x (y ∷ nodes) xs h = elim (dec y x) [
    | yes p ↦ elim (Bool-cases (member y xs)) [
      | inl old ↦ rw old (member-made-old x nodes xs (ap (λ z. member z xs) (sym p) ∙ old))
      | inr fresh ↦ rw fresh (
          member-made-old x nodes (y ∷ xs) (ap (λ z. member z (y ∷ xs)) (sym p) ∙ member-head y xs))
    ]
    | no p ↦
        member-made x nodes (if member y xs then xs else y ∷ xs)
          (sym (if_neg (dec y x) p true (member x nodes)) ∙ h)
  ]

  pub length-made : (nodes xs : List T) → length (made nodes xs) ≤ length nodes + length xs
  unfolding made
  length-made [] xs = omega arith
  length-made (x ∷ nodes) xs = elim (Bool-cases (member x xs)) [
    | inl old ↦ rw old (let h = length-made nodes xs in omega arith)
    | inr fresh ↦ rw fresh (let h = length-made nodes (x ∷ xs) in omega arith)
  ]

-- how many pass a test
unfoldable pub count_of : {T : Type 0} → (T → Bool) → List T → ℕ
count_of f [] = 0
count_of f (x ∷ xs) = (if f x then 1 else 0) + count_of f xs

module _ {T : Type 0} (dec : Discrete T) where
  count_of-same :
      (f g : T → Bool) (l : T) (xs : List T)
      → ((x : T) → ¬ (l ≡ x) → g x ≡ f x)
      → member dec l xs ≡ false
      → count_of g xs ≡ count_of f xs
  unfolding count_of member
  count_of-same f g l [] same absent = refl
  count_of-same f g l (x ∷ xs) same absent = elim (dec x l) [
    | yes p ↦ absurd (false≢true (sym absent ∙ if_pos (dec x l) p true (member dec l xs)))
    | no p ↦
        let rest = sym (if_neg (dec x l) p true (member dec l xs)) ∙ absent in
        ap₂ (λ b n. (if b then 1 else 0) + n) (same x (λ e. p (sym e)))
          (count_of-same f g l xs same rest)
  ]

  -- a test that one element more fails
  pub count_of-less :
      (f g : T → Bool) (l : T) (xs : List T)
      → ((x : T) → ¬ (l ≡ x) → g x ≡ f x)
      → f l ≡ true
      → g l ≡ false
      → Distinct dec xs
      → member dec l xs ≡ true
      → count_of f xs ≡ suc (count_of g xs)
  unfolding count_of member Distinct
  count_of-less f g l [] same was is distinct present = absurd (false≢true present)
  count_of-less f g l (x ∷ xs) same was is (fresh, distinct) present = elim (dec x l) [
    | yes p ↦
        let at_f : f x ≡ true = ap f p ∙ was in
        let at_g : g x ≡ false = ap g p ∙ is in
        let absent : member dec l xs ≡ false = ap (λ z. member dec z xs) (sym p) ∙ fresh in
        let rest = count_of-same f g l xs same absent in rw (at_f, at_g, rest) (ground arith)
    | no p ↦
        let rest = sym (if_neg (dec x l) p true (member dec l xs)) ∙ present in
        let fewer_left = count_of-less f g l xs same was is distinct rest in
        rw (same x (λ e. p (sym e)), fewer_left)
          (elim (Bool-cases (f x)) [ inl b ↦ rw b (ground arith) | inr b ↦ rw b (ground arith) ])
  ]

  count_of-one :
      (f : T → Bool) (a : T) (xs : List T) → f a ≡ true → member dec a xs ≡ true → 1 ≤ count_of f xs
  unfolding count_of member
  count_of-one f a [] fa ina = absurd (false≢true ina)
  count_of-one f a (x ∷ xs) fa ina = elim (dec x a) [
    | yes p ↦ let fx : f x ≡ true = ap f p ∙ fa in rw fx (omega arith)
    | no p ↦
        let rest = count_of-one f a xs fa (sym (if_neg (dec x a) p true (member dec a xs)) ∙ ina) in
        omega arith
  ]

  -- two elements that pass
  pub count_of-two :
      (f : T → Bool) (a b : T) (xs : List T)
      → ¬ (a ≡ b)
      → f a ≡ true
      → f b ≡ true
      → member dec a xs ≡ true
      → member dec b xs ≡ true
      → 2 ≤ count_of f xs
  unfolding count_of member
  count_of-two f a b [] apart fa fb ina inb = absurd (false≢true ina)
  count_of-two f a b (x ∷ xs) apart fa fb ina inb =
      let in_tail : (c : T) → ¬ (x ≡ c) → member dec c (x ∷ xs) ≡ true → member dec c xs ≡ true =
        λ c p h. sym (if_neg (dec x c) p true (member dec c xs)) ∙ h in
      elim (dec x a) [
        | yes p ↦
            let fx : f x ≡ true = ap f p ∙ fa in
            let rest = count_of-one f b xs fb (in_tail b (λ e. apart (sym p ∙ e)) inb) in
            rw fx (omega arith)
        | no p ↦ elim (dec x b) [
          | yes q ↦
              let fx : f x ≡ true = ap f q ∙ fb in
              let rest = count_of-one f a xs fa (in_tail a p ina) in rw fx (omega arith)
          | no q ↦
              let rest = count_of-two f a b xs apart fa fb (in_tail a p ina) (in_tail b q inb) in
              omega arith
        ]
      ]

  pub count_of-all :
      (f : T → Bool) (xs : List T) → ((x : T) → f x ≡ true) → count_of f xs ≡ length xs
  unfolding count_of
  count_of-all f [] all = refl
  count_of-all f (x ∷ xs) all = let rest = count_of-all f xs all in rw (all x, rest) (ground arith)
