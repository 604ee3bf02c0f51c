-- ===== src/Trie/Completion.antt =====
-- Autocomplete of src/09_dsa/02_trie against a listing of the words below a node.
use grin_with_golang.Trie.{
  Word, TrieNode, Children, Trie, node, no_child, child_of, collect, collect_children, autocomplete,
  find_node, List, ℕ,
}
use grin_with_golang.Prelude.{
  List, [], ap, append-nil, append_assoc, arith, false, inl, inr, min, none, refl, some, suc, sym,
  true, ℕ, ℕ_discrete, ◌+◌, ◌-◌, ◌≡◌, ◌∙◌, ◌∷◌, ◌++◌, ◌==◌, if◌then◌else◌, leb, length, Bool-cases,
  Option-cases, length-append,
}

-- the words of a subtree, a node before its children
unfoldable mutual
  pub words_below : TrieNode → List Word
  words_below (node cs e w) = if e then w ∷ words_of cs else words_of cs

  pub words_of : Children → List Word
  words_of no_child = []
  words_of (child_of ch n cs) = words_below n ++ words_of cs

unfoldable pub take : {A : Type 0} → ℕ → List A → List A
take k [] = []
take k (x ∷ xs) = let rest = take (k - 1) xs in if k == 0 then [] else x ∷ rest

take_zero : {A : Type 0} (xs : List A) → take 0 xs ≡ []
unfolding take
take_zero [] = refl
take_zero (x ∷ xs) = refl

take-append :
    {A : Type 0} (k : ℕ) (xs ys : List A) → take k (xs ++ ys) ≡ take k xs ++ take (k - length xs) ys
unfolding take
take-append k [] ys = let whole : k ≡ k - 0 = omega arith in ap (λ i. take i ys) whole
take-append k (x ∷ xs) ys = elim (ℕ_discrete k 0) [
  | yes p ↦
      let nothing : 0 ≡ 0 - suc (length xs) = omega arith in
      rw p (sym (take_zero ys) ∙ ap (λ i. take i ys) nothing)
  | no p ↦
      let more : (k == 0) ≡ false = ground arith in
      let rest = take-append (k - 1) xs ys in
      let left : k - 1 - length xs ≡ k - suc (length xs) = ground arith in
      rw more (ap (λ zs. x ∷ zs) (rest ∙ ap (λ i. take (k - 1) xs ++ take i ys) left))
]

length-take : {A : Type 0} (k : ℕ) (xs : List A) → length (take k xs) ≡ min k (length xs)
unfolding take
length-take k [] = ground arith
length-take k (x ∷ xs) = ground (arith, length-take (k - 1) xs)

-- collecting one part and then another is collecting both
take_twice :
    (limit : ℕ) (results xs ys : List Word)
    → let first = results ++ take (limit - length results) xs in
      first ++ take (limit - length first) ys ≡ results ++ take (limit - length results) (xs ++ ys)
take_twice limit results xs ys =
    let k = limit - length results in
    let first = results ++ take k xs in
    let counted : length first ≡ length results + length (take k xs) =
      length-append results (take k xs) in
    let taken = length-take k xs in
    let left : limit - length first ≡ k - length xs = omega arith in
    ap (λ i. first ++ take i ys) left
    ∙ append_assoc results (take k xs) (take (k - length xs) ys)
    ∙ ap (λ zs. results ++ zs) (sym (take-append k xs ys))

take-full :
    (limit : ℕ) (results ws : List Word)
    → leb limit (length results) ≡ true
    → results ≡ results ++ take (limit - length results) ws
take-full limit results ws full =
    let nothing : 0 ≡ limit - length results = ground arith in
    sym (append-nil results)
    ∙ ap (λ zs. results ++ zs) (sym (take_zero ws) ∙ ap (λ i. take i ws) nothing)

take-room :
    (limit : ℕ) (results : List Word) (w : Word) (ws : List Word)
    → leb limit (length results) ≡ false
    → (results ++ w ∷ []) ++ take (limit - length (results ++ w ∷ [])) ws
      ≡ results ++ take (limit - length results) (w ∷ ws)
unfolding take
take-room limit results w ws room =
    let more : (limit - length results == 0) ≡ false = ground arith in
    let one : take (limit - length results) (w ∷ []) ≡ w ∷ [] = rw more refl in
    ap (λ zs. (results ++ zs) ++ take (limit - length (results ++ zs)) ws) (sym one)
    ∙ take_twice limit results (w ∷ []) ws

mutual
  unfolding collect collect_children words_below words_of take

  collect-words_below :
      (n : TrieNode) (limit : ℕ) (results : List Word)
      → collect n limit results ≡ results ++ take (limit - length results) (words_below n)
  collect-words_below (node cs e w) limit results = elim (Bool-cases (leb limit (length results))) [
    | inl full ↦ rw full (take-full limit results (if e then w ∷ words_of cs else words_of cs) full)
    | inr room ↦ elim (Bool-cases e) [
      | inl ends ↦
          rw (room, ends)
            (collect_children-words_of cs limit (results ++ w ∷ [])
              ∙ take-room limit results w (words_of cs) room)
      | inr passes ↦ rw (room, passes) (collect_children-words_of cs limit results)
    ]
  ]

  collect_children-words_of :
      (cs : Children) (limit : ℕ) (results : List Word)
      → collect_children cs limit results ≡ results ++ take (limit - length results) (words_of cs)
  collect_children-words_of no_child limit results = sym (append-nil results)
  collect_children-words_of (child_of ch n cs) limit results =
      collect_children-words_of cs limit (collect n limit results)
      ∙ ap (λ rs. rs ++ take (limit - length rs) (words_of cs))
          (collect-words_below n limit results)
      ∙ take_twice limit results (words_below n) (words_of cs)

-- Autocomplete returns the first `limit` words of the listing of the subtree of the prefix, which is
-- empty where no node has the prefix.
pub autocomplete-take :
    (t : Trie) (prefix : Word) (limit : ℕ)
    → autocomplete t prefix limit
      ≡ elim (find_node prefix t.root) [ none ↦ [] | some n ↦ take limit (words_below n) ]
unfolding autocomplete
autocomplete-take t prefix limit = elim (Option-cases (find_node prefix t.root)) [
  | inl gone ↦ rw (autocomplete, gone) refl
  | inr (n, there) ↦
      let whole : limit - 0 ≡ limit = omega arith in
      rw (autocomplete, there)
        (collect-words_below n limit [] ∙ ap (λ i. take i (words_below n)) whole)
]
