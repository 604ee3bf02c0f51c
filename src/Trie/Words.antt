-- ===== src/Trie/Words.antt =====
-- The set of words of a trie of src/09_dsa/02_trie: what Insert and Delete do to Search, and the size.
use grin_with_golang.Trie.{
  TrieNode, Word, node, children, is_end, is_leaf, child, put_child, drop_child, new_trie_node,
  child_or_new, insert_at, find_node, ends, delete_helper, no_child, Bool, ◌≡◌, Option, child_of,
}
use grin_with_golang.Trie.Nodes.{child-put_child, child-drop_child, is_leaf-put_child}
use mathlib.Core.Bool.{false≢true}
use grin_with_golang.Prelude.{
  ◌≡◌, Bool, Option, [], ap, arith, false, inl, inr, none, not, refl, some, sym, true, ℕ_discrete,
  ◌∙◌, ◌&&◌, ◌||◌, ◌∷◌, ◌==◌, ◌>>=◌, if◌then◌else◌, Bool-cases, Option-cases,
}

unfoldable pub same_word : Word → Word → Bool
same_word [] [] = true
same_word (a ∷ xs) (b ∷ bs) = if a == b then same_word xs bs else false
same_word _ _ = false

-- `search` from a node on
abbrev pub search_in : Word → TrieNode → Bool
search_in j n = ends (find_node j n)

pub search-new : (j : Word) → search_in j new_trie_node ≡ false
unfolding find_node child
search-new [] = refl
search-new (c ∷ js) = refl

search-child_or_new :
    (j : Word) (o : Option TrieNode)
    → search_in j (child_or_new o) ≡ ends (o >>= λ n. find_node j n)
search-child_or_new j none = search-new j
search-child_or_new j (some n) = refl

pub search-insert_at :
    (k word j : Word) (n : TrieNode)
    → search_in j (insert_at k word n).0 ≡ (same_word k j || search_in j n)
unfolding insert_at find_node same_word
search-insert_at [] word [] (node cs e w) = refl
search-insert_at [] word (c ∷ js) (node cs e w) = refl
search-insert_at (ch ∷ ks) word [] (node cs e w) = refl
search-insert_at (ch ∷ ks) word (c ∷ js) (node cs e w) =
    let below = (insert_at ks word (child_or_new (child ch cs))).0 in
    let seek : Option TrieNode → Bool = λ o. ends (o >>= λ n. find_node js n) in
    let put = ap seek (child-put_child ch c below cs) in
    elim (ℕ_discrete ch c) [
      | yes p ↦
          let same : (ch == c) ≡ true = ground arith in
          put
          ∙ rw same (search-insert_at ks word js (child_or_new (child ch cs)))
          ∙ ap (λ b. same_word ks js || b)
              (search-child_or_new js (child ch cs) ∙ ap (λ d. seek (child d cs)) p)
          ∙ rw same refl
      | no p ↦ let other : (ch == c) ≡ false = ground arith in put ∙ rw other refl
    ]

pub added-search : (k word : Word) (n : TrieNode) → (insert_at k word n).1 ≡ not (search_in k n)
unfolding insert_at find_node
added-search [] word (node cs e w) = refl
added-search (ch ∷ ks) word (node cs e w) =
    added-search ks word (child_or_new (child ch cs))
    ∙ ap not (search-child_or_new ks (child ch cs))

and_left : (a b : Bool) → (a && b) ≡ true → a ≡ true
and_left true b h = refl
and_left false b h = h

and_right : (a b : Bool) → (a && b) ≡ true → b ≡ true
and_right true b h = h
and_right false b h = absurd (false≢true h)

and_comm : (a b : Bool) → (a && b) ≡ (b && a)
and_comm true true = refl
and_comm true false = refl
and_comm false true = refl
and_comm false false = refl

pub and_false : (a : Bool) → (a && false) ≡ false
and_false true = refl
and_false false = refl

pub not_or : (a b : Bool) → (not a && b) ≡ (not a && (a || b))
not_or true b = refl
not_or false b = refl

not-true : (a : Bool) → not a ≡ true → a ≡ false
not-true true h = sym h
not-true false h = refl

pub removed-search : (k : Word) (n : TrieNode) → (delete_helper k n).2 ≡ search_in k n
unfolding delete_helper find_node
removed-search [] (node cs true w) = refl
removed-search [] (node cs false w) = refl
removed-search (ch ∷ ks) (node cs e w) = elim (Option-cases (child ch cs)) [
  | inl gone ↦ rw (delete_helper, find_node, gone) refl
  | inr (c, there) ↦
      let rest = removed-search ks c in
      elim (Bool-cases (delete_helper ks c).1) [
        | inl prune ↦ rw (delete_helper, find_node, there, prune) rest
        | inr keep ↦ rw (delete_helper, find_node, there, keep) rest
      ]
]

-- A node that is to be deleted has no child and ends no word.
pub should_delete-empty :
    (k : Word) (n : TrieNode)
    → (delete_helper k n).1 ≡ (
        (delete_helper k n).2
        && (is_leaf (children (delete_helper k n).0) && not (is_end (delete_helper k n).0)))
unfolding delete_helper
should_delete-empty [] (node cs true w) = ground arith
should_delete-empty [] (node cs false w) = refl
should_delete-empty (ch ∷ ks) (node cs e w) = elim (Option-cases (child ch cs)) [
  | inl gone ↦ rw (delete_helper, gone) refl
  | inr (c, there) ↦
      let rest = should_delete-empty ks c in
      elim (Bool-cases (delete_helper ks c).1) [
        | inl prune ↦
            rw (delete_helper, there, prune)
              (let gone =
                  and_left ((delete_helper ks c).2)
                    (is_leaf (children (delete_helper ks c).0)
                      && not (is_end (delete_helper ks c).0))
                    (sym rest ∙ prune) in
                rw gone (and_comm (not e) (is_leaf (drop_child ch cs))))
        | inr keep ↦
            rw (delete_helper, there, keep)
              (rw (is_leaf-put_child ch (delete_helper ks c).0 cs)
                (sym (and_false (delete_helper ks c).2)))
      ]
]

search-empty :
    (j : Word) (n : TrieNode)
    → is_leaf (children n) ≡ true
    → is_end n ≡ false
    → search_in j n ≡ false
unfolding find_node child
search-empty [] (node cs e w) p q = q
search-empty (c ∷ js) (node no_child e w) p q = refl
search-empty (c ∷ js) (node (child_of d n cs) e w) p q = absurd (false≢true p)

-- a pruned node is found to hold no word
pruned-search :
    (k j : Word) (n : TrieNode)
    → (delete_helper k n).1 ≡ true
    → search_in j (delete_helper k n).0 ≡ false
pruned-search k j n h =
    let facts = and_right _ _ (sym (should_delete-empty k n) ∙ h) in
    search-empty j (delete_helper k n).0 (and_left _ _ facts) (not-true _ (and_right _ _ facts))

pub search-delete_helper :
    (k j : Word) (n : TrieNode)
    → search_in j (delete_helper k n).0 ≡ (not (same_word k j) && search_in j n)
unfolding delete_helper find_node same_word
search-delete_helper [] [] (node cs true w) = refl
search-delete_helper [] [] (node cs false w) = refl
search-delete_helper [] (c ∷ js) (node cs true w) = refl
search-delete_helper [] (c ∷ js) (node cs false w) = refl
search-delete_helper (ch ∷ ks) j (node cs e w) = elim (Option-cases (child ch cs)) [
  | inl gone ↦ rw (delete_helper, gone) (unchanged j gone)
  | inr (c, there) ↦ elim (Bool-cases (delete_helper ks c).1) [
    | inl prune ↦
        rw (delete_helper, there, prune)
          (dropped j c there prune (λ i. search-delete_helper ks i c))
    | inr keep ↦ rw (delete_helper, there, keep) (kept j c there (λ i. search-delete_helper ks i c))
  ]
]
  where
    unchanged :
        (j : Word)
        → child ch cs ≡ none
        → search_in j (node cs e w) ≡ (not (same_word (ch ∷ ks) j) && search_in j (node cs e w))
    unchanged [] gone = refl
    unchanged (d ∷ js) gone = elim (ℕ_discrete ch d) [
      | yes p ↦
          let missing : child d cs ≡ none = ap (λ i. child i cs) (sym p) ∙ gone in
          rw missing (sym (and_false _))
      | no p ↦ let other : (ch == d) ≡ false = ground arith in rw other refl
    ]

    dropped :
        (j : Word) (c : TrieNode)
        → child ch cs ≡ some c
        → (delete_helper ks c).1 ≡ true
        → ((i : Word)
            → search_in i (delete_helper ks c).0 ≡ (not (same_word ks i) && search_in i c))
        → search_in j (node (drop_child ch cs) e w)
          ≡ (not (same_word (ch ∷ ks) j) && search_in j (node cs e w))
    dropped [] c there prune below = refl
    dropped (d ∷ js) c there prune below = elim (ℕ_discrete ch d) [
      | yes p ↦
          let same : (ch == d) ≡ true = ground arith in
          let there_d : child d cs ≡ some c = ap (λ i. child i cs) (sym p) ∙ there in
          let dropped_d : child d (drop_child ch cs) ≡ none =
            child-drop_child ch d cs ∙ rw same refl in
          rw (dropped_d, there_d, same) (sym (pruned-search ks js c prune) ∙ below js)
      | no p ↦
          let other : (ch == d) ≡ false = ground arith in
          let same_child : child d (drop_child ch cs) ≡ child d cs =
            child-drop_child ch d cs ∙ rw other refl in
          rw (same_child, other) refl
    ]

    kept :
        (j : Word) (c : TrieNode)
        → child ch cs ≡ some c
        → ((i : Word)
            → search_in i (delete_helper ks c).0 ≡ (not (same_word ks i) && search_in i c))
        → search_in j (node (put_child ch (delete_helper ks c).0 cs) e w)
          ≡ (not (same_word (ch ∷ ks) j) && search_in j (node cs e w))
    kept [] c there below = refl
    kept (d ∷ js) c there below = elim (ℕ_discrete ch d) [
      | yes p ↦
          let same : (ch == d) ≡ true = ground arith in
          let there_d : child d cs ≡ some c = ap (λ i. child i cs) (sym p) ∙ there in
          let put_d : child d (put_child ch (delete_helper ks c).0 cs)
              ≡ some (delete_helper ks c).0 =
            child-put_child ch d (delete_helper ks c).0 cs ∙ rw same refl in
          rw (put_d, there_d, same) (below js)
      | no p ↦
          let other : (ch == d) ≡ false = ground arith in
          let same_child : child d (put_child ch (delete_helper ks c).0 cs) ≡ child d cs =
            child-put_child ch d (delete_helper ks c).0 cs ∙ rw other refl in
          rw (same_child, other) refl
    ]
