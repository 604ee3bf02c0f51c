-- ===== src/Trie.antt =====
-- The trie of src/09_dsa/02_trie/main.go.
-- A word is the list of its runes. A node is reached from its parent only, so the pointers make a
-- tree; the map of the children is a list, whose order stands for the order of a range over the map.
pub mod Nodes
pub mod Words
pub mod WordSet
pub mod Deletion
pub mod Completion
mod Examples
use grin_with_golang.Prelude.{
  List, ℕ, Bool, false, Option, if◌then◌else◌, [], ap, append-nil, append_assoc, ap₂, arith,
  bit_and, bit_or, dec_le, dec_lt, fun_ext, inl, inr, map, max, min, none, not, refl, some, subst,
  suc, sym, true, zero, ℕ_discrete, ◌+◌, ◌-◌, ◌*◌, ◌/◌, ◌%◌, ◌^◌, ◌≤◌, ◌<◌, ◌≡◌, ◌≢◌, ◌↔◌, ◌⊎◌, ◌∙◌,
  ◌&&◌, ◌||◌, ◌∷◌, ◌++◌, ◌==◌, ◌>>=◌, ltb, leb, length, get_elem?, get_or, set, store, replicate,
  Bool-cases, Option-cases, length-append, length-set, length-replicate, get_or-set,
  get_elem?-get_or,
}

abbrev pub Word : Type 0
Word = List ℕ

mutual
  pub data TrieNode : Type 0 where
    node : Children → Bool → Word → TrieNode

  pub data Children : Type 0 where
    no_child : Children
    child_of : ℕ → TrieNode → Children → Children

pub record Trie : Type 0 where
  pub root : TrieNode
  pub size : ℕ

abbrev pub children : TrieNode → Children
children (node cs e w) = cs

abbrev pub is_end : TrieNode → Bool
is_end (node cs e w) = e

-- `len(node.children) == 0`
abbrev pub is_leaf : Children → Bool
is_leaf no_child = true
is_leaf (child_of ch n cs) = false

-- `children[ch]`, `children[ch] = n` and `delete(children, ch)`
unfoldable pub child : ℕ → Children → Option TrieNode
child ch no_child = none
child ch (child_of d n cs) = if ch == d then some n else child ch cs

unfoldable pub put_child : ℕ → TrieNode → Children → Children
put_child ch m no_child = child_of ch m no_child
put_child ch m (child_of d n cs) =
    if ch == d then child_of d m cs else child_of d n (put_child ch m cs)

unfoldable pub drop_child : ℕ → Children → Children
drop_child ch no_child = no_child
drop_child ch (child_of d n cs) =
    let rest = drop_child ch cs in if ch == d then rest else child_of d n rest

abbrev pub new_trie_node : TrieNode
new_trie_node = node no_child false []

abbrev pub new : Trie
new = record { root = new_trie_node; size = 0 }

abbrev pub child_or_new : Option TrieNode → TrieNode
child_or_new none = new_trie_node
child_or_new (some n) = n

-- The loop of `Insert` from a node on, with the runes that are left and the word; it returns the new
-- node, and whether the word is new.
unfoldable pub insert_at : Word → Word → TrieNode → TrieNode × Bool
insert_at [] word (node cs e w) = (node cs true word, not e)
insert_at (ch ∷ chs) word (node cs e w) =
    let (below, added) = insert_at chs word (child_or_new (child ch cs)) in
    (node (put_child ch below cs) e w, added)

unfoldable pub insert : Trie → Word → Trie
insert t word =
    let (root, added) = insert_at word word t.root in
    record { root = root; size = if added then t.size + 1 else t.size }

unfoldable pub find_node : Word → TrieNode → Option TrieNode
find_node [] n = some n
find_node (ch ∷ chs) (node cs e w) = child ch cs >>= λ n. find_node chs n

-- `node != nil && node.isEnd`
abbrev pub ends : Option TrieNode → Bool
ends none = false
ends (some n) = is_end n

unfoldable pub search : Trie → Word → Bool
search t word = ends (find_node word t.root)

unfoldable pub starts_with : Trie → Word → Bool
starts_with t prefix = elim (find_node prefix t.root) [ none ↦ false | some n ↦ true ]

-- The new node, the result, and whether a word was removed.
unfoldable pub delete_helper : Word → TrieNode → TrieNode × Bool × Bool
delete_helper [] (node cs e w) =
    if e then (node cs false w, is_leaf cs, true) else (node cs e w, false, false)
delete_helper (ch ∷ chs) (node cs e w) = elim (child ch cs) [
  | none ↦ (node cs e w, false, false)
  | some c ↦
      let (below, should_delete, removed) = delete_helper chs c in
      let pruned = drop_child ch cs in
      if should_delete
      then (node pruned e w, not e && is_leaf pruned, removed)
      else (node (put_child ch below cs) e w, false, removed)
]

unfoldable pub delete_word : Trie → Word → Trie × Bool
delete_word t word =
    let (root, result, removed) = delete_helper word t.root in
    (record { root = root; size = if removed then t.size - 1 else t.size }, result)

-- `collect`, with the results so far and the limit
unfoldable mutual
  pub collect : TrieNode → ℕ → List Word → List Word
  collect (node cs e w) limit results =
      if leb limit (length results)
      then results
      else collect_children cs limit (if e then results ++ w ∷ [] else results)

  pub collect_children : Children → ℕ → List Word → List Word
  collect_children no_child limit results = results
  collect_children (child_of ch n cs) limit results =
      collect_children cs limit (collect n limit results)

unfoldable pub autocomplete : Trie → Word → ℕ → List Word
autocomplete t prefix limit = elim (find_node prefix t.root) [
  | none ↦ []
  | some n ↦ collect n limit []
]
