-- ===== src/Trie/Nodes.antt =====
-- The maps of children in the trie of src/09_dsa/02_trie.
use grin_with_golang.Trie.{
  TrieNode, Children, no_child, child_of, child, put_child, drop_child, is_leaf, ℕ,
}
use grin_with_golang.Prelude.{arith, false, none, refl, some, ℕ, ◌≡◌, ◌==◌, if◌then◌else◌}

pub child-put_child :
    (ch d : ℕ) (m : TrieNode) (cs : Children)
    → child d (put_child ch m cs) ≡ (if ch == d then some m else child d cs)
unfolding child put_child
child-put_child ch d m no_child = ground arith
child-put_child ch d m (child_of c n cs) = ground (arith, child-put_child ch d m cs)

pub child-drop_child :
    (ch d : ℕ) (cs : Children) → child d (drop_child ch cs) ≡ (if ch == d then none else child d cs)
unfolding child drop_child
child-drop_child ch d no_child = ground arith
child-drop_child ch d (child_of c n cs) = ground (arith, child-drop_child ch d cs)

pub is_leaf-put_child :
    (ch : ℕ) (m : TrieNode) (cs : Children) → is_leaf (put_child ch m cs) ≡ false
unfolding put_child
is_leaf-put_child ch m no_child = refl
is_leaf-put_child ch m (child_of c n cs) = ground arith
