-- ===== src/Trie/Examples.antt =====
-- A trie of the words "her", "hero" and "go", their letters as numbers.
use grin_with_golang.Trie.{
  Word, new, search, delete_word, autocomplete, find_node, is_leaf, is_end, children, ◌∷◌, List,
  ◌≡◌, [], insert, insert_at, delete_helper, child, put_child, drop_child,
}
use grin_with_golang.Trie.Deletion.{
  insert_call, delete_call, TrieCall, run, words_after, run-search, delete_word-result,
}
use grin_with_golang.Trie.WordSet.{member, remove}
use grin_with_golang.Trie.Completion.{take, words_below, autocomplete-take}
use grin_with_golang.Trie.Words.{same_word}
use grin_with_golang.Prelude.{◌∷◌, ◌≡◌, List, [], false, none, not, refl, some, ◌&&◌, length}

abbrev her : Word
her = 8 ∷ 5 ∷ 18 ∷ []

abbrev hero : Word
hero = 8 ∷ 5 ∷ 18 ∷ 15 ∷ []

abbrev go : Word
go = 7 ∷ 15 ∷ []

abbrev calls : List TrieCall
calls = insert_call her ∷ insert_call hero ∷ insert_call go ∷ insert_call her ∷ delete_call her ∷ []

run-search_example :
    search (run calls new) hero ≡ member hero (words_after calls [])
    × (run calls new).size ≡ length (words_after calls [])
run-search_example = run-search calls hero

delete_word-result_example :
    let t = run calls new in
    (delete_word t hero).1 ≡ (
      search t hero
      && (is_leaf (children (delete_word t hero).0.root)
          && not (is_end (delete_word t hero).0.root)))
delete_word-result_example = delete_word-result (run calls new) hero

autocomplete-take_example :
    let t = run calls new in
    autocomplete t (8 ∷ []) 5
    ≡ elim (find_node (8 ∷ []) t.root) [ none ↦ [] | some n ↦ take 5 (words_below n) ]
autocomplete-take_example = autocomplete-take (run calls new) (8 ∷ []) 5

words_of_run : words_after calls [] ≡ go ∷ hero ∷ []
unfolding words_after remove member same_word
words_of_run = refl

-- A word is removed, and Delete returns false: another word is left.
delete_of_hero : (delete_word (run calls new) hero).1 ≡ false
unfolding run insert insert_at delete_word delete_helper child put_child drop_child
delete_of_hero = refl
