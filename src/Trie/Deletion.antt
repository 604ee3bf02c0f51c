-- ===== src/Trie/Deletion.antt =====
-- Sequences of Insert and Delete on a trie of src/09_dsa/02_trie, against a list of distinct words,
-- and what Delete returns.
use grin_with_golang.Trie.{
  Word, Trie, search, delete_word, delete_helper, insert, List, ◌≡◌, insert_at, new, is_leaf,
  children, is_end,
}
use grin_with_golang.Trie.Words.{
  same_word, search-new, search-insert_at, added-search, removed-search, search-delete_helper,
  should_delete-empty,
}
use grin_with_golang.Prelude.{
  ◌≡◌, List, [], ap, arith, inl, inr, not, refl, sym, ◌+◌, ◌∙◌, ◌&&◌, ◌||◌, ◌∷◌, if◌then◌else◌,
  length, Bool-cases,
}
use grin_with_golang.Trie.WordSet.{
  member, remove, Distinct, member-insert, member-remove, Distinct-remove, length-remove,
}

pub data TrieCall : Type 0 where
  insert_call : Word → TrieCall
  delete_call : Word → TrieCall

unfoldable pub run : List TrieCall → Trie → Trie
run [] t = t
run (insert_call w ∷ calls) t = run calls (insert t w)
run (delete_call w ∷ calls) t = run calls (delete_word t w).0

-- the distinct words of a set after a sequence of calls
unfoldable pub words_after : List TrieCall → List Word → List Word
words_after [] words = words
words_after (insert_call w ∷ calls) words =
    words_after calls (if member w words then words else w ∷ words)
words_after (delete_call w ∷ calls) words = words_after calls (remove w words)

unfoldable Holds : Trie → List Word → Type 0
Holds t words = ((j : Word) → search t j ≡ member j words) × t.size ≡ length words × Distinct words

insert-Holds :
    (t : Trie) (words : List Word) (w : Word)
    → Holds t words
    → Holds (insert t w) (if member w words then words else w ∷ words)
unfolding Holds insert search Distinct
insert-Holds t words w (finds, counts, distinct) = (
  λ j.
      search-insert_at w w j t.root
      ∙ ap (λ b. same_word w j || b) (finds j)
      ∙ sym (member-insert w j words),
  let added : (insert_at w w t.root).1 ≡ not (member w words) =
        added-search w w t.root ∙ ap not (finds w) in
      elim (Bool-cases (member w words)) [
        | inl old ↦ rw (added, old) counts
        | inr fresh ↦ rw (added, fresh) (ground arith)
      ],
  elim (Bool-cases (member w words)) [
    | inl old ↦ rw old distinct
    | inr fresh ↦ rw fresh (fresh, distinct)
  ],
)

delete_word-Holds :
    (t : Trie) (words : List Word) (w : Word)
    → Holds t words
    → Holds (delete_word t w).0 (remove w words)
unfolding Holds delete_word search
delete_word-Holds t words w (finds, counts, distinct) = (
  λ j.
      search-delete_helper w j t.root
      ∙ ap (λ b. not (same_word w j) && b) (finds j)
      ∙ sym (member-remove w j words),
  let removed : (delete_helper w t.root).2 ≡ member w words = removed-search w t.root ∙ finds w in
      let shorter = length-remove w words distinct in
      elim (Bool-cases (member w words)) [
        | inl old ↦
            let once : length words ≡ length (remove w words) + 1 = shorter ∙ rw old refl in
            rw (removed, old) (ground arith)
        | inr absent ↦
            let same : length words ≡ length (remove w words) = shorter ∙ rw absent refl in
            rw (removed, absent) (counts ∙ same)
      ],
  Distinct-remove w words distinct,
)

run-Holds :
    (calls : List TrieCall) (t : Trie) (words : List Word)
    → Holds t words
    → Holds (run calls t) (words_after calls words)
unfolding run words_after
run-Holds [] t words h = h
run-Holds (insert_call w ∷ calls) t words h =
    run-Holds calls (insert t w) (if member w words then words else w ∷ words)
      (insert-Holds t words w h)
run-Holds (delete_call w ∷ calls) t words h =
    run-Holds calls (delete_word t w).0 (remove w words) (delete_word-Holds t words w h)

new-Holds : Holds new []
unfolding Holds search member Distinct
new-Holds = (λ j. search-new j, refl, tt)

-- After every sequence of calls of Insert and Delete on a new trie, Search finds a word just when the
-- word is in the set that the calls make, and the size is the number of words in that set.
pub run-search :
    (calls : List TrieCall) (word : Word)
    → search (run calls new) word ≡ member word (words_after calls [])
      × (run calls new).size ≡ length (words_after calls [])
unfolding Holds
run-search calls word =
    let (finds, counts, distinct) = run-Holds calls new [] new-Holds in (finds word, counts)

-- Delete returns whether the word was found and the root is then without a child and without the end
-- of a word, that is, whether the deletion made the trie empty.
pub delete_word-result :
    (t : Trie) (word : Word)
    → (delete_word t word).1 ≡ (
        search t word
        && (is_leaf (children (delete_word t word).0.root)
            && not (is_end (delete_word t word).0.root)))
unfolding delete_word search
delete_word-result t word =
    should_delete-empty word t.root
    ∙ ap
        (λ b.
          b
          && (is_leaf (children (delete_helper word t.root).0)
              && not (is_end (delete_helper word t.root).0)))
        (removed-search word t.root)
