-- ===== src/Trie/WordSet.antt =====
-- Sets of words as lists of distinct words, the reference for the trie of src/09_dsa/02_trie.
use grin_with_golang.Trie.{Word, List, ◌≡◌}
use mathlib.Core.Bool.{false≢true}
use grin_with_golang.Trie.Words.{and_false, same_word, not_or}
use grin_with_golang.Prelude.{
  ◌≡◌, Bool, List, [], ap, ap₂, arith, false, inl, inr, not, refl, sym, true, ◌+◌, ◌∙◌, ◌&&◌, ◌||◌,
  ◌∷◌, ◌==◌, if◌then◌else◌, length, Bool-cases,
}

unfoldable pub member : Word → List Word → Bool
member j [] = false
member j (w ∷ words) = same_word w j || member j words

unfoldable pub remove : Word → List Word → List Word
remove w [] = []
remove w (v ∷ words) = let rest = remove w words in if same_word w v then rest else v ∷ rest

unfoldable pub Distinct : List Word → Type 0
Distinct [] = Unit
Distinct (w ∷ words) = member w words ≡ false × Distinct words

same_word_refl : (w : Word) → same_word w w ≡ true
unfolding same_word
same_word_refl [] = refl
same_word_refl (c ∷ w) = ground (arith, same_word_refl w)

if_true_then : (a b : Bool) → (if a then b else false) ≡ true → a ≡ true × b ≡ true
if_true_then true b h = (refl, h)
if_true_then false b h = absurd (false≢true h)

same_word_eq : (v w : Word) → same_word v w ≡ true → v ≡ w
unfolding same_word
same_word_eq [] [] h = refl
same_word_eq [] (c ∷ w) h = absurd (false≢true h)
same_word_eq (c ∷ v) [] h = absurd (false≢true h)
same_word_eq (c ∷ v) (d ∷ w) h =
    let (heads, tails) = if_true_then (c == d) (same_word v w) h in
    let p : c ≡ d = ground arith in ap₂ (λ i is. i ∷ is) p (same_word_eq v w tails)

same_word_sym : (v w : Word) → same_word v w ≡ same_word w v
unfolding same_word
same_word_sym [] [] = refl
same_word_sym [] (d ∷ w) = refl
same_word_sym (c ∷ v) [] = refl
same_word_sym (c ∷ v) (d ∷ w) = ground (arith, same_word_sym v w)

pub member-insert :
    (w j : Word) (words : List Word)
    → member j (if member w words then words else w ∷ words) ≡ (same_word w j || member j words)
unfolding member
member-insert w j words = elim (Bool-cases (member w words)) [
  | inl old ↦ elim (Bool-cases (same_word w j)) [
    | inl same ↦
        let there : member j words ≡ true =
          ap (λ i. member i words) (sym (same_word_eq w j same)) ∙ old in
        rw (old, same) there
    | inr other ↦ rw (old, other) refl
  ]
  | inr fresh ↦ rw fresh refl
]

pub member-remove :
    (w j : Word) (words : List Word)
    → member j (remove w words) ≡ (not (same_word w j) && member j words)
unfolding member remove
member-remove w j [] = sym (and_false (not (same_word w j)))
member-remove w j (v ∷ words) = elim (Bool-cases (same_word w v)) [
  | inl same ↦
      let at_w : same_word v j ≡ same_word w j =
        ap (λ i. same_word i j) (sym (same_word_eq w v same)) in
      rw (same, at_w, member-remove w j words) (not_or (same_word w j) (member j words))
  | inr other ↦
      rw (other, member-remove w j words)
        (elim (Bool-cases (same_word v j)) [
          | inl same ↦
              let apart : same_word w j ≡ false =
                ap (λ i. same_word w i) (sym (same_word_eq v j same)) ∙ other in
              rw (same, apart) refl
          | inr apart ↦ rw apart refl
        ])
]

pub Distinct-remove : (w : Word) (words : List Word) → Distinct words → Distinct (remove w words)
unfolding Distinct remove
Distinct-remove w [] d = d
Distinct-remove w (v ∷ words) (fresh, d) = elim (Bool-cases (same_word w v)) [
  | inl same ↦ rw same (Distinct-remove w words d)
  | inr other ↦ rw other (
    member-remove w v words
        ∙ ap (λ b. not (same_word w v) && b) fresh
        ∙ and_false (not (same_word w v)),
    Distinct-remove w words d,
  )
]

pub length-remove :
    (w : Word) (words : List Word)
    → Distinct words
    → length words
      ≡ (if member w words then length (remove w words) + 1 else length (remove w words))
unfolding Distinct remove member
length-remove w [] d = refl
length-remove w (v ∷ words) (fresh, d) =
    let rest = length-remove w words d in
    elim (Bool-cases (same_word w v)) [
      | inl same ↦
          let at_w : member w words ≡ false =
            ap (λ i. member i words) (same_word_eq w v same) ∙ fresh in
          let kept : length words ≡ length (remove w words) = rest ∙ rw at_w refl in
          rw (same_word_sym v w, same) (ground arith)
      | inr other ↦ rw (same_word_sym v w, other) (ground arith)
    ]
