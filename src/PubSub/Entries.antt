-- ===== src/PubSub/Entries.antt =====
-- The map of subscribers of src/05_patterns/06_pub_sub as a list of entries.
use grin_with_golang.PubSub.{lookup, put, List, ℕ, ◌∷◌}
use grin_with_golang.Prelude.{
  Bool, List, [], ap, arith, false, inl, inr, refl, sym, true, ℕ, ◌≡◌, ◌∙◌, ◌∷◌, ◌==◌,
  if◌then◌else◌, Bool-cases,
}

abbrev pub Subscribers : Type 0
Subscribers = List (ℕ × List ℕ)

unfoldable pub has_key : ℕ → Subscribers → Bool
has_key topic [] = false
has_key topic (e ∷ es) = if e.0 == topic then true else has_key topic es

unfoldable pub DistinctKeys : Subscribers → Type 0
DistinctKeys [] = Unit
DistinctKeys (e ∷ es) = has_key e.0 es ≡ false × DistinctKeys es

pub lookup-put :
    (n topic : ℕ) (subs : List ℕ) (es : Subscribers)
    → lookup n (put topic subs es) ≡ (if topic == n then subs else lookup n es)
unfolding lookup put
lookup-put n topic subs [] = ground arith
lookup-put n topic subs (e ∷ es) = ground (arith, lookup-put n topic subs es)

has_key-put :
    (n topic : ℕ) (subs : List ℕ) (es : Subscribers)
    → has_key n (put topic subs es) ≡ (if topic == n then true else has_key n es)
unfolding has_key put
has_key-put n topic subs [] = ground arith
has_key-put n topic subs (e ∷ es) = ground (arith, has_key-put n topic subs es)

pub put-DistinctKeys :
    (topic : ℕ) (subs : List ℕ) (es : Subscribers)
    → DistinctKeys es
    → DistinctKeys (put topic subs es)
unfolding DistinctKeys has_key put
put-DistinctKeys topic subs [] d = (refl, tt)
put-DistinctKeys topic subs (e ∷ es) (fresh, d) = elim (Bool-cases (e.0 == topic)) [
  | inl same ↦
      let here : e.0 ≡ topic = ground arith in
      rw same (ap (λ t. has_key t es) (sym here) ∙ fresh, d)
  | inr other ↦
      let apart : (topic == e.0) ≡ false = ground arith in
      rw other (has_key-put e.0 topic subs es ∙ rw apart fresh, put-DistinctKeys topic subs es d)
]

pub lookup-has_key :
    (topic : ℕ) (es : Subscribers) → has_key topic es ≡ false → lookup topic es ≡ []
unfolding has_key lookup
lookup-has_key topic [] h = refl
lookup-has_key topic (e ∷ es) h = ground (arith, lookup-has_key topic es)
