-- ===== src/LruCache/Linked.antt =====
-- How the recency list and the map of the LRU cache of src/09_dsa/01_lru_cache hold a history,
-- element by element.
use grin_with_golang.LruCache.{Entry, unlink, back}
use grin_with_golang.Prelude.Maps.{GoMap}
use mathlib.Core.List.{cons-ne-nil}
use mathlib.Core.Logic.{if_pos, if_neg}
use mathlib.Core.Option.{some-injective, none-ne-some, some-ne-none}
use grin_with_golang.Prelude.{
  List, [], ap, arith, inl, inr, none, refl, some, suc, sym, ℕ, ℕ_discrete, ◌≤◌, ◌<◌, ◌≡◌, ◌≢◌, ◌⊎◌,
  ◌∙◌, ◌∷◌, length,
}
use grin_with_golang.LruCache.History.{lookup, drop_key, drop_last, lookup-drop_key-none}

module _ {K V : Type 0} where
  abbrev pub entry : K → V → Entry K V
  entry k v = record { key = k; value = v }

module _ {K V : Type 0} (dec : Discrete K) where
  pub data Linked (elements : GoMap ℕ (Entry K V)) (items : GoMap K ℕ) (next : ℕ)
      : List ℕ → List (K × V) → Type 0 where
    nil : Linked elements items next [] []
    cons :
        {h : ℕ} {k : K} {v : V} {hs : List ℕ} {xs : List (K × V)}
        → elements h ≡ some (entry k v)
        → items k ≡ some h
        → h < next
        → lookup dec k xs ≡ none
        → Linked elements items next hs xs
        → Linked elements items next (h ∷ hs) ((k, v) ∷ xs)

  -- where the element of a key is
  pub record Found (elements : GoMap ℕ (Entry K V)) (items : GoMap K ℕ) (next : ℕ) (k : K) (v : V)
      : Type 0 where
    pub at : ℕ
    pub item : items k ≡ some at
    pub element : elements at ≡ some (entry k v)
    pub bound : at < next

  module _ (elements : GoMap ℕ (Entry K V)) (items : GoMap K ℕ) (next : ℕ) where
    pub Linked-Found :
        (k : K) {v : V} {hs : List ℕ} {xs : List (K × V)}
        → Linked elements items next hs xs
        → lookup dec k xs ≡ some v
        → Found elements items next k v
    unfolding lookup
    Linked-Found k {v = v} nil p = absurd (none-ne-some v p)
    Linked-Found k {v = v} (cons {h = h} {k = j} {v = w} {xs = xs} e i b f l) p = elim (dec k j) [
      | yes q ↦
          let p' = sym (if_pos (dec k j) q (some w) (lookup dec k xs)) ∙ p in
          let same : w ≡ v = some-injective _ _ p' in
          record { at = h; item = rw q i; element = e ∙ rw (q, same) refl; bound = b }
      | no q ↦ Linked-Found k l (sym (if_neg (dec k j) q (some w) (lookup dec k xs)) ∙ p)
    ]

    pub Linked-unlink :
        (k : K) {v : V} {hs : List ℕ} {xs : List (K × V)}
        → (p : Found elements items next k v) → Linked elements items next hs xs
        → Linked elements items next (unlink p.at hs) (drop_key dec k xs)
    unfolding unlink drop_key
    Linked-unlink k p nil = nil
    Linked-unlink k {v = v} p (cons {h = h} {k = j} {v = w} {hs = hs} {xs = xs} e i b f l) =
        elim (dec k j) [
          | yes q ↦
              let same : p.at ≡ h = some-injective _ _ (sym p.item ∙ rw q i) in
              rw
                (
                  if_pos (ℕ_discrete p.at h) same hs (h ∷ unlink p.at hs),
                  if_pos (dec k j) q xs ((j, w) ∷ drop_key dec k xs),
                )
                l
          | no q ↦
              let other : p.at ≢ h = λ same. q (
                ap (λ (x : Entry K V). x.key)
                  (some-injective _ _ (sym p.element ∙ ap elements same ∙ e))) in
              rw
                (
                  if_neg (ℕ_discrete p.at h) other hs (h ∷ unlink p.at hs),
                  if_neg (dec k j) q xs ((j, w) ∷ drop_key dec k xs),
                )
                (cons e i b (lookup-drop_key-none dec k j xs f) (Linked-unlink k p l))
        ]

    pub Linked-dropped :
        (k : K) {hs : List ℕ} {xs : List (K × V)}
        → Linked elements items next hs xs
        → lookup dec k (drop_key dec k xs) ≡ none
    unfolding lookup drop_key
    Linked-dropped k nil = refl
    Linked-dropped k (cons {k = j} {v = w} {xs = xs} e i b f l) = elim (dec k j) [
      | yes q ↦
          rw (if_pos (dec k j) q xs ((j, w) ∷ drop_key dec k xs)) (ap (λ x. lookup dec x xs) q ∙ f)
      | no q ↦
          rw (if_neg (dec k j) q xs ((j, w) ∷ drop_key dec k xs))
            (if_neg (dec k j) q (some w) (lookup dec k (drop_key dec k xs)) ∙ Linked-dropped k l)
    ]

    pub Linked-length :
        {hs : List ℕ} {xs : List (K × V)} → Linked elements items next hs xs → length hs ≡ length xs
    Linked-length nil = refl
    Linked-length (cons e i b f l) = ap suc (Linked-length l)

    -- Changes that touch only the element and the item of one key.
    pub Linked-frame :
        (elements' : GoMap ℕ (Entry K V)) (items' : GoMap K ℕ) (next' : ℕ) (k : K) {hs : List ℕ}
        {xs : List (K × V)}
        → Linked elements items next hs xs
        → lookup dec k xs ≡ none
        → ((h : ℕ) (j : K) (v : V)
            → h < next
            → k ≢ j
            → elements h ≡ some (entry j v)
            → elements' h ≡ some (entry j v))
        → ((j : K) → k ≢ j → items' j ≡ items j)
        → next ≤ next'
        → Linked elements' items' next' hs xs
    unfolding lookup
    Linked-frame elements' items' next' k nil p same same' le = nil
    Linked-frame elements' items' next' k (cons {h = h} {k = j} {v = w} {xs = xs} e i b f l) p same
          same' le =
        elim (dec k j) [
          | yes q ↦
              absurd (some-ne-none w (sym (if_pos (dec k j) q (some w) (lookup dec k xs)) ∙ p))
          | no q ↦
              let p' = sym (if_neg (dec k j) q (some w) (lookup dec k xs)) ∙ p in
              cons (same h j w b q e) (same' j q ∙ i) (omega arith) f
                (Linked-frame elements' items' next' k l p' same same' le)
        ]

    -- the last element, as `back` finds it
    pub record Last (h : ℕ) (xs : List (K × V)) : Type 0 where
      pub key : K
      pub value : V
      pub here : lookup dec key xs ≡ some value
      pub its_item : items key ≡ some h
      pub dropped : drop_key dec key xs ≡ drop_last xs

    pub Linked-back :
        {hs : List ℕ} {xs : List (K × V)}
        → Linked elements items next hs xs
        → ((xs ≡ []) × (back hs ≡ none)) ⊎ ((h : ℕ) × (back hs ≡ some h) × Last h xs)
    unfolding back lookup drop_key drop_last
    Linked-back nil = inl (refl, refl)
    Linked-back (cons {h = h} {k = k} {v = v} e i b f nil) = inr (
      h,
      refl,
      record {
        key = k;
        value = v;
        here = if_pos (dec k k) refl (some v) none;
        its_item = i;
        dropped = if_pos (dec k k) refl [] ((k, v) ∷ []);
      },
    )
    Linked-back
          (cons {h = h} {k = k} {v = v} {xs = xs} e i b f
            (cons {k = k'} {v = v'} {xs = ys} e' i' b' f' l)) =
        elim (Linked-back (cons e' i' b' f' l)) [
          | inl (empty, _) ↦ absurd (cons-ne-nil _ _ empty)
          | inr (x, found, last) ↦
              let other : last.key ≢ k =
                λ q. none-ne-some _ (sym f ∙ ap (λ j. lookup dec j xs) (sym q) ∙ last.here) in
              inr (
                x,
                found,
                record {
                  key = last.key;
                  value = last.value;
                  here =
                      if_neg (dec last.key k) other (some v) (lookup dec last.key xs) ∙ last.here;
                  its_item = last.its_item;
                  dropped =
                      if_neg (dec last.key k) other xs ((k, v) ∷ drop_key dec last.key xs)
                      ∙ ap (λ t. (k, v) ∷ t) last.dropped;
                },
              )
        ]
