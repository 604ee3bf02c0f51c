-- ===== src/LruCache/Refine.antt =====
-- The methods of the LRU cache of src/09_dsa/01_lru_cache against those of the history.
use mathlib.Core.Option.{some-injective, none-ne-some}
use grin_with_golang.Prelude.{
  List, ap, inl, inr, none, refl, some, subst, sym, ℕ, ◌<◌, ◌≡◌, ◌≢◌, ◌∙◌, ◌∷◌, Option-cases, ap₂,
  arith, map, suc, ℕ_discrete, leb, length, Bool-cases,
}
use grin_with_golang.LruCache.{
  LruCache, remove_element, GoMap, get, evict, delete_key, Entry, move_to_front, unlink, delete,
  push_new, put, len, insert, keys, keys_from,
}
use grin_with_golang.LruCache.Linked.{
  Linked, Found, Linked-Found, entry, Linked-dropped, Linked-back, Linked-unlink, cons,
  Linked-frame, Linked-length, nil,
}
use grin_with_golang.LruCache.History.{
  lookup, drop_key, lookup-drop_other, drop_last, spec_delete, spec_get, spec_put,
  lookup-drop_last-none,
}
use mathlib.Core.Logic.{if_pos, if_neg}
use native.Mathlib.Nat.{le_refl}

module _ {K V : Type 0} (dec : Discrete K) where
  -- The cache `c` stands for the history `xs`.
  pub record IsCacheOf (capacity : ℕ) (xs : List (K × V)) (c : LruCache K V) : Type 0 where
    pub bound : c.capacity ≡ capacity
    pub linked : Linked dec c.elements c.items c.next c.order xs
    pub only : (j : K) → lookup dec j xs ≡ none → c.items j ≡ none

  module _ (capacity : ℕ) (xs : List (K × V)) (c : LruCache K V)
      (is : IsCacheOf capacity xs c) where
    found : (k : K) (v : V) → lookup dec k xs ≡ some v → Found dec c.elements c.items c.next k v
    found k v p = Linked-Found dec c.elements c.items c.next k is.linked p

    -- the items of the other keys stay
    only_others :
        (k : K) (j : K) → k ≢ j → lookup dec j (drop_key dec k xs) ≡ none → c.items j ≡ none
    only_others k j p q = is.only j (sym (lookup-drop_other dec k j xs p) ∙ q)

    remove_element-IsCacheOf :
        (k : K) (v : V)
        → lookup dec k xs ≡ some v
        → (h : ℕ) → c.items k ≡ some h
        → (c' : LruCache K V) × (remove_element dec c h ≡ some c')
          × IsCacheOf capacity (drop_key dec k xs) c'
    unfolding remove_element
    remove_element-IsCacheOf k v p h i =
        let f = found k v p in
        let same : f.at ≡ h = some-injective _ _ (sym f.item ∙ i) in
        let here : c.elements h ≡ some (entry k v) = ap c.elements (sym same) ∙ f.element in
        let gone = Linked-dropped dec c.elements c.items c.next k is.linked in
        let rest =
          subst (λ x. Linked dec c.elements c.items c.next (unlink x c.order) (drop_key dec k xs))
            same (Linked-unlink dec c.elements c.items c.next k f is.linked) in
        (
          record c { order = unlink h c.order; items = delete dec k c.items },
          rw here refl,
          record {
            bound = is.bound;
            linked =
                Linked-frame dec c.elements c.items c.next c.elements (delete dec k c.items) c.next
                  k rest gone (λ h j v b q e. e) (λ j q. if_neg (dec k j) q none (c.items j))
                  (le_refl c.next);
            only = λ j q. elim (dec k j) [
              | yes r ↦ if_pos (dec k j) r none (c.items j)
              | no r ↦ if_neg (dec k j) r none (c.items j) ∙ only_others k j r q
            ];
          },
        )

    -- the element of `k` at the front, its entry changed
    front-Linked :
        (k : K) (v w : V) (f : Found dec c.elements c.items c.next k v) (new : GoMap ℕ (Entry K V))
        → new f.at ≡ some (entry k w)
        → ((h : ℕ) → f.at ≢ h → new h ≡ c.elements h)
        → Linked dec new c.items c.next (f.at ∷ unlink f.at c.order) ((k, w) ∷ drop_key dec k xs)
    front-Linked k v w f new here others =
        let gone = Linked-dropped dec c.elements c.items c.next k is.linked in
        let rest = Linked-unlink dec c.elements c.items c.next k f is.linked in
        let same : (h : ℕ) (j : K) (u : V)
            → h < c.next
            → k ≢ j
            → c.elements h ≡ some (entry j u)
            → new h ≡ some (entry j u) =
          λ h j u b q e.
            others h (λ r. q (
              ap (λ (x : Entry K V). x.key)
                (some-injective _ _ (sym f.element ∙ ap c.elements r ∙ e))))
            ∙ e in
        cons here f.item f.bound gone (
          Linked-frame dec c.elements c.items c.next new c.items c.next k rest gone same
            (λ j q. refl) (le_refl c.next))

    -- a key that is not in the new history is not in the map
    only_front :
        (k : K) (w : V) (j : K)
        → lookup dec j ((k, w) ∷ drop_key dec k xs) ≡ none
        → c.items j ≡ none
    unfolding lookup
    only_front k w j q = elim (dec j k) [
      | yes r ↦
          absurd (
            none-ne-some w (sym q ∙ if_pos (dec j k) r (some w) (lookup dec j (drop_key dec k xs))))
      | no r ↦
          only_others k j (λ e. r (sym e))
            (sym (if_neg (dec j k) r (some w) (lookup dec j (drop_key dec k xs))) ∙ q)
    ]

    pub get-IsCacheOf :
        (k : K)
        → let (ys, result) = spec_get dec xs k in
          (c' : LruCache K V) × (get dec c k ≡ some (c', result)) × IsCacheOf capacity ys c'
    unfolding get move_to_front spec_get
    get-IsCacheOf k = elim (Option-cases (lookup dec k xs)) [
      | inl miss ↦ let item = is.only k miss in rw (spec_get, get, miss, item) (c, refl, is)
      | inr (v, hit) ↦
          let f = found k v hit in
          let item = f.item in
          let element = f.element in
          rw (spec_get, get, hit, item, element)
            (
              move_to_front c f.at,
              refl,
              record {
                bound = is.bound;
                linked = front-Linked k v v f c.elements f.element (λ h q. refl);
                only = only_front k v;
              },
            )
    ]

    evict-IsCacheOf :
        (c' : LruCache K V) × (evict dec c ≡ some c') × IsCacheOf capacity (drop_last xs) c'
    unfolding evict drop_last
    evict-IsCacheOf = elim (Linked-back dec c.elements c.items c.next is.linked) [
      | inl (empty, none_left) ↦
          (c, rw (evict, none_left) refl, subst (λ ys. IsCacheOf capacity ys c) (rw empty refl) is)
      | inr (h, last_is, last) ↦
          let (c', ran, is') =
            remove_element-IsCacheOf last.key last.value last.here h last.its_item in
          (c', rw (evict, last_is) ran, subst (λ ys. IsCacheOf capacity ys c') last.dropped is')
    ]

    pub delete_key-IsCacheOf :
        (k : K)
        → let (ys, result) = spec_delete dec xs k in
          (c' : LruCache K V) × (delete_key dec c k ≡ some (c', result)) × IsCacheOf capacity ys c'
    unfolding delete_key spec_delete
    delete_key-IsCacheOf k = elim (Option-cases (lookup dec k xs)) [
      | inl miss ↦
          let item = is.only k miss in rw (spec_delete, delete_key, miss, item) (c, refl, is)
      | inr (v, hit) ↦
          let f = found k v hit in
          let item = f.item in
          let (c', ran, is') = remove_element-IsCacheOf k v hit f.at item in
          rw (spec_delete, delete_key, hit, item, ran) (c', refl, is')
    ]

    push_new-IsCacheOf :
        (k : K) (v : V)
        → lookup dec k xs ≡ none
        → IsCacheOf capacity ((k, v) ∷ xs) (push_new dec c k v)
    unfolding push_new lookup
    push_new-IsCacheOf k v miss =
        let new = insert ℕ_discrete c.next (entry k v) c.elements in
        let others : (h : ℕ) (j : K) (u : V)
            → h < c.next
            → k ≢ j
            → c.elements h ≡ some (entry j u)
            → new h ≡ some (entry j u) =
          λ h j u b q e.
            if_neg (ℕ_discrete c.next h) (λ r. omega arith) (some (entry k v)) (c.elements h) ∙ e in
        record {
          bound = is.bound;
          linked =
              cons (if_pos (ℕ_discrete c.next c.next) refl (some (entry k v)) (c.elements c.next))
                (if_pos (dec k k) refl (some c.next) (c.items k)) (omega arith) miss
                (Linked-frame dec c.elements c.items c.next new (insert dec k c.next c.items)
                  (suc c.next) k is.linked miss others
                  (λ j q. if_neg (dec k j) q (some c.next) (c.items j)) (omega arith));
          only = λ j q. elim (dec j k) [
            | yes r ↦
                absurd (none-ne-some v (sym q ∙ if_pos (dec j k) r (some v) (lookup dec j xs)))
            | no r ↦
                if_neg (dec k j) (λ e. r (sym e)) (some c.next) (c.items j)
                ∙ is.only j (sym (if_neg (dec j k) r (some v) (lookup dec j xs)) ∙ q)
          ];
        }

    put_hit-IsCacheOf :
        (k : K) (v w : V)
        → lookup dec k xs ≡ some v
        → (c' : LruCache K V) × (put dec c k w ≡ some c')
          × IsCacheOf capacity ((k, w) ∷ drop_key dec k xs) c'
    unfolding put move_to_front
    put_hit-IsCacheOf k v w hit =
        let f = found k v hit in
        let item = f.item in
        let element = f.element in
        let new = insert ℕ_discrete f.at (entry k w) c.elements in
        rw (put, item, element)
          (
            record c { order = f.at ∷ unlink f.at c.order; elements = new },
            refl,
            record {
              bound = is.bound;
              linked =
                  front-Linked k v w f new
                    (if_pos (ℕ_discrete f.at f.at) refl (some (entry k w)) (c.elements f.at))
                    (λ h q. if_neg (ℕ_discrete f.at h) q (some (entry k w)) (c.elements h));
              only = only_front k w;
            },
          )

    pub order-length : len c ≡ length xs
    unfolding len
    order-length = Linked-length dec c.elements c.items c.next is.linked

  pub put-IsCacheOf :
      (capacity : ℕ) (xs : List (K × V)) (c : LruCache K V) (k : K) (w : V)
      → IsCacheOf capacity xs c
      → (c' : LruCache K V) × (put dec c k w ≡ some c')
        × IsCacheOf capacity (spec_put dec capacity xs k w) c'
  unfolding put spec_put
  put-IsCacheOf capacity xs c k w is = elim (Option-cases (lookup dec k xs)) [
    | inr (v, hit) ↦ rw (spec_put, hit) (put_hit-IsCacheOf capacity xs c is k v w hit)
    | inl miss ↦
        let item = is.only k miss in
        let size = order-length capacity xs c is in
        let test : leb c.capacity (len c) ≡ leb capacity (length xs) = ap₂ leb is.bound size in
        elim (Bool-cases (leb capacity (length xs))) [
          | inl full ↦
              let (c1, ran, is1) = evict-IsCacheOf capacity xs c is in
              let test' = test ∙ full in
              rw (spec_put, put, miss, item, test', full, ran)
                (
                  push_new dec c1 k w,
                  refl,
                  push_new-IsCacheOf capacity (drop_last xs) c1 is1 k w
                      (lookup-drop_last-none dec k xs miss),
                )
          | inr free ↦
              let test' = test ∙ free in
              rw (spec_put, put, miss, item, test', free)
                (push_new dec c k w, refl, push_new-IsCacheOf capacity xs c is k w miss)
        ]
  ]

  pub keys-IsCacheOf :
      (capacity : ℕ) (xs : List (K × V)) (c : LruCache K V)
      → IsCacheOf capacity xs c
      → keys c ≡ some (map (λ (x : K × V). x.0) xs)
  unfolding keys keys_from
  keys-IsCacheOf capacity xs c is = go is.linked
    where
      go :
          {hs : List ℕ} {ys : List (K × V)}
          → Linked dec c.elements c.items c.next hs ys
          → keys_from c.elements hs ≡ some (map (λ (x : K × V). x.0) ys)
      go nil = refl
      go (cons e i b f l) = rw (e, go l) refl
