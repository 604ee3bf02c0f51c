-- ===== src/LruCache/Bound.antt =====
-- The number of items in an LRU cache of src/09_dsa/01_lru_cache.
use grin_with_golang.LruCache.{LruCache, new, len, List, ℕ, put, keys}
use mathlib.Core.Option.{none-ne-some}
use grin_with_golang.LruCache.History.{drop_last, lookup, spec_put, spec_get, spec_delete, drop_key}
use grin_with_golang.LruCache.Session.{
  spec_apply, Op, apply, get_op, new-IsCacheOf, put_op, delete_op, apply-IsCacheOf, keys_op, len_op,
}
use grin_with_golang.Prelude.{
  List, Option, [], ap, arith, inl, inr, max, refl, some, suc, sym, ℕ, ◌≤◌, ◌≡◌, ◌∙◌, ◌∷◌, ◌>>=◌,
  if◌then◌else◌, leb, length, Option-cases,
}
use mathlib.Core.Logic.{if_pos, if_neg}
use grin_with_golang.LruCache.Refine.{IsCacheOf, order-length, put-IsCacheOf, keys-IsCacheOf}

module _ {K V : Type 0} (dec : Discrete K) where
  -- the cache after a run of calls
  unfoldable pub after : LruCache K V → List (Op K V) → Option (LruCache K V)
  after c [] = some c
  after c (op ∷ ops) = apply dec c op >>= λ r. after r.0 ops

  length-drop_last :
      (x : K × V) (xs : List (K × V)) → suc (length (drop_last (x ∷ xs))) ≡ length (x ∷ xs)
  unfolding drop_last
  length-drop_last x [] = refl
  length-drop_last x (y ∷ xs) = ap suc (length-drop_last y xs)

  -- a key that is there leaves its place
  length-drop_key :
      (k : K) {v : V} (xs : List (K × V))
      → lookup dec k xs ≡ some v
      → suc (length (drop_key dec k xs)) ≡ length xs
  unfolding lookup drop_key
  length-drop_key k {v = v} [] p = absurd (none-ne-some v p)
  length-drop_key k ((j, w) ∷ xs) p = elim (dec k j) [
    | yes q ↦ rw (if_pos (dec k j) q xs ((j, w) ∷ drop_key dec k xs)) refl
    | no q ↦
        let p' = sym (if_neg (dec k j) q (some w) (lookup dec k xs)) ∙ p in
        rw (if_neg (dec k j) q xs ((j, w) ∷ drop_key dec k xs)) (ap suc (length-drop_key k xs p'))
  ]

  bounded_room :
      (capacity : ℕ) (xs : List (K × V))
      → length xs ≤ max 1 capacity
      → suc (length (if leb capacity (length xs) then drop_last xs else xs)) ≤ max 1 capacity
  unfolding drop_last
  bounded_room capacity [] h = ground arith
  bounded_room capacity (x ∷ xs) h = ground (arith, length-drop_last x xs)

  bounded_put :
      (capacity : ℕ) (xs : List (K × V)) (k : K) (v : V)
      → length xs ≤ max 1 capacity
      → length (spec_put dec capacity xs k v) ≤ max 1 capacity
  unfolding spec_put
  bounded_put capacity xs k v h = elim (Option-cases (lookup dec k xs)) [
    | inl miss ↦ rw (length, spec_put, miss) (bounded_room capacity xs h)
    | inr (w, hit) ↦ rw (length, spec_put, hit) (omega (arith, length-drop_key k xs hit))
  ]

  bounded_get :
      (capacity : ℕ) (xs : List (K × V)) (k : K)
      → length xs ≤ max 1 capacity
      → length (spec_get dec xs k).0 ≤ max 1 capacity
  unfolding spec_get
  bounded_get capacity xs k h = elim (Option-cases (lookup dec k xs)) [
    | inl miss ↦ rw (length, spec_get, miss) h
    | inr (w, hit) ↦ rw (length, spec_get, hit) (omega (arith, length-drop_key k xs hit))
  ]

  bounded_delete :
      (capacity : ℕ) (xs : List (K × V)) (k : K)
      → length xs ≤ max 1 capacity
      → length (spec_delete dec xs k).0 ≤ max 1 capacity
  unfolding spec_delete
  bounded_delete capacity xs k h = elim (Option-cases (lookup dec k xs)) [
    | inl miss ↦ rw (length, spec_delete, miss) h
    | inr (w, hit) ↦ rw (length, spec_delete, hit) (omega (arith, length-drop_key k xs hit))
  ]

  bounded_apply :
      (capacity : ℕ) (xs : List (K × V)) (op : Op K V)
      → length xs ≤ max 1 capacity
      → length (spec_apply dec capacity xs op).0 ≤ max 1 capacity
  unfolding spec_apply
  bounded_apply capacity xs (get_op k) h = bounded_get capacity xs k h
  bounded_apply capacity xs (put_op k v) h = bounded_put capacity xs k v h
  bounded_apply capacity xs (delete_op k) h = bounded_delete capacity xs k h
  bounded_apply capacity xs keys_op h = h
  bounded_apply capacity xs len_op h = h

  after_bounded :
      (capacity : ℕ) (xs : List (K × V)) (c : LruCache K V) (ops : List (Op K V))
      → IsCacheOf dec capacity xs c
      → length xs ≤ max 1 capacity
      → (c' : LruCache K V) × (after c ops ≡ some c') × (len c' ≤ max 1 capacity)
  unfolding after
  after_bounded capacity xs c [] is h =
      let size = order-length dec capacity xs c is in (c, refl, omega arith)
  after_bounded capacity xs c (op ∷ ops) is h =
      let (c1, ran, is1) = apply-IsCacheOf dec capacity xs c op is in
      let (c2, ran', le) =
        after_bounded capacity (spec_apply dec capacity xs op).0 c1 ops is1
          (bounded_apply capacity xs op h) in
      (c2, rw ran ran', le)

  -- After any calls on a new cache, which all return, it holds at most its capacity of items, or one
  -- if the capacity is 0.
  pub after-len :
      (capacity : ℕ) (ops : List (Op K V))
      → (c : LruCache K V) × (after (new capacity) ops ≡ some c) × (len c ≤ max 1 capacity)
  after-len capacity ops =
      after_bounded capacity [] (new capacity) ops (new-IsCacheOf dec capacity) (omega arith)

  -- A cache of capacity 0 stores what is put into it.
  put-capacity_zero :
      (k : K) (v : V)
      → (c : LruCache K V) × (put dec (new 0) k v ≡ some c) × (keys c ≡ some (k ∷ []))
  unfolding spec_put lookup drop_last
  put-capacity_zero k v =
      let (c, ran, is) = put-IsCacheOf dec 0 [] (new 0) k v (new-IsCacheOf dec 0) in
      (c, ran, keys-IsCacheOf dec 0 ((k, v) ∷ []) c is)
