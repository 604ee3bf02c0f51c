-- ===== src/LruCache.antt =====
-- The LRU cache of src/09_dsa/01_lru_cache/main.go.
-- The map and the recency list share list elements, which are pointers: an element is a number, its
-- entry is in `elements`, and `next` is the number of the next one allocated. `none` is the panic
-- of a nil pointer. The methods hold the mutex from start to end, so each is one step.
pub mod History
pub mod Linked
pub mod Refine
pub mod Session
pub mod Bound
mod Examples
use grin_with_golang.Prelude.{
  List, ℕ, Option, ◌∷◌, Bool, [], ap, append-nil, append_assoc, ap₂, arith, bit_and, bit_or, dec_le,
  dec_lt, false, fun_ext, inl, inr, map, max, min, none, not, refl, some, subst, suc, sym, true,
  zero, ℕ_discrete, ◌+◌, ◌-◌, ◌*◌, ◌/◌, ◌%◌, ◌^◌, ◌≤◌, ◌<◌, ◌≡◌, ◌≢◌, ◌↔◌, ◌⊎◌, ◌∙◌, ◌&&◌, ◌||◌,
  ◌++◌, ◌==◌, ◌>>=◌, if◌then◌else◌, ltb, leb, length, get_elem?, get_or, set, store, replicate,
  Bool-cases, Option-cases, length-append, length-set, length-replicate, get_or-set,
  get_elem?-get_or,
}
use grin_with_golang.Prelude.Maps.{GoMap, make, insert, delete}
use mathlib.Core.Logic.{ite}

-- `entry` of the source
pub record Entry (K V : Type 0) : Type 0 where
  pub key : K
  pub value : V

pub record LruCache (K V : Type 0) : Type 0 where
  pub capacity : ℕ
  pub items : GoMap K ℕ
  pub order : List ℕ
  pub elements : GoMap ℕ (Entry K V)
  pub next : ℕ

-- `order.Remove`, of the element's node
unfoldable pub unlink : ℕ → List ℕ → List ℕ
unlink h [] = []
unlink h (x ∷ xs) = ite (ℕ_discrete h x) xs (x ∷ unlink h xs)

-- `order.Back`
unfoldable pub back : List ℕ → Option ℕ
back [] = none
back (x ∷ []) = some x
back (x ∷ y ∷ xs) = back (y ∷ xs)

module _ {K V : Type 0} where
  abbrev pub new : ℕ → LruCache K V
  new capacity = record { capacity = capacity; items = make; order = []; elements = make; next = 0 }

  -- `order.MoveToFront`
  unfoldable pub move_to_front : LruCache K V → ℕ → LruCache K V
  move_to_front c h = record c { order = h ∷ unlink h c.order }

  unfoldable pub len : LruCache K V → ℕ
  len c = length c.order

  -- the loop of `Keys`
  unfoldable pub keys_from : GoMap ℕ (Entry K V) → List ℕ → Option (List K)
  keys_from elements [] = some []
  keys_from elements (h ∷ hs) = do e ← elements h; ks ← keys_from elements hs; some (e.key ∷ ks)

  unfoldable pub keys : LruCache K V → Option (List K)
  keys c = keys_from c.elements c.order

module _ {K V : Type 0} (dec : Discrete K) where
  unfoldable pub get : LruCache K V → K → Option (LruCache K V × Option V)
  get c key = elim (c.items key) [
    | none ↦ some (c, none)
    | some h ↦ c.elements h >>= λ e. some (move_to_front c h, some e.value)
  ]

  unfoldable pub remove_element : LruCache K V → ℕ → Option (LruCache K V)
  remove_element c h = do
    e ← c.elements h
    some (record c { order = unlink h c.order; items = delete dec e.key c.items })

  unfoldable pub evict : LruCache K V → Option (LruCache K V)
  evict c = elim (back c.order) [ none ↦ some c | some h ↦ remove_element c h ]

  -- `PushFront` of a new element, and its entry in the map
  unfoldable pub push_new : LruCache K V → K → V → LruCache K V
  push_new c key value =
      let e : Entry K V = record { key = key; value = value } in
      record c {
        items = insert dec key c.next c.items;
        order = c.next ∷ c.order;
        elements = insert ℕ_discrete c.next e c.elements;
        next = suc c.next;
      }

  unfoldable pub put : LruCache K V → K → V → Option (LruCache K V)
  put c key value =
      let room : Option (LruCache K V) = if leb c.capacity (len c) then evict c else some c in
      elim (c.items key) [
        | none ↦ room >>= λ c'. some (push_new c' key value)
        | some h ↦ do
          e ← c.elements h
          let moved = move_to_front c h
          some (record moved {
            elements = insert ℕ_discrete h (record e { value = value }) moved.elements;
          })
      ]

  unfoldable pub delete_key : LruCache K V → K → Option (LruCache K V × Bool)
  delete_key c key = elim (c.items key) [
    | none ↦ some (c, false)
    | some h ↦ remove_element c h >>= λ c'. some (c', true)
  ]
