-- ===== src/LruCache/Session.antt =====
-- Runs of calls on a new LRU cache of src/09_dsa/01_lru_cache, and on the history.
use grin_with_golang.LruCache.{LruCache, new, len, keys, get, put, delete_key, Option, List, ℕ}
use grin_with_golang.LruCache.Linked.{nil}
use grin_with_golang.Prelude.{Bool, List, Option, [], map, refl, some, ℕ, ◌≡◌, ◌∷◌, ◌>>=◌, length}
use grin_with_golang.LruCache.History.{spec_get, spec_put, spec_delete}
use grin_with_golang.LruCache.Refine.{
  IsCacheOf, get-IsCacheOf, put-IsCacheOf, delete_key-IsCacheOf, keys-IsCacheOf, order-length,
}

pub data Op (K V : Type 0) : Type 0 where
  get_op : K → Op K V
  put_op : K → V → Op K V
  delete_op : K → Op K V
  keys_op : Op K V
  len_op : Op K V

pub data Reply (K V : Type 0) : Type 0 where
  value : Option V → Reply K V
  done : Reply K V
  deleted : Bool → Reply K V
  listed : List K → Reply K V
  counted : ℕ → Reply K V

module _ {K V : Type 0} (dec : Discrete K) where
  unfoldable pub apply : LruCache K V → Op K V → Option (LruCache K V × Reply K V)
  apply c (get_op k) = get dec c k >>= λ r. some (r.0, value r.1)
  apply c (put_op k v) = put dec c k v >>= λ c'. some (c', done)
  apply c (delete_op k) = delete_key dec c k >>= λ r. some (r.0, deleted r.1)
  apply c keys_op = keys c >>= λ ks. some (c, listed ks)
  apply c len_op = some (c, counted (len c))

  unfoldable pub run : LruCache K V → List (Op K V) → Option (List (Reply K V))
  run c [] = some []
  run c (op ∷ ops) = do r ← apply c op; rs ← run r.0 ops; some (r.1 ∷ rs)

  unfoldable pub spec_apply : ℕ → List (K × V) → Op K V → List (K × V) × Reply K V
  spec_apply capacity h (get_op k) = let r = spec_get dec h k in (r.0, value r.1)
  spec_apply capacity h (put_op k v) = (spec_put dec capacity h k v, done)
  spec_apply capacity h (delete_op k) = let r = spec_delete dec h k in (r.0, deleted r.1)
  spec_apply capacity h keys_op = (h, listed (map (λ (x : K × V). x.0) h))
  spec_apply capacity h len_op = (h, counted (length h))

  unfoldable pub spec_run : ℕ → List (K × V) → List (Op K V) → List (Reply K V)
  spec_run capacity h [] = []
  spec_run capacity h (op ∷ ops) =
      let r = spec_apply capacity h op in r.1 ∷ spec_run capacity r.0 ops

  pub apply-IsCacheOf :
      (capacity : ℕ) (h : List (K × V)) (c : LruCache K V) (op : Op K V)
      → IsCacheOf dec capacity h c
      → let (h', reply) = spec_apply capacity h op in
        (c' : LruCache K V) × (apply c op ≡ some (c', reply)) × IsCacheOf dec capacity h' c'
  unfolding apply spec_apply
  apply-IsCacheOf capacity h c (get_op k) is =
      let (c', ran, is') = get-IsCacheOf dec capacity h c is k in (c', rw ran refl, is')
  apply-IsCacheOf capacity h c (put_op k v) is =
      let (c', ran, is') = put-IsCacheOf dec capacity h c k v is in (c', rw ran refl, is')
  apply-IsCacheOf capacity h c (delete_op k) is =
      let (c', ran, is') = delete_key-IsCacheOf dec capacity h c is k in (c', rw ran refl, is')
  apply-IsCacheOf capacity h c keys_op is =
      let ran = keys-IsCacheOf dec capacity h c is in (c, rw ran refl, is)
  apply-IsCacheOf capacity h c len_op is =
      let ran = order-length dec capacity h c is in (c, rw ran refl, is)

  pub run-history :
      (capacity : ℕ) (h : List (K × V)) (c : LruCache K V) (ops : List (Op K V))
      → IsCacheOf dec capacity h c
      → run c ops ≡ some (spec_run capacity h ops)
  unfolding run spec_run
  run-history capacity h c [] is = refl
  run-history capacity h c (op ∷ ops) is =
      let (c', ran, is') = apply-IsCacheOf capacity h c op is in
      rw (ran, run-history capacity (spec_apply capacity h op).0 c' ops is') refl

  pub new-IsCacheOf : (capacity : ℕ) → IsCacheOf {V = V} dec capacity [] (new capacity)
  new-IsCacheOf capacity = record { bound = refl; linked = nil; only = λ j p. refl }

  -- From `NewLRUCache` on, every sequence of calls gets the replies of the history, a list of keys
  -- with values in which a lookup or a write moves its key to the front and a new key drops the last
  -- one when there are as many keys as the capacity: the map, the recency list and the shared
  -- elements never disagree, and no call dereferences an element that is gone.
  pub run-LruCache :
      (capacity : ℕ) (ops : List (Op K V))
      → run (new capacity) ops ≡ some (spec_run capacity [] ops)
  run-LruCache capacity ops = run-history capacity [] (new capacity) ops (new-IsCacheOf capacity)
