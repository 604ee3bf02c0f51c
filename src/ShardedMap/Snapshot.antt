-- ===== src/ShardedMap/Snapshot.antt =====
-- `Len` and `Keys` of src/09_dsa/04_concurrent_map, and runs of calls on a new map.
use grin_with_golang.ShardedMap.{
  ShardedMap, lookup, home, set_key, get, delete_key, new, len, keys, total, all_keys, shard_keys,
  List, ◌≡◌, ℤ,
}
use grin_with_golang.ShardedMap.Entries.{
  IsUnique, present, occurs, occurs-append, occurs-shard_keys, length-shard_keys,
}
use grin_with_golang.ShardedMap.Shards.{
  IsMapOf, get-IsMapOf, set_key-IsMapOf, delete_key-IsMapOf, new-IsMapOf,
}
use grin_with_golang.Prelude.Maps.{GoMap, make, insert, delete}
use grin_with_golang.Prelude.{
  ◌≡◌, List, Option, [], ap, ap₂, arith, none, refl, some, suc, sym, zero, ℕ, ◌+◌, ◌≢◌, ◌∙◌, ◌∷◌,
  ◌>>=◌, length, get_or, length-append,
}

length-all_keys : {K V : Type 0} (ss : List (List (K × V))) → length (all_keys ss) ≡ total ss
unfolding all_keys total
length-all_keys [] = refl
length-all_keys (s ∷ ss) =
    length-append (shard_keys s) (all_keys ss)
    ∙ ap₂ (λ a b. a + b) (length-shard_keys s) (length-all_keys ss)

module _ {K V : Type 0} (dec : Discrete K) where
  no_occurrence :
      (k : K) (ss : List (List (K × V)))
      → ((i : ℕ) → IsUnique dec (get_or ss i []))
      → ((i : ℕ) → lookup dec k (get_or ss i []) ≡ none)
      → occurs dec k (all_keys ss) ≡ 0
  unfolding occurs all_keys
  no_occurrence k [] u p = refl
  no_occurrence k (s ∷ ss) u p =
      let here = occurs-shard_keys dec k (u 0) ∙ ap present (p 0) in
      let rest = no_occurrence k ss (λ i. u (suc i)) (λ i. p (suc i)) in
      occurs-append dec k (shard_keys s) (all_keys ss) ∙ omega (arith, here, rest)

  -- a key occurs in the shard at `h` only
  one_shard :
      (k : K) (ss : List (List (K × V))) (h : ℕ)
      → ((i : ℕ) → IsUnique dec (get_or ss i []))
      → ((i : ℕ) → h ≢ i → lookup dec k (get_or ss i []) ≡ none)
      → occurs dec k (all_keys ss) ≡ present (lookup dec k (get_or ss h []))
  unfolding occurs all_keys lookup
  one_shard k [] h u p = refl
  one_shard k (s ∷ ss) zero u p =
      let here = occurs-shard_keys dec k (u 0) in
      let rest = no_occurrence k ss (λ i. u (suc i)) (λ i. p (suc i) (omega arith)) in
      occurs-append dec k (shard_keys s) (all_keys ss) ∙ omega (arith, here, rest)
  one_shard k (s ∷ ss) (suc h) u p =
      let here = occurs-shard_keys dec k (u 0) ∙ ap present (p 0 (omega arith)) in
      let rest = one_shard k ss h (λ i. u (suc i)) (λ i q. p (suc i) (omega arith)) in
      occurs-append dec k (shard_keys s) (all_keys ss) ∙ omega (arith, here, rest)

  occurs-keys :
      (f : GoMap K V) (m : ShardedMap K V)
      → IsMapOf dec f m
      → (k : K) → occurs dec k (keys m) ≡ present (f k)
  unfolding keys
  occurs-keys f m is k =
      one_shard k m.shards (home m k) is.unique (λ i p. is.placed k i p) ∙ ap present (is.reads k)

pub data Write (K V : Type 0) : Type 0 where
  set_write : K → V → Write K V
  delete_write : K → Write K V

module _ {K V : Type 0} (dec : Discrete K) where
  unfoldable pub run : ShardedMap K V → List (Write K V) → Option (ShardedMap K V)
  run m [] = some m
  run m (set_write k v ∷ ws) = set_key dec m k v >>= λ m'. run m' ws
  run m (delete_write k ∷ ws) = delete_key dec m k >>= λ m'. run m' ws

  -- the same writes on one Go map
  unfoldable pub run_map : GoMap K V → List (Write K V) → GoMap K V
  run_map f [] = f
  run_map f (set_write k v ∷ ws) = run_map (insert dec k v f) ws
  run_map f (delete_write k ∷ ws) = run_map (delete dec k f) ws

  run-IsMapOf :
      (f : GoMap K V) (m : ShardedMap K V) (ws : List (Write K V))
      → IsMapOf dec f m
      → (m' : ShardedMap K V) × (run m ws ≡ some m') × IsMapOf dec (run_map f ws) m'
  unfolding run run_map
  run-IsMapOf f m [] is = (m, refl, is)
  run-IsMapOf f m (set_write k v ∷ ws) is =
      let (m1, ran, is1) = set_key-IsMapOf dec f m is k v in
      let (m2, ran', is2) = run-IsMapOf (insert dec k v f) m1 ws is1 in (m2, rw ran ran', is2)
  run-IsMapOf f m (delete_write k ∷ ws) is =
      let (m1, ran, is1) = delete_key-IsMapOf dec f m is k in
      let (m2, ran', is2) = run-IsMapOf (delete dec k f) m1 ws is1 in (m2, rw ran ran', is2)

  -- For any hash function and any shard count, also one that is not positive, any writes on a new
  -- sharded map succeed and leave what they leave in one Go map: Get returns the same for every key,
  -- Keys lists every stored key exactly once and no other, and Len is the number of the keys that
  -- Keys lists.
  pub run-ShardedMap :
      (shard_count : ℤ) (hash_fn : K → ℕ) (ws : List (Write K V))
      → let f = run_map make ws in
        (m : ShardedMap K V) × (run (new shard_count hash_fn) ws ≡ some m)
        × ((k : K) → get dec m k ≡ some (f k))
        × ((k : K) → occurs dec k (keys m) ≡ present (f k))
        × (len m ≡ length (keys m))
  unfolding len keys
  run-ShardedMap shard_count hash_fn ws =
      let (m, ran, is) =
        run-IsMapOf make (new shard_count hash_fn) ws (new-IsMapOf dec shard_count hash_fn) in
      (
        m,
        ran,
        get-IsMapOf dec (run_map make ws) m is,
        occurs-keys dec (run_map make ws) m is,
        sym (length-all_keys m.shards),
      )
