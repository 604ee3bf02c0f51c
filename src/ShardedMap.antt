-- ===== src/ShardedMap.antt =====
-- The sharded map of src/09_dsa/04_concurrent_map/main.go.
-- A shard's map is a list of its entries, each key once, so that its length and its keys can be read;
-- the order of a range over a Go map is not specified, and stands for the order of this list. The
-- lock of a shard makes each access to it one step: Set, Get and Delete are one step each, and Len
-- and Keys read the shards one after the other. `none` is a panic.
pub mod Entries
pub mod Shards
pub mod Snapshot
mod Examples
use grin_with_golang.Prelude.{
  List, Option, ◌∷◌, ℕ, Bool, [], ap, append-nil, append_assoc, ap₂, arith, bit_and, bit_or, dec_le,
  dec_lt, false, fun_ext, inl, inr, map, max, min, none, not, refl, some, subst, suc, sym, true,
  zero, ℕ_discrete, ◌+◌, ◌-◌, ◌*◌, ◌/◌, ◌%◌, ◌^◌, ◌≤◌, ◌<◌, ◌≡◌, ◌≢◌, ◌↔◌, ◌⊎◌, ◌∙◌, ◌&&◌, ◌||◌,
  ◌++◌, ◌==◌, ◌>>=◌, if◌then◌else◌, ltb, leb, length, get_elem?, get_or, set, store, replicate,
  Bool-cases, Option-cases, length-append, length-set, length-replicate, get_or-set,
  get_elem?-get_or,
}
use grin_with_golang.Prelude.Integers.{ℤ, pos, negsuc}
use mathlib.Core.Logic.{ite}

module _ {K V : Type 0} (dec : Discrete K) where
  -- the operations on a Go map
  unfoldable pub lookup : K → List (K × V) → Option V
  lookup k [] = none
  lookup k ((j, v) ∷ es) = ite (dec k j) (some v) (lookup k es)

  unfoldable pub assign : K → V → List (K × V) → List (K × V)
  assign k v [] = (k, v) ∷ []
  assign k v ((j, w) ∷ es) = ite (dec k j) ((k, v) ∷ es) ((j, w) ∷ assign k v es)

  unfoldable pub remove : K → List (K × V) → List (K × V)
  remove k [] = []
  remove k ((j, w) ∷ es) = ite (dec k j) es ((j, w) ∷ remove k es)

pub record ShardedMap (K V : Type 0) : Type 0 where
  pub shards : List (List (K × V))
  pub shard_count : ℕ
  pub hash_fn : K → ℕ

abbrev pub default_shard_count : ℕ
default_shard_count = 16

abbrev pub count_or_default : ℤ → ℕ
count_or_default (pos zero) = default_shard_count
count_or_default (pos (suc n)) = suc n
count_or_default (negsuc n) = default_shard_count

module _ {K V : Type 0} where
  unfoldable pub new : ℤ → (K → ℕ) → ShardedMap K V
  new shard_count hash_fn =
      let n = count_or_default shard_count in
      record { shards = replicate n []; shard_count = n; hash_fn = hash_fn }

  -- the index of the shard of a key
  unfoldable pub home : ShardedMap K V → K → ℕ
  home m key = m.hash_fn key % m.shard_count

  unfoldable pub get_shard : ShardedMap K V → K → Option (List (K × V))
  get_shard m key = get_elem? m.shards (home m key)

  -- the loop of `Len` over the shards
  unfoldable pub total : List (List (K × V)) → ℕ
  total [] = 0
  total (s ∷ ss) = length s + total ss

  unfoldable pub len : ShardedMap K V → ℕ
  len m = total m.shards

  unfoldable pub shard_keys : List (K × V) → List K
  shard_keys [] = []
  shard_keys ((k, v) ∷ es) = k ∷ shard_keys es

  unfoldable pub all_keys : List (List (K × V)) → List K
  all_keys [] = []
  all_keys (s ∷ ss) = shard_keys s ++ all_keys ss

  unfoldable pub keys : ShardedMap K V → List K
  keys m = all_keys m.shards

module _ {K V : Type 0} (dec : Discrete K) where
  unfoldable pub set_key : ShardedMap K V → K → V → Option (ShardedMap K V)
  set_key m key value = do
    s ← get_shard m key
    shards ← store m.shards (home m key) (assign dec key value s)
    some (record m { shards = shards })

  unfoldable pub get : ShardedMap K V → K → Option (Option V)
  get m key = get_shard m key >>= λ s. some (lookup dec key s)

  unfoldable pub delete_key : ShardedMap K V → K → Option (ShardedMap K V)
  delete_key m key = do
    s ← get_shard m key
    shards ← store m.shards (home m key) (remove dec key s)
    some (record m { shards = shards })
