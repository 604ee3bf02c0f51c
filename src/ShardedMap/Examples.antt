-- ===== src/ShardedMap/Examples.antt =====
-- A sharded map with numbers for keys, hashed to themselves.
use grin_with_golang.ShardedMap.{
  ShardedMap, get, keys, len, new, set_key, List, ℕ, ℕ_discrete, delete_key, get_shard, home,
  assign, remove, all_keys, shard_keys,
}
use grin_with_golang.ShardedMap.Snapshot.{
  Write, set_write, delete_write, run, run_map, run-ShardedMap,
}
use grin_with_golang.ShardedMap.Entries.{occurs, present}
use grin_with_golang.Prelude.Integers.{negsuc, pos}
use grin_with_golang.Prelude.Maps.{make}
use grin_with_golang.Prelude.{List, [], refl, some, ℕ, ℕ_discrete, ◌≡◌, ◌∷◌, ◌>>=◌, length}

abbrev writes : List (Write ℕ ℕ)
writes = set_write 1 10 ∷ set_write 17 20 ∷ set_write 1 11 ∷ set_write 3 30 ∷ delete_write 3 ∷ []

abbrev hash : ℕ → ℕ
hash k = k

run-ShardedMap_example :
    let f = run_map ℕ_discrete make writes in
    (m : ShardedMap ℕ ℕ) × (run ℕ_discrete (new (negsuc 4) hash) writes ≡ some m)
    × ((k : ℕ) → get ℕ_discrete m k ≡ some (f k))
    × ((k : ℕ) → occurs ℕ_discrete k (keys m) ≡ present (f k))
    × (len m ≡ length (keys m))
run-ShardedMap_example = run-ShardedMap ℕ_discrete (negsuc 4) hash writes

-- two keys in one shard of 16
keys_of_run : (run ℕ_discrete (new (pos 0) hash) writes >>= λ m. some (keys m)) ≡ some (1 ∷ 17 ∷ [])
unfolding run new set_key delete_key get_shard home assign remove keys all_keys shard_keys
    ℕ_discrete
keys_of_run = refl
