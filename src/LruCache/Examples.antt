-- ===== src/LruCache/Examples.antt =====
-- The program's own run of the cache, and the theorems at concrete inputs. Keys are numbers.
use grin_with_golang.LruCache.{LruCache, new, len, List, ℕ_discrete, ℕ}
use grin_with_golang.LruCache.Session.{
  run, spec_run, Op, put_op, get_op, keys_op, len_op, delete_op, value, done, listed, counted,
  deleted, Reply, spec_apply, run-LruCache,
}
use grin_with_golang.LruCache.Bound.{after, after-len}
use grin_with_golang.Prelude.{List, [], max, none, refl, some, true, ℕ, ℕ_discrete, ◌≤◌, ◌≡◌, ◌∷◌}
use grin_with_golang.LruCache.History.{spec_get, spec_put, spec_delete, lookup, drop_key, drop_last}

abbrev calls : List (Op ℕ ℕ)
calls =
    put_op 1 1
    ∷ put_op 2 2
    ∷ put_op 3 3
    ∷ get_op 1
    ∷ put_op 4 4
    ∷ get_op 2
    ∷ put_op 3 30
    ∷ keys_op
    ∷ delete_op 1
    ∷ len_op
    ∷ []

run-LruCache_example : run ℕ_discrete (new 3) calls ≡ some (spec_run ℕ_discrete 3 [] calls)
run-LruCache_example = run-LruCache ℕ_discrete 3 calls

abbrev replies : List (Reply ℕ ℕ)
replies =
    done
    ∷ done
    ∷ done
    ∷ value (some 1)
    ∷ done
    ∷ value none
    ∷ done
    ∷ listed (3 ∷ 4 ∷ 1 ∷ [])
    ∷ deleted true
    ∷ counted 2
    ∷ []

spec_run_of_calls : spec_run ℕ_discrete 3 [] calls ≡ replies
unfolding spec_run spec_apply spec_get spec_put spec_delete lookup drop_key drop_last ℕ_discrete
spec_run_of_calls = refl

after-len_example :
    (c : LruCache ℕ ℕ) × (after ℕ_discrete (new 3) calls ≡ some c) × (len c ≤ max 1 3)
after-len_example = after-len ℕ_discrete 3 calls
