-- ===== src/DistributedLock/Examples.antt =====
-- The scenarios of the program, and the theorems at concrete inputs. Names are numbers here.
use grin_with_golang.DistributedLock.{
  granted, held_by, released, not_found, other_holder, acquire, release, tick, ℕ, LockEntry,
  DistributedLock, List, tokens, ℕ_discrete, unlock, insert, Op, lock, apply_all, make, grant, new,
}
use grin_with_golang.Prelude.{
  List, [], arith, none, refl, some, ℕ, ℕ_discrete, ◌≡◌, ◌≢◌, ◌⊎◌, ◌∷◌, length,
}
use grin_with_golang.DistributedLock.Fencing.{count_up, tokens-count_up}
use grin_with_golang.DistributedLock.Exclusion.{apply_all-kept, unlock_cases}

abbrev orders : ℕ
orders = 1

abbrev entry : LockEntry ℕ ℕ
entry = record { key = orders; holder = 11; token = 1; expires_at = 5000 }

abbrev held : DistributedLock ℕ ℕ
held = record { locks = insert ℕ_discrete orders entry make; next_tok = 1 }

abbrev others : List (Op ℕ ℕ)
others = acquire orders 12 5000 10 11 ∷ release orders 12 ∷ tick 100 ∷ acquire 2 12 500 200 201 ∷ []

-- contention, release and a second grant
scenario :
    tokens ℕ_discrete ℕ_discrete new (
      acquire orders 11 5000 0 0
      ∷ acquire orders 12 5000 1 1
      ∷ release orders 11
      ∷ acquire orders 12 5000 2 2
      ∷ [])
    ≡ 1 ∷ 2 ∷ []
unfolding tokens lock unlock grant ℕ_discrete
scenario = refl

apply_all-kept_example :
    let dl' = apply_all ℕ_discrete ℕ_discrete held others in
    (dl'.locks orders ≡ some entry)
    × (lock ℕ_discrete ℕ_discrete dl' orders 12 9 300 301 ≡ (dl', held_by 11))
unfolding ℕ_discrete
apply_all-kept_example =
    apply_all-kept ℕ_discrete ℕ_discrete others held entry 12 9 300 301 refl
      (omega arith, (λ _. omega arith, (omega arith, (omega arith, tt)))) (omega arith)

tokens-count_up_example :
    tokens ℕ_discrete ℕ_discrete held others
    ≡ count_up 2 (length (tokens ℕ_discrete ℕ_discrete held others))
tokens-count_up_example = tokens-count_up ℕ_discrete ℕ_discrete others held (omega arith)

unlock_cases_example :
    let (dl', r) = unlock ℕ_discrete ℕ_discrete held orders 12 in
    ((e : LockEntry ℕ ℕ) × (held.locks orders ≡ some e)
      × (e.holder ≡ 12)
      × (r ≡ released)
      × (dl'.locks orders ≡ none)
      × ((k : ℕ) → (k ≡ orders) ⊎ (dl'.locks k ≡ held.locks k))
      × (dl'.next_tok ≡ 1)
      × ((lock ℕ_discrete ℕ_discrete dl' orders 12 9 10 11).1 ≡ granted 2))
    ⊎ ((dl' ≡ held)
        × (((r ≡ not_found) × (held.locks orders ≡ none))
            ⊎ ((e : LockEntry ℕ ℕ) × (held.locks orders ≡ some e)
                × (e.holder ≢ 12)
                × (r ≡ other_holder e.holder))))
unlock_cases_example = unlock_cases ℕ_discrete ℕ_discrete held orders 12 12 9 10 11
