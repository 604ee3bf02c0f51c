-- ===== src/EventSourcing/Examples.antt =====
-- The program's run of the event-sourced bank, with whole amounts and numbers for names.
use grin_with_golang.EventSourcing.{EventStore, Float, new, reconstruct, ℕ, List, ℕ_discrete}
use grin_with_golang.EventSourcing.Ledger.{
  Command, create_command, deposit_command, withdraw_command, transfer_command, spec_execute_all,
  empty_bank, spec_execute,
}
use grin_with_golang.EventSourcing.Bank.{execute_all, execute_all-EventStore}
use grin_with_golang.EventSourcing.Ledger.{empty_bank, set_account}
use grin_with_golang.Prelude.{
  List, [], false, refl, some, true, ℕ, ℕ_discrete, ◌+◌, ◌-◌, ◌≡◌, ◌∷◌, ltb,
}

abbrev whole : Float ℕ
whole = record { zero_amount = 0; plus = λ a b. a + b; minus = λ a b. a - b; less = ltb }

abbrev demo : List (Command ℕ ℕ × ℕ × ℕ)
demo =
    (create_command 1 11, 0, 0)
    ∷ (create_command 2 12, 1, 1)
    ∷ (deposit_command 1 1000, 2, 2)
    ∷ (deposit_command 2 500, 3, 3)
    ∷ (withdraw_command 1 200, 4, 4)
    ∷ (transfer_command 1 2 300, 5, 6)
    ∷ (withdraw_command 1 9999, 7, 7)
    ∷ []

-- the last withdrawal is refused, and the balances are 500 and 800
demo_runs :
    let (b, done) = spec_execute_all ℕ_discrete whole (empty_bank 0 whole) demo in
    (done ≡ true ∷ true ∷ true ∷ true ∷ true ∷ true ∷ false ∷ [])
    × ((b 1).balance ≡ 500)
    × ((b 2).balance ≡ 800)
    × ((b 1).version ≡ 4)
unfolding spec_execute_all spec_execute set_account ℕ_discrete
demo_runs = (refl, refl, refl, refl)

execute_all-EventStore_example :
    let (b, done) = spec_execute_all ℕ_discrete whole (empty_bank 0 whole) demo in
    (es : EventStore ℕ ℕ) × (execute_all ℕ_discrete 0 whole new demo ≡ some (es, done))
    × ((id : ℕ) → reconstruct ℕ_discrete 0 whole es id ≡ some (b id))
execute_all-EventStore_example = execute_all-EventStore ℕ_discrete 0 whole demo
