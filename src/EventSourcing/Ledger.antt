-- ===== src/EventSourcing/Ledger.antt =====
-- What the event-sourced bank of src/10_distributed/04_event_sourcing promises: a table of accounts
-- by name, without a log. An account that nobody created is the zero account.
use grin_with_golang.EventSourcing.{BankAccount, Float, zero_account, ite, ◌+◌, Bool, List}
use grin_with_golang.Prelude.{◌+◌, Bool, false, true, if◌then◌else◌, List, [], ℕ, ◌∷◌}

abbrev pub Bank : Type 0 → Type 0 → Type 0
Bank K A = K → BankAccount K A

pub data Command (K A : Type 0) : Type 0 where
  create_command : K → K → Command K A
  deposit_command : K → A → Command K A
  withdraw_command : K → A → Command K A
  transfer_command : K → K → A → Command K A

module _ {K A : Type 0} (empty : K) (float : Float A) where
  abbrev pub empty_bank : Bank K A
  empty_bank j = zero_account empty float

module _ {K A : Type 0} (dec : Discrete K) where
  unfoldable pub set_account : Bank K A → K → BankAccount K A → Bank K A
  set_account b id account j = ite (dec id j) account (b j)

module _ {K A : Type 0} (dec : Discrete K) (float : Float A) where
  -- whatever the account was before
  abbrev pub spec_create : Bank K A → K → K → Bank K A
  spec_create b id owner =
      set_account dec b id
        (record { id = id; owner = owner; balance = float.zero_amount; version = 1 })

  abbrev pub credit : Bank K A → K → A → Bank K A
  credit b id amount =
      let a = b id in
      set_account dec b id
        (record a { balance = float.plus a.balance amount; version = a.version + 1 })

  abbrev pub debit : Bank K A → K → A → Bank K A
  debit b id amount =
      let a = b id in
      set_account dec b id
        (record a { balance = float.minus a.balance amount; version = a.version + 1 })

  abbrev pub spec_withdraw : Bank K A → K → A → Bank K A × Bool
  spec_withdraw b id amount =
      if float.less (b id).balance amount then (b, false) else (debit b id amount, true)

  abbrev pub spec_transfer : Bank K A → K → K → A → Bank K A × Bool
  spec_transfer b from to amount =
      if float.less (b from).balance amount
      then (b, false)
      else (credit (debit b from amount) to amount, true)

  unfoldable pub spec_execute : Bank K A → Command K A → Bank K A × Bool
  spec_execute b (create_command id owner) = (spec_create b id owner, true)
  spec_execute b (deposit_command id amount) = (credit b id amount, true)
  spec_execute b (withdraw_command id amount) = spec_withdraw b id amount
  spec_execute b (transfer_command from to amount) = spec_transfer b from to amount

  unfoldable pub spec_execute_all : Bank K A → List (Command K A × ℕ × ℕ) → Bank K A × List Bool
  spec_execute_all b [] = (b, [])
  spec_execute_all b (c ∷ cs) =
      let r = spec_execute b c.0 in let rs = spec_execute_all r.0 cs in (rs.0, r.1 ∷ rs.1)
