-- ===== src/EventSourcing/Bank.antt =====
-- The commands of src/10_distributed/04_event_sourcing on the log, against those on the table.
use grin_with_golang.EventSourcing.{
  Event, EventStore, BankAccount, Float, apply, replay, reconstruct, append, create_account,
  deposit, withdraw, transfer, event, amount_of, new, text, money_deposited, transfer_sent, ◌≡◌, ℕ,
  as_number, as_text, Field-discrete, insert, get_events, to_field, of_aggregate,
}
use mathlib.Core.Logic.{if_pos, if_neg}
use grin_with_golang.EventSourcing.Ledger.{
  Command, create_command, deposit_command, withdraw_command, transfer_command, spec_execute,
  spec_execute_all, Bank, set_account, empty_bank, spec_create, credit, debit, spec_withdraw,
  spec_transfer,
}
use grin_with_golang.Prelude.{
  ◌≡◌, Bool, List, Option, [], ap, inl, inr, refl, some, sym, true, ℕ, ◌+◌, ◌≢◌, ◌∙◌, ◌∷◌, ◌>>=◌,
  Bool-cases,
}
use grin_with_golang.EventSourcing.Replay.{reconstruct-append}

module _ {K A : Type 0} (dec : Discrete K) (empty : K) (float : Float A) where
  -- every account reconstructs from the log to its row of the table
  abbrev pub IsLogOf : Bank K A → EventStore K A → Type 0
  IsLogOf b es = (id : K) → reconstruct dec empty float es id ≡ some (b id)

  append-IsLogOf :
      (b : Bank K A) (es : EventStore K A) (evt : Event K A) (now : ℕ) (account : BankAccount K A)
      → IsLogOf b es
      → apply float (b evt.aggregate) evt ≡ some account
      → IsLogOf (set_account dec b evt.aggregate account) (append es evt now)
  unfolding set_account
  append-IsLogOf b es evt now account is h id =
      reconstruct-append dec empty float es evt now id ∙ elim (dec evt.aggregate id) [
        | yes p ↦
            if_pos (dec evt.aggregate id) p _ _
            ∙ rw (is id) (ap (λ j. apply float (b j) evt) (sym p) ∙ h)
            ∙ ap some (sym (if_pos (dec evt.aggregate id) p account (b id)))
        | no p ↦
            if_neg (dec evt.aggregate id) p _ _
            ∙ is id
            ∙ ap some (sym (if_neg (dec evt.aggregate id) p account (b id)))
      ]

  deposit-IsLogOf :
      (b : Bank K A) (es : EventStore K A) (id : K) (amount : A) (now : ℕ)
      → IsLogOf b es
      → (es' : EventStore K A) × (deposit dec empty float es id amount now ≡ some es')
        × IsLogOf (credit dec float b id amount) es'
  unfolding deposit apply as_number Field-discrete
  deposit-IsLogOf b es id amount now is = (
    append es (event money_deposited id (amount_of amount) ((b id).version + 1)) now,
    rw (is id) refl,
    append-IsLogOf b es (event money_deposited id (amount_of amount) ((b id).version + 1)) now _ is
        refl,
  )

  create_account-IsLogOf :
      (b : Bank K A) (es : EventStore K A) (id owner : K) (now : ℕ)
      → IsLogOf b es
      → IsLogOf (spec_create dec float b id owner) (create_account es id owner now)
  unfolding create_account apply as_text Field-discrete
  create_account-IsLogOf b es id owner now is = append-IsLogOf b es _ now _ is refl

  withdraw-IsLogOf :
      (b : Bank K A) (es : EventStore K A) (id : K) (amount : A) (now : ℕ)
      → IsLogOf b es
      → let (b', done) = spec_withdraw dec float b id amount in
        (es' : EventStore K A) × (withdraw dec empty float es id amount now ≡ some (es', done))
        × IsLogOf b' es'
  unfolding withdraw apply as_number Field-discrete
  withdraw-IsLogOf b es id amount now is = elim (Bool-cases (float.less (b id).balance amount)) [
    | inl short ↦ rw (withdraw, is id, short) (es, refl, is)
    | inr enough ↦ rw (withdraw, is id, enough) (_, refl, append-IsLogOf b es _ now _ is refl)
  ]

  transfer-IsLogOf :
      (b : Bank K A) (es : EventStore K A) (from to : K) (amount : A) (now later : ℕ)
      → IsLogOf b es
      → let (b', done) = spec_transfer dec float b from to amount in
        (es' : EventStore K A) × (transfer dec empty float es from to amount now later
          ≡ some (es', done))
        × IsLogOf b' es'
  unfolding transfer apply as_number Field-discrete
  transfer-IsLogOf b es from to amount now later is =
      elim (Bool-cases (float.less (b from).balance amount)) [
        | inl short ↦ rw (transfer, is from, short) (es, refl, is)
        | inr enough ↦
            let sent = insert Field-discrete to_field (text to) (amount_of amount) in
            let evt = event transfer_sent from sent ((b from).version + 1) in
            let is1 = append-IsLogOf b es evt now _ is refl in
            let account = is1 to in
            rw (transfer, is from, enough, account)
              (
                _,
                refl,
                append-IsLogOf (debit dec float b from amount) (append es evt now) _ later _ is1
                    refl,
              )
      ]

  -- a command at the times of its two possible events
  unfoldable pub execute : EventStore K A → Command K A × ℕ × ℕ → Option (EventStore K A × Bool)
  execute es (create_command id owner, now, later) = some (create_account es id owner now, true)
  execute es (deposit_command id amount, now, later) =
      deposit dec empty float es id amount now >>= λ es'. some (es', true)
  execute es (withdraw_command id amount, now, later) = withdraw dec empty float es id amount now
  execute es (transfer_command from to amount, now, later) =
      transfer dec empty float es from to amount now later

  execute-IsLogOf :
      (b : Bank K A) (es : EventStore K A) (c : Command K A) (now later : ℕ)
      → IsLogOf b es
      → let (b', done) = spec_execute dec float b c in
        (es' : EventStore K A) × (execute es (c, now, later) ≡ some (es', done)) × IsLogOf b' es'
  unfolding execute spec_execute
  execute-IsLogOf b es (create_command id owner) now later is =
      (create_account es id owner now, refl, create_account-IsLogOf b es id owner now is)
  execute-IsLogOf b es (deposit_command id amount) now later is =
      let (es', ran, is') = deposit-IsLogOf b es id amount now is in (es', rw ran refl, is')
  execute-IsLogOf b es (withdraw_command id amount) now later is =
      withdraw-IsLogOf b es id amount now is
  execute-IsLogOf b es (transfer_command from to amount) now later is =
      transfer-IsLogOf b es from to amount now later is

  -- the commands one after the other, and which of them were accepted
  unfoldable pub execute_all :
      EventStore K A → List (Command K A × ℕ × ℕ) → Option (EventStore K A × List Bool)
  execute_all es [] = some (es, [])
  execute_all es (c ∷ cs) = do r ← execute es c; rs ← execute_all r.0 cs; some (rs.0, r.1 ∷ rs.1)

  execute_all-from :
      (b : Bank K A) (es : EventStore K A) (cs : List (Command K A × ℕ × ℕ))
      → IsLogOf b es
      → let (b', done) = spec_execute_all dec float b cs in
        (es' : EventStore K A) × (execute_all es cs ≡ some (es', done)) × IsLogOf b' es'
  unfolding execute_all spec_execute_all
  execute_all-from b es [] is = (es, refl, is)
  execute_all-from b es ((c, now, later) ∷ cs) is =
      let (es1, ran, is1) = execute-IsLogOf b es c now later is in
      let (es2, ran', is2) = execute_all-from (spec_execute dec float b c).0 es1 cs is1 in
      (es2, rw (ran, ran') refl, is2)

  pub new-IsLogOf : IsLogOf (empty_bank empty float) new
  unfolding reconstruct get_events of_aggregate replay
  new-IsLogOf id = refl

  -- Whatever the commands, at whatever times, the event store accepts and rejects them as a table of
  -- accounts does that has no log, none of them panics, and every account reconstructs from the
  -- resulting log to its row of that table, balance, owner and version. The arithmetic of the amounts
  -- is arbitrary.
  pub execute_all-EventStore :
      (cs : List (Command K A × ℕ × ℕ))
      → let (b, done) = spec_execute_all dec float (empty_bank empty float) cs in
        (es : EventStore K A) × (execute_all new cs ≡ some (es, done))
        × ((id : K) → reconstruct dec empty float es id ≡ some (b id))
  execute_all-EventStore cs = execute_all-from (empty_bank empty float) new cs new-IsLogOf

  -- `CreateAccount` does not look for an account of that name: after it the account has the new
  -- owner, no money and version 1, whatever it held, and the other accounts are as they were.
  create_account-overwrites :
      (b : Bank K A) (es : EventStore K A) (id owner : K) (now : ℕ)
      → ((j : K) → reconstruct dec empty float es j ≡ some (b j))
      → let es' = create_account es id owner now in
        (reconstruct dec empty float es' id
          ≡ some (record { id = id; owner = owner; balance = float.zero_amount; version = 1 }))
        × ((j : K) → id ≢ j → reconstruct dec empty float es' j ≡ some (b j))
  unfolding set_account
  create_account-overwrites b es id owner now is =
      let all = create_account-IsLogOf b es id owner now is in
      (
        all id ∙ ap some (if_pos (dec id id) refl _ _),
        λ j p. all j ∙ ap some (if_neg (dec id j) p _ _),
      )
