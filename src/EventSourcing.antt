-- ===== src/EventSourcing.antt =====
-- The event-sourced accounts of src/10_distributed/04_event_sourcing/main.go.
-- `K` are the strings that name accounts, with `empty` the empty one, and `A` the float64 amounts,
-- of which only the operations that the program uses are given. `none` is the panic of a type
-- assertion. The log is in memory, so its counters do not reach the end of int.
pub mod Replay
pub mod Ledger
pub mod Bank
mod Examples
use grin_with_golang.Prelude.{
  List, Bool, ℕ, [], Option, ◌∷◌, ap, append-nil, append_assoc, ap₂, arith, bit_and, bit_or, dec_le,
  dec_lt, false, fun_ext, inl, inr, map, max, min, none, not, refl, some, subst, suc, sym, true,
  zero, ℕ_discrete, ◌+◌, ◌-◌, ◌*◌, ◌/◌, ◌%◌, ◌^◌, ◌≤◌, ◌<◌, ◌≡◌, ◌≢◌, ◌↔◌, ◌⊎◌, ◌∙◌, ◌&&◌, ◌||◌,
  ◌++◌, ◌==◌, ◌>>=◌, if◌then◌else◌, ltb, leb, length, get_elem?, get_or, set, store, replicate,
  Bool-cases, Option-cases, length-append, length-set, length-replicate, get_or-set,
  get_elem?-get_or,
}
use grin_with_golang.Prelude.Maps.{GoMap, make, insert}
use mathlib.Core.Logic.{ite}

-- the arithmetic of float64
pub record Float (A : Type 0) : Type 0 where
  pub zero_amount : A
  pub plus : A → A → A
  pub minus : A → A → A
  pub less : A → A → Bool

pub data EventType : Type 0 where
  account_created : EventType
  money_deposited : EventType
  money_withdrawn : EventType
  transfer_sent : EventType
  transfer_received : EventType

-- the keys of `Data`
pub data Field : Type 0 where
  owner_field : Field
  amount_field : Field
  to_field : Field
  from_field : Field

unfoldable pub Field-discrete : Discrete Field
Field-discrete = hlevel

-- an `interface{}` of `Data`: a string or a float64
pub data Value (K A : Type 0) : Type 0 where
  text : K → Value K A
  number : A → Value K A

pub record Event (K A : Type 0) : Type 0 where
  pub id : ℕ
  pub type : EventType
  pub aggregate : K
  pub content : GoMap Field (Value K A)
  pub timestamp : ℕ
  pub version : ℕ

pub record EventStore (K A : Type 0) : Type 0 where
  pub events : List (Event K A)
  pub next_id : ℕ

pub record BankAccount (K A : Type 0) : Type 0 where
  pub id : K
  pub owner : K
  pub balance : A
  pub version : ℕ

module _ {K A : Type 0} where
  abbrev pub new : EventStore K A
  new = record { events = []; next_id = 0 }

  -- the clock's reading is the last argument
  unfoldable pub append : EventStore K A → Event K A → ℕ → EventStore K A
  append es evt now =
      let next = es.next_id + 1 in
      record {
        events = es.events ++ record evt { id = next; timestamp = now } ∷ [];
        next_id = next;
      }

  -- `v.(string)` and `v.(float64)`
  unfoldable pub as_text : Option (Value K A) → Option K
  as_text (some (text k)) = some k
  as_text _ = none

  unfoldable pub as_number : Option (Value K A) → Option A
  as_number (some (number a)) = some a
  as_number _ = none

module _ {K A : Type 0} (float : Float A) where
  unfoldable pub apply : BankAccount K A → Event K A → Option (BankAccount K A)
  apply a evt = elim evt.type [
    | account_created ↦ do
      owner ← as_text (evt.content owner_field)
      some (record {
        id = evt.aggregate;
        owner = owner;
        balance = float.zero_amount;
        version = evt.version;
      })
    | money_deposited ↦ do
      amount ← as_number (evt.content amount_field)
      some (record a { balance = float.plus a.balance amount; version = evt.version })
    | money_withdrawn ↦ do
      amount ← as_number (evt.content amount_field)
      some (record a { balance = float.minus a.balance amount; version = evt.version })
    | transfer_sent ↦ do
      amount ← as_number (evt.content amount_field)
      some (record a { balance = float.minus a.balance amount; version = evt.version })
    | transfer_received ↦ do
      amount ← as_number (evt.content amount_field)
      some (record a { balance = float.plus a.balance amount; version = evt.version })
  ]

  -- the loop of `Reconstruct`
  unfoldable pub replay : BankAccount K A → List (Event K A) → Option (BankAccount K A)
  replay a [] = some a
  replay a (evt ∷ evts) = apply a evt >>= λ a'. replay a' evts

module _ {K A : Type 0} (dec : Discrete K) where
  unfoldable pub of_aggregate : List (Event K A) → K → List (Event K A)
  of_aggregate [] id = []
  of_aggregate (evt ∷ evts) id =
      let rest = of_aggregate evts id in ite (dec evt.aggregate id) (evt ∷ rest) rest

  unfoldable pub get_events : EventStore K A → K → List (Event K A)
  get_events es id = of_aggregate es.events id

module _ {K A : Type 0} (empty : K) (float : Float A) where
  abbrev pub zero_account : BankAccount K A
  zero_account = record { id = empty; owner = empty; balance = float.zero_amount; version = 0 }

module _ {K A : Type 0} where
  -- an event that a command builds, with its identifier and time still zero
  abbrev pub event : EventType → K → GoMap Field (Value K A) → ℕ → Event K A
  event type aggregate content version = record {
    id = 0;
    type = type;
    aggregate = aggregate;
    content = content;
    timestamp = 0;
    version = version;
  }

  abbrev pub amount_of : A → GoMap Field (Value K A)
  amount_of amount = insert Field-discrete amount_field (number amount) make

  unfoldable pub create_account : EventStore K A → K → K → ℕ → EventStore K A
  create_account es id owner now =
      append es (event account_created id (insert Field-discrete owner_field (text owner) make) 1)
        now

module _ {K A : Type 0} (dec : Discrete K) (empty : K) (float : Float A) where
  unfoldable pub reconstruct : EventStore K A → K → Option (BankAccount K A)
  reconstruct es id = replay float (zero_account empty float) (get_events dec es id)

  unfoldable pub deposit : EventStore K A → K → A → ℕ → Option (EventStore K A)
  deposit es id amount now = do
    account ← reconstruct es id
    some (append es (event money_deposited id (amount_of amount) (account.version + 1)) now)

  -- with `false` for an error
  unfoldable pub withdraw : EventStore K A → K → A → ℕ → Option (EventStore K A × Bool)
  withdraw es id amount now = do
    account ← reconstruct es id
    let evt = event money_withdrawn id (amount_of amount) (account.version + 1)
    some (if float.less account.balance amount then (es, false) else (append es evt now, true))

  -- the receiver's state is read after the sender's event
  unfoldable pub transfer : EventStore K A → K → K → A → ℕ → ℕ → Option (EventStore K A × Bool)
  transfer es from to amount now later = do
    sender ← reconstruct es from
    let sent = insert Field-discrete to_field (text to) (amount_of amount)
    let es1 = append es (event transfer_sent from sent (sender.version + 1)) now
    let received = insert Field-discrete from_field (text from) (amount_of amount)
    let done : Option (EventStore K A × Bool) = reconstruct es1 to >>= λ receiver.
        some (append es1 (event transfer_received to received (receiver.version + 1)) later, true)
    if float.less sender.balance amount then some (es, false) else done
