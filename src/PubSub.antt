-- ===== src/PubSub.antt =====
-- The event bus of src/05_patterns/06_pub_sub/main.go.
-- Topics are only compared: numbers stand for these strings. The channels that Subscribe made are
-- numbered in their order, and the map of subscribers is a list of entries. A buffer holds at least one
-- event: then a send to a receiver that waits is a send to the buffer. `none` is the panic of a send
-- on a closed channel or of a second close.
pub mod Entries
pub mod Mailboxes
pub mod Closing
pub mod Calls
pub mod Invariant
pub mod Receiving
pub mod Session
mod Examples
use grin_with_golang.Prelude.{
  ◌≡◌, Bool, List, Option, [], false, none, some, true, ℕ, ◌∷◌, ◌++◌, ◌==◌, ◌>>=◌, if◌then◌else◌,
  length, ltb, get_elem?, set, map,
}

pub record Channel (T : Type 0) : Type 0 where
  pub buffer : List T
  pub closed : Bool

pub record EventBus (T : Type 0) : Type 0 where
  pub channels : List (Channel T)
  pub subscribers : List (ℕ × List ℕ)
  pub buffer_size : ℕ

abbrev pub new : {T : Type 0} → ℕ → EventBus T
new size = record { channels = []; subscribers = []; buffer_size = size }

-- `subscribers[topic]`, nil where it is missing, and `subscribers[topic] = subs`
unfoldable pub lookup : ℕ → List (ℕ × List ℕ) → List ℕ
lookup topic [] = []
lookup topic (e ∷ es) = if e.0 == topic then e.1 else lookup topic es

unfoldable pub put : ℕ → List ℕ → List (ℕ × List ℕ) → List (ℕ × List ℕ)
put topic subs [] = (topic, subs) ∷ []
put topic subs (e ∷ es) =
    let rest = put topic subs es in if e.0 == topic then (topic, subs) ∷ es else e ∷ rest

-- the first entry of a channel in a list of subscribers removed, none where it has none
unfoldable pub take_out : ℕ → List ℕ → Option (List ℕ)
take_out ch [] = none
take_out ch (sub ∷ subs) =
    let rest = take_out ch subs >>= λ r. some (sub ∷ r) in if sub == ch then some subs else rest

module _ {T : Type 0} where
  unfoldable pub subscribe : ℕ → EventBus T → EventBus T × ℕ
  subscribe topic eb =
      let ch = length eb.channels in
      (
        record eb {
          channels = eb.channels ++ record { buffer = []; closed = false } ∷ [];
          subscribers = put topic (lookup topic eb.subscribers ++ ch ∷ []) eb.subscribers;
        },
        ch,
      )

  -- the `select` of Publish: an event that does not fit is dropped
  unfoldable pub send : ℕ → T → Channel T → Option (Channel T)
  send size event c =
      if c.closed
      then none
      else if ltb (length c.buffer) size
      then some (record c { buffer = c.buffer ++ event ∷ [] })
      else some c

  unfoldable pub close_channel : Channel T → Option (Channel T)
  close_channel c = if c.closed then none else some (record c { closed = true })

  -- an operation on one channel, and on the channels of a list, in its order
  unfoldable pub at_channel :
      (Channel T → Option (Channel T)) → ℕ → List (Channel T) → Option (List (Channel T))
  at_channel op ch cs = get_elem? cs ch >>= λ c. op c >>= λ c1. some (set cs ch c1)

  unfoldable pub each :
      (Channel T → Option (Channel T)) → List ℕ → List (Channel T) → Option (List (Channel T))
  each op [] cs = some cs
  each op (ch ∷ chs) cs = at_channel op ch cs >>= λ cs1. each op chs cs1

  unfoldable pub publish : ℕ → T → EventBus T → Option (EventBus T)
  publish topic event eb =
      each (send eb.buffer_size event) (lookup topic eb.subscribers) eb.channels >>= λ cs.
      some (record eb { channels = cs })

  unfoldable pub unsubscribe : ℕ → ℕ → EventBus T → Option (EventBus T)
  unsubscribe topic ch eb = elim (take_out ch (lookup topic eb.subscribers)) [
    | none ↦ some eb
    | some subs ↦ at_channel close_channel ch eb.channels >>= λ cs.
        some (record eb { channels = cs; subscribers = put topic subs eb.subscribers })
  ]

  unfoldable pub close_all : List (ℕ × List ℕ) → List (Channel T) → Option (List (Channel T))
  close_all [] cs = some cs
  close_all (e ∷ es) cs = each close_channel e.1 cs >>= λ cs1. close_all es cs1

  unfoldable pub close : EventBus T → Option (EventBus T)
  close eb = close_all eb.subscribers eb.channels >>= λ cs.
      some (record eb { channels = cs; subscribers = [] })

  -- the oldest event of a channel, none where a receive has to wait or the channel is closed and empty
  unfoldable pub take_from : ℕ → EventBus T → Channel T → Option (EventBus T × Option T)
  take_from ch eb c = elim c.buffer [
    | [] ↦ some (eb, none)
    | event ∷ events ↦
        some
          (record eb { channels = set eb.channels ch (record c { buffer = events }) }, some event)
  ]

  -- a receive by a subscriber
  unfoldable pub receive : ℕ → EventBus T → Option (EventBus T × Option T)
  receive ch eb = get_elem? eb.channels ch >>= take_from ch eb
