-- ===== src/PubSub/Calls.antt =====
-- Calls on the event bus of src/05_patterns/06_pub_sub, and what they are for the mailboxes.
use grin_with_golang.PubSub.{
  Channel, EventBus, subscribe, publish, unsubscribe, close, receive, ℕ, Option, List,
}
use grin_with_golang.PubSub.Mailboxes.{Mailbox, change, alter}
use grin_with_golang.PubSub.Closing.{shut, shut_all}
use grin_with_golang.Prelude.{
  List, Option, [], false, map, none, some, suc, zero, ℕ, ◌<◌, ◌∷◌, ◌++◌, ◌>>=◌, if◌then◌else◌, ltb,
  length,
}

pub data Call (T : Type 0) : Type 0 where
  subscribe_call : ℕ → Call T
  publish_call : ℕ → T → Call T
  unsubscribe_call : ℕ → ℕ → Call T
  receive_call : ℕ → Call T
  close_call : Call T

pub data Answer (T : Type 0) : Type 0 where
  made : ℕ → Answer T
  received : Option T → Answer T
  done : Answer T

module _ {T : Type 0} where
  unfoldable pub act : Call T → EventBus T → Option (EventBus T × Answer T)
  act (subscribe_call topic) eb = let (eb1, ch) = subscribe topic eb in some (eb1, made ch)
  act (publish_call topic event) eb = publish topic event eb >>= λ eb1. some (eb1, done)
  act (unsubscribe_call topic ch) eb = unsubscribe topic ch eb >>= λ eb1. some (eb1, done)
  act (receive_call ch) eb = receive ch eb >>= λ r. some (r.0, received r.1)
  act close_call eb = close eb >>= λ eb1. some (eb1, done)

  unfoldable pub run : List (Call T) → EventBus T → Option (EventBus T × List (Answer T))
  run [] eb = some (eb, [])
  run (call ∷ calls) eb = act call eb >>= λ r. run calls r.0 >>= λ rest. some (rest.0, r.1 ∷ rest.1)

  -- a bounded mailbox takes an event, and gives up its oldest
  unfoldable pub post : ℕ → T → Channel T → Channel T
  post size event c =
      if ltb (length c.buffer) size then record c { buffer = c.buffer ++ event ∷ [] } else c

  unfoldable pub oldest : Channel T → Option T
  oldest c = elim c.buffer [ [] ↦ none | event ∷ events ↦ some event ]

  unfoldable pub without_oldest : Channel T → Channel T
  without_oldest c = elim c.buffer [ [] ↦ c | event ∷ events ↦ record c { buffer = events } ]

  unfoldable pub oldest_of : ℕ → List (Mailbox T) → Option T
  oldest_of ch [] = none
  oldest_of zero (b ∷ bs) = oldest b.1
  oldest_of (suc ch) (b ∷ bs) = oldest_of ch bs

  -- What a call is for the mailboxes: an event goes to the open mailboxes of its topic, and a
  -- subscriber leaves its own.
  unfoldable pub mailboxes_after : ℕ → Call T → List (Mailbox T) → List (Mailbox T) × Answer T
  mailboxes_after size (subscribe_call topic) bs =
      (bs ++ (topic, record { buffer = []; closed = false }) ∷ [], made (length bs))
  mailboxes_after size (publish_call topic event) bs =
      (map (change topic (post size event)) bs, done)
  mailboxes_after size (unsubscribe_call topic ch) bs = (alter ch (change topic shut) bs, done)
  mailboxes_after size (receive_call ch) bs =
      (alter ch (λ b. (b.0, without_oldest b.1)) bs, received (oldest_of ch bs))
  mailboxes_after size close_call bs = (map shut_all bs, done)

  unfoldable pub run_mailboxes :
      ℕ → List (Call T) → List (Mailbox T) → List (Mailbox T) × List (Answer T)
  run_mailboxes size [] bs = (bs, [])
  run_mailboxes size (call ∷ calls) bs =
      let (bs1, answer) = mailboxes_after size call bs in
      let (bs2, answers) = run_mailboxes size calls bs1 in (bs2, answer ∷ answers)

  -- Receives are from channels that Subscribe returned; `n` were returned before.
  unfoldable pub Known : ℕ → List (Call T) → Type 0
  Known n [] = Unit
  Known n (subscribe_call topic ∷ calls) = Known (suc n) calls
  Known n (publish_call topic event ∷ calls) = Known n calls
  Known n (unsubscribe_call topic ch ∷ calls) = Known n calls
  Known n (receive_call ch ∷ calls) = (ch < n) × Known n calls
  Known n (close_call ∷ calls) = Known n calls
