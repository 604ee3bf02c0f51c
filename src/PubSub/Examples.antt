-- ===== src/PubSub/Examples.antt =====
-- Three subscribers of two topics, with buffers of two events.
use grin_with_golang.PubSub.{
  EventBus, new, lookup, put, take_out, subscribe, send, publish, unsubscribe, close, close_all,
  close_channel, at_channel, each, receive, take_from, List, ℕ, ◌>>=◌,
}
use grin_with_golang.PubSub.Mailboxes.{channels_of}
use grin_with_golang.PubSub.Calls.{
  Call, subscribe_call, publish_call, unsubscribe_call, receive_call, close_call, made, received,
  done, run, act, run_mailboxes, Known,
}
use grin_with_golang.PubSub.Session.{run-mailboxes}
use grin_with_golang.Prelude.{arith, ◌>>=◌, List, [], none, refl, some, ℕ, ◌≡◌, ◌∷◌}

abbrev calls : List (Call ℕ)
calls =
    subscribe_call 1
    ∷ subscribe_call 2
    ∷ publish_call 1 10
    ∷ subscribe_call 1
    ∷ publish_call 1 11
    ∷ publish_call 1 12
    ∷ receive_call 0
    ∷ unsubscribe_call 1 0
    ∷ publish_call 1 13
    ∷ receive_call 0
    ∷ receive_call 0
    ∷ receive_call 2
    ∷ receive_call 1
    ∷ close_call
    ∷ receive_call 2
    ∷ []

calls-Known : Known 0 calls
unfolding Known
calls-Known =
    (omega arith, (omega arith, (omega arith, (omega arith, (omega arith, (omega arith, tt))))))

run-mailboxes_example :
    (eb : EventBus ℕ) × (run calls (new 2) ≡ some (eb, (run_mailboxes 2 calls []).1))
    × (eb.channels ≡ channels_of (run_mailboxes 2 calls []).0)
run-mailboxes_example = run-mailboxes 2 calls calls-Known

-- the event 12 is dropped for the first subscriber, and 13 for the last
answers_of_run :
    (run calls (new 2) >>= λ r. some (r.1))
    ≡ some (
        made 0
        ∷ made 1
        ∷ done
        ∷ made 2
        ∷ done
        ∷ done
        ∷ received (some 10)
        ∷ done
        ∷ done
        ∷ received (some 11)
        ∷ received none
        ∷ received (some 11)
        ∷ received none
        ∷ done
        ∷ received (some 12)
        ∷ [])
unfolding run act lookup put take_out subscribe send publish unsubscribe close close_all
    close_channel at_channel each receive take_from
answers_of_run = refl
