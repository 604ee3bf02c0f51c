-- ===== src/PubSub/Session.antt =====
-- Sequences of calls on the event bus of src/05_patterns/06_pub_sub, against the mailboxes.
use grin_with_golang.PubSub.{EventBus, new, lookup, subscribe, ℕ, List}
use grin_with_golang.PubSub.Entries.{DistinctKeys}
use grin_with_golang.PubSub.Mailboxes.{
  Mailbox, change, channels_of, open_ids, alter, length-channels_of,
}
use grin_with_golang.PubSub.Closing.{shut, shut_all}
use grin_with_golang.Prelude.{
  List, [], ap, arith, false, map, refl, some, subst, suc, sym, zero, ℕ, ◌≡◌, ◌∙◌, ◌∷◌, ◌++◌, ◌>>=◌,
  length, length-append,
}
use grin_with_golang.PubSub.Calls.{
  Call, act, run, post, mailboxes_after, run_mailboxes, Known, subscribe_call, publish_call,
  unsubscribe_call, receive_call, close_call, made, received, done,
}
use grin_with_golang.PubSub.Invariant.{
  IsBusOf, subscribe-IsBusOf, publish-IsBusOf, unsubscribe-IsBusOf, close-IsBusOf,
}
use grin_with_golang.PubSub.Receiving.{left, receive-IsBusOf}

module _ {T : Type 0} where
  length-map : (f : Mailbox T → Mailbox T) (bs : List (Mailbox T)) → length (map f bs) ≡ length bs
  length-map f [] = refl
  length-map f (b ∷ bs) = ap suc (length-map f bs)

  length-alter :
      (ch : ℕ) (f : Mailbox T → Mailbox T) (bs : List (Mailbox T))
      → length (alter ch f bs) ≡ length bs
  unfolding alter
  length-alter ch f [] = refl
  length-alter zero f (b ∷ bs) = refl
  length-alter (suc ch) f (b ∷ bs) = ap suc (length-alter ch f bs)

  same-Known : (m n : ℕ) (calls : List (Call T)) → m ≡ n → Known n calls → Known m calls
  same-Known m n calls e known = subst (λ i. Known i calls) (sym e) known

  act-IsBusOf :
      (size : ℕ) (call : Call T) (calls : List (Call T)) (bs : List (Mailbox T)) (eb : EventBus T)
      → IsBusOf size bs eb
      → Known (length bs) (call ∷ calls)
      → (eb1 : EventBus T) × (act call eb ≡ some (eb1, (mailboxes_after size call bs).1))
        × IsBusOf size (mailboxes_after size call bs).0 eb1
        × Known (length (mailboxes_after size call bs).0) calls
  unfolding act mailboxes_after Known subscribe
  act-IsBusOf size (subscribe_call topic) calls bs eb h known =
      let fresh : Mailbox T = (topic, record { buffer = []; closed = false }) in
      let number : length eb.channels ≡ length bs = ap length h.chans ∙ length-channels_of bs in
      let longer : length (bs ++ fresh ∷ []) ≡ suc (length bs) =
        length-append bs (fresh ∷ []) ∙ omega arith in
      (
        (subscribe topic eb).0,
        ap (λ i. some ((subscribe topic eb).0, made i)) number,
        subscribe-IsBusOf size topic bs eb h,
        same-Known (length (bs ++ fresh ∷ [])) (suc (length bs)) calls longer known,
      )
  act-IsBusOf size (publish_call topic event) calls bs eb h known =
      let (eb1, ran, h1) = publish-IsBusOf size topic event bs eb h in
      let bs1 = map (change topic (post size event)) bs in
      (
        eb1,
        ap (λ o. o >>= λ e. some (e, done)) ran,
        h1,
        same-Known (length bs1) (length bs) calls (length-map (change topic (post size event)) bs)
            known,
      )
  act-IsBusOf size (unsubscribe_call topic ch) calls bs eb h known =
      let (eb1, ran, h1) = unsubscribe-IsBusOf size topic ch bs eb h in
      let bs1 = alter ch (change topic shut) bs in
      (
        eb1,
        ap (λ o. o >>= λ e. some (e, done)) ran,
        h1,
        same-Known (length bs1) (length bs) calls (length-alter ch (change topic shut) bs) known,
      )
  act-IsBusOf size (receive_call ch) calls bs eb h (inside, known) =
      let (eb1, ran, h1) = receive-IsBusOf size ch bs eb h inside in
      (
        eb1,
        ap (λ o. o >>= λ r. some (r.0, received r.1)) ran,
        h1,
        same-Known (length (alter ch left bs)) (length bs) calls (length-alter ch left bs) known,
      )
  act-IsBusOf size close_call calls bs eb h known =
      let (eb1, ran, h1) = close-IsBusOf size bs eb h in
      (
        eb1,
        ap (λ o. o >>= λ e. some (e, done)) ran,
        h1,
        same-Known (length (map shut_all bs)) (length bs) calls (length-map shut_all bs) known,
      )

  run-IsBusOf :
      (size : ℕ) (calls : List (Call T)) (bs : List (Mailbox T)) (eb : EventBus T)
      → IsBusOf size bs eb
      → Known (length bs) calls
      → (eb1 : EventBus T) × (run calls eb ≡ some (eb1, (run_mailboxes size calls bs).1))
        × IsBusOf size (run_mailboxes size calls bs).0 eb1
  unfolding run run_mailboxes
  run-IsBusOf size [] bs eb h known = (eb, refl, h)
  run-IsBusOf size (call ∷ calls) bs eb h known =
      let (eb1, ran, h1, known1) = act-IsBusOf size call calls bs eb h known in
      let (eb2, rest, h2) = run-IsBusOf size calls (mailboxes_after size call bs).0 eb1 h1 known1 in
      (eb2, rw (run, ran, rest) refl, h2)

  new-IsBusOf : (size : ℕ) → IsBusOf {T = T} size [] (new size)
  unfolding channels_of DistinctKeys lookup open_ids
  new-IsBusOf size = record { chans = refl; sized = refl; keys = tt; subs = λ n. refl }

  -- No sequence of calls on a new event bus panics, where receives are from channels that Subscribe
  -- returned. Its answers and its channels are those of the mailboxes: a subscriber receives the events
  -- of its topic in the order in which they were published since it subscribed and until it
  -- unsubscribed or the bus was closed, without those that its full buffer dropped.
  pub run-mailboxes :
      (size : ℕ) (calls : List (Call T))
      → Known 0 calls
      → (eb : EventBus T) × (run calls (new size) ≡ some (eb, (run_mailboxes size calls []).1))
        × (eb.channels ≡ channels_of (run_mailboxes size calls []).0)
  run-mailboxes size calls known =
      let (eb, ran, h) = run-IsBusOf size calls [] (new size) (new-IsBusOf size) known in
      (eb, ran, h.chans)
