-- ===== src/PubSub/Invariant.antt =====
-- Every call on the event bus of src/05_patterns/06_pub_sub keeps it the bus of some mailboxes.
use grin_with_golang.PubSub.{
  Channel, EventBus, lookup, put, take_out, subscribe, send, publish, unsubscribe, close, close_all,
  close_channel, at_channel, each, ℕ, List,
}
use grin_with_golang.PubSub.Entries.{DistinctKeys, lookup-put, put-DistinctKeys, lookup-has_key}
use grin_with_golang.PubSub.Mailboxes.{
  Mailbox, is_open, change, channels_of, open_ids, alter, open_ids-map, open_ids-alter,
  open_ids-append, each-open, length-channels_of, channels_of-append,
}
use grin_with_golang.PubSub.Closing.{
  shut, is_at, take_out-open_ids, at_channel-alter, alter-off, shut_all, close_channel-shut,
  change-is_open, close_all-shut_keys, shut_keys-shut_all,
}
use grin_with_golang.Prelude.{
  Bool, List, [], ap, append-nil, ap₂, arith, false, inl, inr, map, none, not, refl, some, subst,
  suc, sym, true, ℕ, ◌+◌, ◌≡◌, ◌∙◌, ◌&&◌, ◌∷◌, ◌++◌, ◌==◌, if◌then◌else◌, ltb, length, Bool-cases,
}
use grin_with_golang.PubSub.Calls.{post}

and_false : (x : Bool) → (x && false) ≡ false
and_false true = refl
and_false false = refl

module _ {T : Type 0} where
  -- the bus holds these mailboxes
  pub record IsBusOf (size : ℕ) (bs : List (Mailbox T)) (eb : EventBus T) : Type 0 where
    pub chans : eb.channels ≡ channels_of bs
    pub sized : eb.buffer_size ≡ size
    pub keys : DistinctKeys eb.subscribers
    pub subs : (topic : ℕ) → lookup topic eb.subscribers ≡ open_ids topic 0 bs

  subscribe-lookup :
      (size topic n : ℕ) (bs : List (Mailbox T)) (eb : EventBus T)
      → IsBusOf size bs eb
      → lookup n (put topic (lookup topic eb.subscribers ++ length eb.channels ∷ []) eb.subscribers)
        ≡ open_ids n 0 (bs ++ (topic, record { buffer = []; closed = false }) ∷ [])
  subscribe-lookup size topic n bs eb h =
      let es = eb.subscribers in
      let ids = lookup topic es ++ length eb.channels ∷ [] in
      let after = lookup-put n topic ids es in
      let mine : List ℕ = open_ids n 0 bs in
      let grown = open_ids-append n 0 bs (topic, record { buffer = []; closed = false }) in
      let number : length eb.channels ≡ 0 + length bs =
        ap length h.chans ∙ length-channels_of bs ∙ omega arith in
      elim (Bool-cases (topic == n)) [
        | inl same ↦
            let p : topic ≡ n = ground arith in
            after
            ∙ ap (λ t. if t then ids else lookup n es) same
            ∙ ap₂ (λ l i. l ++ i ∷ []) (ap (λ t. lookup t es) p ∙ h.subs n) number
            ∙ sym (grown ∙ ap (λ t. mine ++ (if t && true then (0 + length bs) ∷ [] else [])) same)
        | inr other ↦
            after
            ∙ ap (λ t. if t then ids else lookup n es) other
            ∙ h.subs n
            ∙ sym (
                grown
                ∙ ap (λ t. mine ++ (if t && true then (0 + length bs) ∷ [] else [])) other
                ∙ append-nil mine)
      ]

  pub subscribe-IsBusOf :
      (size topic : ℕ) (bs : List (Mailbox T)) (eb : EventBus T)
      → IsBusOf size bs eb
      → IsBusOf size
          (bs ++ (topic, record { buffer = []; closed = false }) ∷ [])
          (subscribe topic eb).0
  unfolding subscribe
  subscribe-IsBusOf size topic bs eb h = record {
    chans =
        ap (λ cs. cs ++ record { buffer = []; closed = false } ∷ []) h.chans
        ∙ sym (channels_of-append bs (topic, record { buffer = []; closed = false }));
    sized = h.sized;
    keys =
        put-DistinctKeys topic (lookup topic eb.subscribers ++ length eb.channels ∷ [])
          eb.subscribers h.keys;
    subs = λ n. subscribe-lookup size topic n bs eb h;
  }

  send-post :
      (size : ℕ) (event : T) (c : Channel T)
      → c.closed ≡ false
      → send size event c ≡ some (post size event c)
  unfolding send post
  send-post size event c up = elim (Bool-cases (ltb (length c.buffer) size)) [
    | inl fits ↦ rw (up, fits) refl
    | inr full ↦ rw (up, full) refl
  ]

  post-closed : (size : ℕ) (event : T) (c : Channel T) → (post size event c).closed ≡ c.closed
  unfolding post
  post-closed size event c = elim (Bool-cases (ltb (length c.buffer) size)) [
    | inl fits ↦ rw fits refl
    | inr full ↦ rw full refl
  ]

  change-closed :
      (n topic : ℕ) (g : Channel T → Channel T) (b : Mailbox T)
      → ((c : Channel T) → (g c).closed ≡ c.closed)
      → is_open n (change topic g b) ≡ is_open n b
  unfolding change
  change-closed n topic g b keeps = elim (Bool-cases (is_open topic b)) [
    | inl on ↦
        ap (λ t. is_open n (if t then (b.0, g b.1) else b)) on
        ∙ ap (λ t. b.0 == n && not t) (keeps b.1)
    | inr off ↦ ap (λ t. is_open n (if t then (b.0, g b.1) else b)) off
  ]

  pub publish-IsBusOf :
      (size topic : ℕ) (event : T) (bs : List (Mailbox T)) (eb : EventBus T)
      → IsBusOf size bs eb
      → (eb1 : EventBus T) × (publish topic event eb ≡ some eb1)
        × IsBusOf size (map (change topic (post size event)) bs) eb1
  unfolding publish
  publish-IsBusOf size topic event bs eb h =
      let bs1 = map (change topic (post size event)) bs in
      let sent : each (send eb.buffer_size event) (lookup topic eb.subscribers) eb.channels
          ≡ some (channels_of bs1) =
        ap (λ z. each (send z event) (lookup topic eb.subscribers) eb.channels) h.sized
        ∙ ap (λ l. each (send size event) l eb.channels) (h.subs topic)
        ∙ ap (λ cs. each (send size event) (open_ids topic 0 bs) cs) h.chans
        ∙ each-open topic (send size event) (post size event) (send-post size event) bs in
      (
        record eb { channels = channels_of bs1 },
        rw sent refl,
        record {
          chans = refl;
          sized = h.sized;
          keys = h.keys;
          subs = λ n.
              h.subs n
              ∙ sym (
                  open_ids-map n 0 (change topic (post size event)) bs
                    (λ b. change-closed n topic (post size event) b (post-closed size event)));
        },
      )

  unsubscribed_ids :
      (topic n ch : ℕ) (bs : List (Mailbox T)) (old : List ℕ)
      → old ≡ open_ids n 0 bs
      → (if topic == n then open_ids topic 0 (alter ch (change topic shut) bs) else old)
        ≡ open_ids n 0 (alter ch (change topic shut) bs)
  unsubscribed_ids topic n ch bs old h = elim (Bool-cases (topic == n)) [
    | inl same ↦
        let p : topic ≡ n = ground arith in
        rw same (ap (λ t. open_ids t 0 (alter ch (change topic shut) bs)) p)
    | inr other ↦ rw other (
        h
        ∙ sym (
            open_ids-alter n 0 ch (change topic shut) bs
              (λ b. change-is_open n topic shut b other)))
  ]

  pub unsubscribe-IsBusOf :
      (size topic ch : ℕ) (bs : List (Mailbox T)) (eb : EventBus T)
      → IsBusOf size bs eb
      → (eb1 : EventBus T) × (unsubscribe topic ch eb ≡ some eb1)
        × IsBusOf size (alter ch (change topic shut) bs) eb1
  unfolding unsubscribe
  unsubscribe-IsBusOf size topic ch bs eb h =
      let bs1 = alter ch (change topic shut) bs in
      let whole : 0 + ch ≡ ch = omega arith in
      let taken =
        ap (λ i. take_out i (lookup topic eb.subscribers)) (sym whole)
        ∙ ap (take_out (0 + ch)) (h.subs topic)
        ∙ take_out-open_ids topic 0 ch bs in
      elim (Bool-cases (is_at topic ch bs)) [
        | inl there ↦
            let found : take_out ch (lookup topic eb.subscribers) ≡ some (open_ids topic 0 bs1) =
              taken ∙ ap (λ t. if t then some (open_ids topic 0 bs1) else none) there in
            let closes : at_channel close_channel ch eb.channels ≡ some (channels_of bs1) =
              ap (at_channel close_channel ch) h.chans
              ∙ at_channel-alter topic ch close_channel shut close_channel-shut bs there in
            (
              record eb {
                channels = channels_of bs1;
                subscribers = put topic (open_ids topic 0 bs1) eb.subscribers;
              },
              rw (unsubscribe, found, closes) refl,
              record {
                chans = refl;
                sized = h.sized;
                keys = put-DistinctKeys topic (open_ids topic 0 bs1) eb.subscribers h.keys;
                subs = λ n.
                    lookup-put n topic (open_ids topic 0 bs1) eb.subscribers
                    ∙ unsubscribed_ids topic n ch bs (lookup n eb.subscribers) (h.subs n);
              },
            )
        | inr gone ↦
            let not_found : take_out ch (lookup topic eb.subscribers) ≡ none =
              taken ∙ ap (λ t. if t then some (open_ids topic 0 bs1) else none) gone in
            (
              eb,
              rw (unsubscribe, not_found) refl,
              subst (λ l. IsBusOf size l eb) (sym (alter-off topic ch shut bs gone)) h,
            )
      ]

  shut_all-is_open : (n : ℕ) (b : Mailbox T) → is_open n (shut_all b) ≡ false
  unfolding shut_all
  shut_all-is_open n b = elim (Bool-cases b.1.closed) [
    | inl down ↦
        ap (λ t. is_open n (if t then b else (b.0, shut b.1))) down
        ∙ ap (λ t. b.0 == n && not t) down
        ∙ and_false (b.0 == n)
    | inr up ↦ ap (λ t. is_open n (if t then b else (b.0, shut b.1))) up ∙ and_false (b.0 == n)
  ]

  shut_all-open_ids : (n o : ℕ) (bs : List (Mailbox T)) → open_ids n o (map shut_all bs) ≡ []
  unfolding open_ids shut_all
  shut_all-open_ids n o [] = refl
  shut_all-open_ids n o (b ∷ bs) =
      let off : is_open n (shut_all b) ≡ false = shut_all-is_open n b in
      ap
        (λ t.
          if t
          then o ∷ open_ids n (suc o) (map shut_all bs)
          else open_ids n (suc o) (map shut_all bs))
        off
      ∙ shut_all-open_ids n (suc o) bs

  pub close-IsBusOf :
      (size : ℕ) (bs : List (Mailbox T)) (eb : EventBus T)
      → IsBusOf size bs eb
      → (eb1 : EventBus T) × (close eb ≡ some eb1) × IsBusOf size (map shut_all bs) eb1
  unfolding close DistinctKeys lookup
  close-IsBusOf size bs eb h =
      let es = eb.subscribers in
      let all = shut_keys-shut_all es 0 bs (λ t k. sym (h.subs t) ∙ lookup-has_key t es k) in
      let closes : close_all es eb.channels ≡ some (channels_of (map shut_all bs)) =
        ap (close_all es) h.chans
        ∙ close_all-shut_keys es bs h.keys (λ t k. h.subs t)
        ∙ ap (λ l. some (channels_of l)) all in
      (
        record eb { channels = channels_of (map shut_all bs); subscribers = [] },
        rw closes refl,
        record {
          chans = refl;
          sized = h.sized;
          keys = tt;
          subs = λ n. sym (shut_all-open_ids n 0 bs);
        },
      )
