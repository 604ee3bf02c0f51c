-- ===== src/PubSub/Closing.antt =====
-- Unsubscribe, Close and receives of src/05_patterns/06_pub_sub on the mailboxes.
use grin_with_golang.PubSub.{
  Channel, at_channel, each, take_out, close_channel, close_all, lookup, true, ℕ, Option, List,
  if◌then◌else◌, ◌≡◌,
}
use grin_with_golang.PubSub.Entries.{Subscribers, has_key, DistinctKeys}
use grin_with_golang.PubSub.Mailboxes.{
  Mailbox, is_open, change, channels_of, open_ids, alter, open_ids-map, each-open,
}
use mathlib.Core.Bool.{false≢true}
use mathlib.Core.List.{cons-ne-nil}
use grin_with_golang.Prelude.{
  if◌then◌else◌, ◌≡◌, Bool, List, Option, [], ap, ap₂, arith, false, inl, inr, map, none, not, refl,
  some, suc, sym, true, zero, ℕ, ◌+◌, ◌<◌, ◌∙◌, ◌&&◌, ◌∷◌, ◌==◌, ◌>>=◌, get_elem?, Bool-cases,
  Option-cases,
}

closed_off : (x closed : Bool) → closed ≡ true → (x && not closed) ≡ false
closed_off x closed h = ground arith

module _ {T : Type 0} where
  abbrev pub shut : Channel T → Channel T
  shut c = record c { closed = true }

  -- a mailbox with this number is open, for the topic
  abbrev pub is_at : ℕ → ℕ → List (Mailbox T) → Bool
  is_at topic ch [] = false
  is_at topic zero (b ∷ bs) = is_open topic b
  is_at topic (suc ch) (b ∷ bs) = is_at topic ch bs

  take_out-below :
      (topic i o : ℕ) (bs : List (Mailbox T)) → i < o → take_out i (open_ids topic o bs) ≡ none
  unfolding take_out open_ids
  take_out-below topic i o [] h = refl
  take_out-below topic i o (b ∷ bs) h =
      let rest = take_out-below topic i (suc o) bs (omega arith) in
      elim (Bool-cases (is_open topic b)) [
        | inl on ↦ let off : (o == i) ≡ false = ground arith in rw (on, take_out, off, rest) refl
        | inr not_on ↦ rw not_on rest
      ]

  pub take_out-open_ids :
      (topic o ch : ℕ) (bs : List (Mailbox T))
      → take_out (o + ch) (open_ids topic o bs) ≡ (
          if is_at topic ch bs
          then some (open_ids topic o (alter ch (change topic shut) bs))
          else none)
  unfolding take_out open_ids alter change
  take_out-open_ids topic o ch [] = refl
  take_out-open_ids topic o zero (b ∷ bs) =
      let here : o + 0 ≡ o = omega arith in
      ap (λ i. take_out i (open_ids topic o (b ∷ bs))) here ∙ elim (Bool-cases (is_open topic b)) [
        | inl on ↦
            let same : (o == o) ≡ true = ground arith in
            let closed_now : is_open topic (b.0, shut b.1) ≡ false = ground arith in
            rw (on, take_out, same, closed_now) refl
        | inr off ↦ rw off (take_out-below topic o (suc o) bs (omega arith))
      ]
  take_out-open_ids topic o (suc ch) (b ∷ bs) =
      let here : o + suc ch ≡ suc o + ch = omega arith in
      let ih = take_out-open_ids topic (suc o) ch bs in
      ap (λ i. take_out i (open_ids topic o (b ∷ bs))) here ∙ elim (Bool-cases (is_open topic b)) [
        | inl on ↦
            let apart : (o == suc o + ch) ≡ false = ground arith in
            elim (Bool-cases (is_at topic ch bs)) [
              | inl there ↦ rw (on, take_out, apart, ih, there) refl
              | inr gone ↦ rw (on, take_out, apart, ih, gone) refl
            ]
        | inr off ↦ elim (Bool-cases (is_at topic ch bs)) [
          | inl there ↦ rw (off, ih, there) refl
          | inr gone ↦ rw (off, ih, gone) refl
        ]
      ]

  at_channel-cons :
      (op : Channel T → Option (Channel T)) (ch : ℕ) (c : Channel T) (cs : List (Channel T))
      → at_channel op (suc ch) (c ∷ cs) ≡ (at_channel op ch cs >>= λ l. some (c ∷ l))
  unfolding at_channel
  at_channel-cons op ch c cs = elim (Option-cases (get_elem? cs ch)) [
    | inl gone ↦ rw (at_channel, gone) refl
    | inr (d, there) ↦ elim (Option-cases (op d)) [
      | inl fails ↦ rw (at_channel, there, fails) refl
      | inr (d1, does) ↦ rw (at_channel, there, does) refl
    ]
  ]

  pub at_channel-alter :
      (topic ch : ℕ) (op : Channel T → Option (Channel T)) (g : Channel T → Channel T)
      → ((c : Channel T) → c.closed ≡ false → op c ≡ some (g c))
      → (bs : List (Mailbox T)) → is_at topic ch bs ≡ true
      → at_channel op ch (channels_of bs) ≡ some (channels_of (alter ch (change topic g) bs))
  unfolding channels_of alter change at_channel
  at_channel-alter topic ch op g does [] h = absurd (false≢true h)
  at_channel-alter topic zero op g does (b ∷ bs) h =
      let up : b.1.closed ≡ false = ground arith in rw (at_channel, h, does b.1 up) refl
  at_channel-alter topic (suc ch) op g does (b ∷ bs) h =
      at_channel-cons op ch b.1 (channels_of bs)
      ∙ ap (λ o. o >>= λ l. some (b.1 ∷ l)) (at_channel-alter topic ch op g does bs h)

  pub alter-off :
      (topic ch : ℕ) (g : Channel T → Channel T) (bs : List (Mailbox T))
      → is_at topic ch bs ≡ false
      → alter ch (change topic g) bs ≡ bs
  unfolding alter change
  alter-off topic ch g [] h = refl
  alter-off topic zero g (b ∷ bs) h = rw h refl
  alter-off topic (suc ch) g (b ∷ bs) h = ap (λ l. b ∷ l) (alter-off topic ch g bs h)

  map_pointwise :
      (f g h : Mailbox T → Mailbox T) (bs : List (Mailbox T))
      → ((b : Mailbox T) → f (g b) ≡ h b)
      → map f (map g bs) ≡ map h bs
  map_pointwise f g h [] same = refl
  map_pointwise f g h (b ∷ bs) same = ap₂ (λ x l. x ∷ l) (same b) (map_pointwise f g h bs same)

  abbrev shutting : Mailbox T → Bool → Mailbox T
  shutting b t = if t then (b.0, shut b.1) else b

  -- the open mailboxes of the topics of the entries, closed
  abbrev pub shut_keys : Subscribers → Mailbox T → Mailbox T
  shut_keys es b = if has_key b.0 es && not b.1.closed then (b.0, shut b.1) else b

  unfoldable pub shut_all : Mailbox T → Mailbox T
  shut_all b = if b.1.closed then b else (b.0, shut b.1)

  pub close_channel-shut : (c : Channel T) → c.closed ≡ false → close_channel c ≡ some (shut c)
  unfolding close_channel
  close_channel-shut c up = rw up refl

  pub change-is_open :
      (n topic : ℕ) (g : Channel T → Channel T) (b : Mailbox T)
      → (topic == n) ≡ false
      → is_open n (change topic g b) ≡ is_open n b
  unfolding change
  change-is_open n topic g b apart = elim (Bool-cases (is_open topic b)) [
    | inl on ↦ let off : (b.0 == n) ≡ false = ground arith in rw (on, off) refl
    | inr off ↦ rw off refl
  ]

  others_agree :
      (e : ℕ × List ℕ) (es : Subscribers) (bs : List (Mailbox T))
      → has_key e.0 es ≡ false
      → ((t : ℕ) → has_key t (e ∷ es) ≡ true → lookup t (e ∷ es) ≡ open_ids t 0 bs)
      → (t : ℕ) → has_key t es ≡ true
      → lookup t es ≡ open_ids t 0 (map (change e.0 shut) bs)
  unfolding has_key lookup
  others_agree e es bs fresh agree t h = elim (Bool-cases (e.0 == t)) [
    | inl same ↦
        let p : e.0 ≡ t = ground arith in
        absurd (false≢true (sym fresh ∙ ap (λ i. has_key i es) p ∙ h))
    | inr apart ↦
        let a = agree t (rw apart h) in
        (rw apart at a)
        ∙ sym (open_ids-map t 0 (change e.0 shut) bs (λ b. change-is_open t e.0 shut b apart))
  ]

  shut_head :
      (e : ℕ × List ℕ) (es : Subscribers) (b : Mailbox T)
      → shut_keys es (change e.0 shut b) ≡ shut_keys (e ∷ es) b
  unfolding change has_key
  shut_head e es b = elim (Bool-cases b.1.closed) [
    | inl down ↦
        ap (shut_keys es) (ap (shutting b) (closed_off (b.0 == e.0) b.1.closed down))
        ∙ ap (shutting b) (closed_off (has_key b.0 es) b.1.closed down)
        ∙ sym (ap (shutting b) (closed_off (has_key b.0 (e ∷ es)) b.1.closed down))
    | inr up ↦ elim (Bool-cases (b.0 == e.0)) [
      | inl same ↦
          let on : (b.0 == e.0 && not b.1.closed) ≡ true = ground arith in
          let here : (e.0 == b.0) ≡ true = ground arith in
          let found : has_key b.0 (e ∷ es) ≡ true = rw here refl in
          let chosen : (has_key b.0 (e ∷ es) && not b.1.closed) ≡ true = ground arith in
          ap (shut_keys es) (ap (shutting b) on)
          ∙ ap (shutting (b.0, shut b.1)) (closed_off (has_key b.0 es) true refl)
          ∙ sym (ap (shutting b) chosen)
      | inr apart ↦ let off : (e.0 == b.0) ≡ false = ground arith in rw (apart, off) refl
    ]
  ]

  map_kept :
      (f : Mailbox T → Mailbox T) (bs : List (Mailbox T))
      → ((b : Mailbox T) → f b ≡ b)
      → map f bs ≡ bs
  map_kept f [] same = refl
  map_kept f (b ∷ bs) same = ap₂ (λ x l. x ∷ l) (same b) (map_kept f bs same)

  pub close_all-shut_keys :
      (es : Subscribers) (bs : List (Mailbox T))
      → DistinctKeys es
      → ((t : ℕ) → has_key t es ≡ true → lookup t es ≡ open_ids t 0 bs)
      → close_all es (channels_of bs) ≡ some (channels_of (map (shut_keys es) bs))
  unfolding close_all has_key DistinctKeys lookup change
  close_all-shut_keys [] bs d agree =
      ap (λ l. some (channels_of l)) (sym (map_kept (shut_keys []) bs (λ b. refl)))
  close_all-shut_keys (e ∷ es) bs (fresh, d) agree =
      let self : (e.0 == e.0) ≡ true = ground arith in
      let mine : e.1 ≡ open_ids e.0 0 bs = let a = agree e.0 (rw self refl) in rw self at a in
      let bs1 = map (change e.0 shut) bs in
      let first : each close_channel e.1 (channels_of bs) ≡ some (channels_of bs1) =
        ap (λ ids. each close_channel ids (channels_of bs)) mine
        ∙ each-open e.0 close_channel shut close_channel-shut bs in
      rw first (close_all-shut_keys es bs1 d (λ t h. others_agree e es bs fresh agree t h))
      ∙ ap (λ l. some (channels_of l))
          (map_pointwise (shut_keys es) (change e.0 shut) (shut_keys (e ∷ es)) bs (shut_head e es))

  pub shut_keys-shut_all :
      (es : Subscribers) (o : ℕ) (bs : List (Mailbox T))
      → ((t : ℕ) → has_key t es ≡ false → open_ids t o bs ≡ [])
      → map (shut_keys es) bs ≡ map shut_all bs
  unfolding open_ids shut_all
  shut_keys-shut_all es o [] none_open = refl
  shut_keys-shut_all es o (b ∷ bs) none_open =
      ap₂ (λ x l. x ∷ l)
        (elim (Bool-cases b.1.closed) [
          | inl down ↦
              ap (shutting b) (closed_off (has_key b.0 es) b.1.closed down)
              ∙ sym (ap (λ t. if t then b else (b.0, shut b.1)) down)
          | inr up ↦ elim (Bool-cases (has_key b.0 es)) [
            | inl there ↦ rw (there, up) refl
            | inr gone ↦
                let self : is_open b.0 b ≡ true = ground arith in
                let empty = none_open b.0 gone in
                absurd (cons-ne-nil o (open_ids b.0 (suc o) bs) (rw self at empty))
          ]
        ])
        (shut_keys-shut_all es (suc o) bs (λ t h. elim (Bool-cases (is_open t b)) [
          | inl on ↦
              let empty = none_open t h in
              absurd (cons-ne-nil o (open_ids t (suc o) bs) (rw on at empty))
          | inr off ↦ let empty = none_open t h in rw off at empty
        ]))
