-- ===== src/PubSub/Receiving.antt =====
-- Receives from a channel of the event bus of src/05_patterns/06_pub_sub.
use grin_with_golang.PubSub.{Channel, EventBus, lookup, receive, ℕ, List, take_from}
use grin_with_golang.PubSub.Mailboxes.{
  Mailbox, is_open, channels_of, open_ids, alter, open_ids-alter,
}
use mathlib.Core.Option.{some-injective}
use grin_with_golang.Prelude.{
  List, [], ap, arith, inl, inr, none, refl, some, suc, sym, zero, ℕ, ◌<◌, ◌≡◌, ◌⊎◌, ◌∙◌, ◌∷◌,
  ◌>>=◌, length, get_elem?, set,
}
use grin_with_golang.PubSub.Calls.{oldest, without_oldest, oldest_of}
use grin_with_golang.PubSub.Invariant.{IsBusOf}

module _ {T : Type 0} where
  buffer_cases : (xs : List T) → (xs ≡ []) ⊎ ((x : T) × (rest : List T) × (xs ≡ x ∷ rest))
  buffer_cases [] = inl refl
  buffer_cases (x ∷ rest) = inr (x, rest, refl)

  set_same :
      (cs : List (Channel T)) (ch : ℕ) (c : Channel T) → get_elem? cs ch ≡ some c → set cs ch c ≡ cs
  set_same [] ch c h = refl
  set_same (d ∷ cs) zero c h = ap (λ e. e ∷ cs) (sym (some-injective d c h))
  set_same (d ∷ cs) (suc ch) c h = ap (λ l. d ∷ l) (set_same cs ch c h)

  abbrev pub left : Mailbox T → Mailbox T
  left b = (b.0, without_oldest b.1)

  mailbox_at :
      (ch : ℕ) (bs : List (Mailbox T))
      → ch < length bs
      → (c : Channel T) × (get_elem? (channels_of bs) ch ≡ some c)
        × (oldest_of ch bs ≡ oldest c)
        × (channels_of (alter ch left bs) ≡ set (channels_of bs) ch (without_oldest c))
  unfolding channels_of alter oldest_of
  mailbox_at ch [] inside = absurd (omega arith)
  mailbox_at zero (b ∷ bs) inside = (b.1, refl, refl, refl)
  mailbox_at (suc ch) (b ∷ bs) inside =
      let (c, there, first, changed) = mailbox_at ch bs (ground arith) in
      (c, there, first, ap (λ l. b.1 ∷ l) changed)

  left-is_open : (n : ℕ) (b : Mailbox T) → is_open n (left b) ≡ is_open n b
  unfolding without_oldest
  left-is_open n b = elim (buffer_cases b.1.buffer) [
    | inl empty ↦ rw empty refl
    | inr (x, rest, is) ↦ rw is refl
  ]

  take_from_empty :
      (ch : ℕ) (eb : EventBus T) (c : Channel T)
      → c.buffer ≡ []
      → (take_from ch eb c ≡ some (eb, none)) × (oldest c ≡ none) × (without_oldest c ≡ c)
  unfolding take_from oldest without_oldest
  take_from_empty ch eb c e = (rw e refl, rw e refl, rw e refl)

  take_from_full :
      (ch : ℕ) (eb : EventBus T) (c : Channel T) (x : T) (rest : List T)
      → c.buffer ≡ x ∷ rest
      → let d = record c { buffer = rest } in
        (take_from ch eb c ≡ some (record eb { channels = set eb.channels ch d }, some x))
        × (oldest c ≡ some x)
        × (without_oldest c ≡ d)
  unfolding take_from oldest without_oldest
  take_from_full ch eb c x rest e = (rw e refl, rw e refl, rw e refl)

  pub receive-IsBusOf :
      (size ch : ℕ) (bs : List (Mailbox T)) (eb : EventBus T)
      → IsBusOf size bs eb
      → ch < length bs
      → (eb1 : EventBus T) × (receive ch eb ≡ some (eb1, oldest_of ch bs))
        × IsBusOf size (alter ch (λ b. (b.0, without_oldest b.1)) bs) eb1
  unfolding receive
  receive-IsBusOf size ch bs eb h inside =
      let (c, there, first, changed) = mailbox_at ch bs inside in
      let got : receive ch eb ≡ take_from ch eb c =
        ap (λ cs. get_elem? cs ch >>= take_from ch eb) h.chans
        ∙ ap (λ o. o >>= take_from ch eb) there in
      let kept : (n : ℕ) → lookup n eb.subscribers ≡ open_ids n 0 (alter ch left bs) =
        λ n. h.subs n ∙ sym (open_ids-alter n 0 ch left bs (left-is_open n)) in
      elim (buffer_cases c.buffer) [
        | inl empty ↦
            let (waits, none_there, same) = take_from_empty ch eb c empty in
            (
              eb,
              got ∙ waits ∙ ap (λ o. some (eb, o)) (sym (first ∙ none_there)),
              record {
                chans =
                    h.chans
                    ∙ sym (
                        changed
                        ∙ ap (set (channels_of bs) ch) same
                        ∙ set_same (channels_of bs) ch c there);
                sized = h.sized;
                keys = h.keys;
                subs = kept;
              },
            )
        | inr (x, rest, is) ↦
            let d = record c { buffer = rest } in
            let eb1 = record eb { channels = set eb.channels ch d } in
            let (takes, event, fewer) = take_from_full ch eb c x rest is in
            (
              eb1,
              got ∙ takes ∙ ap (λ o. some (eb1, o)) (sym (first ∙ event)),
              record {
                chans =
                    ap (λ l. set l ch d) h.chans
                    ∙ sym (changed ∙ ap (set (channels_of bs) ch) fewer);
                sized = h.sized;
                keys = h.keys;
                subs = kept;
              },
            )
      ]
