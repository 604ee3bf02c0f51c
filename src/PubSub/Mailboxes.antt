-- ===== src/PubSub/Mailboxes.antt =====
-- The mailboxes of the subscribers, the reference for the event bus of src/05_patterns/06_pub_sub: every
-- channel with its topic, and no map.
use grin_with_golang.PubSub.{Channel, at_channel, each, ℕ, List}
use grin_with_golang.Prelude.{
  Bool, List, Option, [], ap, append_assoc, ap₂, arith, false, inl, inr, map, not, refl, some, suc,
  sym, zero, ℕ, ◌+◌, ◌≡◌, ◌∙◌, ◌&&◌, ◌∷◌, ◌++◌, ◌==◌, if◌then◌else◌, length, get_elem?, set,
  Bool-cases, length-append,
}

abbrev pub Mailbox : Type 0 → Type 0
Mailbox T = ℕ × Channel T

module _ {T : Type 0} where
  abbrev pub is_open : ℕ → Mailbox T → Bool
  is_open topic b = b.0 == topic && not b.1.closed

  -- a change of the open mailboxes of a topic
  unfoldable pub change : ℕ → (Channel T → Channel T) → Mailbox T → Mailbox T
  change topic g b = if is_open topic b then (b.0, g b.1) else b

  unfoldable pub channels_of : List (Mailbox T) → List (Channel T)
  channels_of [] = []
  channels_of (b ∷ bs) = b.1 ∷ channels_of bs

  -- the numbers of the open mailboxes of a topic, counted from `o`
  unfoldable pub open_ids : ℕ → ℕ → List (Mailbox T) → List ℕ
  open_ids topic o [] = []
  open_ids topic o (b ∷ bs) =
      let rest = open_ids topic (suc o) bs in if is_open topic b then o ∷ rest else rest

  unfoldable pub alter : ℕ → (Mailbox T → Mailbox T) → List (Mailbox T) → List (Mailbox T)
  alter ch g [] = []
  alter zero g (b ∷ bs) = g b ∷ bs
  alter (suc ch) g (b ∷ bs) = b ∷ alter ch g bs

  pub length-channels_of : (bs : List (Mailbox T)) → length (channels_of bs) ≡ length bs
  unfolding channels_of
  length-channels_of [] = refl
  length-channels_of (b ∷ bs) = ap suc (length-channels_of bs)

  pub channels_of-append :
      (bs : List (Mailbox T)) (b : Mailbox T)
      → channels_of (bs ++ b ∷ []) ≡ channels_of bs ++ b.1 ∷ []
  unfolding channels_of
  channels_of-append [] b = refl
  channels_of-append (a ∷ bs) b = ap (λ cs. a.1 ∷ cs) (channels_of-append bs b)

  get_elem?-middle :
      (pre cs : List (Channel T)) (c : Channel T) → get_elem? (pre ++ c ∷ cs) (length pre) ≡ some c
  get_elem?-middle [] cs c = refl
  get_elem?-middle (a ∷ pre) cs c = get_elem?-middle pre cs c

  set-middle :
      (pre cs : List (Channel T)) (c d : Channel T)
      → set (pre ++ c ∷ cs) (length pre) d ≡ pre ++ d ∷ cs
  set-middle [] cs c d = refl
  set-middle (a ∷ pre) cs c d = ap (λ l. a ∷ l) (set-middle pre cs c d)

  -- An operation on the open channels of a topic, each by its number, is the change of its mailboxes.
  each-change :
      (topic : ℕ) (op : Channel T → Option (Channel T)) (g : Channel T → Channel T)
      → ((c : Channel T) → c.closed ≡ false → op c ≡ some (g c))
      → (pre : List (Channel T)) (bs : List (Mailbox T))
      → each op (open_ids topic (length pre) bs) (pre ++ channels_of bs)
        ≡ some (pre ++ channels_of (map (change topic g) bs))
  unfolding each open_ids channels_of change at_channel
  each-change topic op g does pre [] = refl
  each-change topic op g does pre (b ∷ bs) =
      let next : (c : Channel T)
          → each op (open_ids topic (suc (length pre)) bs) (pre ++ c ∷ channels_of bs)
            ≡ some (pre ++ c ∷ channels_of (map (change topic g) bs)) =
        λ c.
          let longer : length (pre ++ c ∷ []) ≡ suc (length pre) =
            length-append pre (c ∷ []) ∙ omega arith in
          let ih = each-change topic op g does (pre ++ c ∷ []) bs in
          ap₂ (λ n l. each op (open_ids topic n bs) l) (sym longer)
            (sym (append_assoc pre (c ∷ []) (channels_of bs)))
          ∙ ih
          ∙ ap some (append_assoc pre (c ∷ []) (channels_of (map (change topic g) bs))) in
      elim (Bool-cases (is_open topic b)) [
        | inl on ↦
            let up : b.1.closed ≡ false = ground arith in
            rw
              (
                on,
                each,
                at_channel,
                get_elem?-middle pre (channels_of bs) b.1,
                does b.1 up,
                set-middle pre (channels_of bs) b.1 (g b.1),
              )
              (next (g b.1))
        | inr off ↦ rw off (next b.1)
      ]

  -- changes that keep topics and closings keep the numbers
  pub open_ids-map :
      (topic o : ℕ) (g : Mailbox T → Mailbox T) (bs : List (Mailbox T))
      → ((b : Mailbox T) → is_open topic (g b) ≡ is_open topic b)
      → open_ids topic o (map g bs) ≡ open_ids topic o bs
  unfolding open_ids
  open_ids-map topic o g [] same = refl
  open_ids-map topic o g (b ∷ bs) same =
      ap₂ (λ t l. if t then o ∷ l else l) (same b) (open_ids-map topic (suc o) g bs same)

  pub open_ids-alter :
      (topic o ch : ℕ) (g : Mailbox T → Mailbox T) (bs : List (Mailbox T))
      → ((b : Mailbox T) → is_open topic (g b) ≡ is_open topic b)
      → open_ids topic o (alter ch g bs) ≡ open_ids topic o bs
  unfolding open_ids alter
  open_ids-alter topic o ch g [] same = refl
  open_ids-alter topic o zero g (b ∷ bs) same =
      ap (λ t. if t then o ∷ open_ids topic (suc o) bs else open_ids topic (suc o) bs) (same b)
  open_ids-alter topic o (suc ch) g (b ∷ bs) same =
      ap (λ l. if is_open topic b then o ∷ l else l) (open_ids-alter topic (suc o) ch g bs same)

  pub open_ids-append :
      (topic o : ℕ) (bs : List (Mailbox T)) (b : Mailbox T)
      → open_ids topic o (bs ++ b ∷ [])
        ≡ open_ids topic o bs ++ (if is_open topic b then (o + length bs) ∷ [] else [])
  unfolding open_ids
  open_ids-append topic o [] b =
      let at : o ≡ o + 0 = omega arith in ap (λ n. if is_open topic b then n ∷ [] else []) at
  open_ids-append topic o (a ∷ bs) b =
      let at : suc o + length bs ≡ o + suc (length bs) = omega arith in
      let ih =
        open_ids-append topic (suc o) bs b
        ∙ ap (λ n. open_ids topic (suc o) bs ++ (if is_open topic b then n ∷ [] else [])) at in
      elim (Bool-cases (is_open topic a)) [
        | inl on ↦ rw on (ap (λ l. o ∷ l) ih)
        | inr off ↦ rw off ih
      ]

  pub each-open :
      (topic : ℕ) (op : Channel T → Option (Channel T)) (g : Channel T → Channel T)
      → ((c : Channel T) → c.closed ≡ false → op c ≡ some (g c))
      → (bs : List (Mailbox T))
      → each op (open_ids topic 0 bs) (channels_of bs)
        ≡ some (channels_of (map (change topic g) bs))
  each-open topic op g does bs = each-change topic op g does [] bs
