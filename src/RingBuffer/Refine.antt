-- ===== src/RingBuffer/Refine.antt =====
-- A ring of src/09_dsa/03_ring_buffer against the queue of the items that it holds.
use native.Mathlib.Nat.{mod-add-mod, mod-eq_of_lt, mod-eq-sub-mod, mod-lt, add-zero}
use grin_with_golang.RingBuffer.Queue
use grin_with_golang.Prelude.{
  List, ℕ, ◌<◌, [], length, suc, ◌≡◌, ◌%◌, get_or, ap, ap₂, ◌++◌, set, ◌+◌, ◌≢◌, ◌∷◌, arith, dec_lt,
  ◌∙◌, ◌-◌, Bool, false, inl, inr, refl, some, subst, sym, true, zero, ◌^◌, ◌==◌, ltb, leb,
  Bool-cases, length-set, get_or-set, get_elem?-get_or,
}
use grin_with_golang.RingBuffer.{RingBuffer, len, slot, word, push, add64, pop}
use grin_with_golang.RingBuffer.Invariant.{IsValid, slot-mod, slot_in_bounds, mod-add64}
use grin_with_golang.Bits.Mask.{pow_pos, pow_lt}

-- Fewer than `c` steps round the ring do not come back to the start.
mod-ne : (a e c : ℕ) → 0 < e → e < c → (a + e) % c ≢ a % c
mod-ne a e c p q =
    let r = a % c in
    let below : r < c = mod-lt a (omega arith) in
    elim (dec_lt (r + e) c) [
      | yes s ↦ omega (arith, mod-add-mod a c e, mod-eq_of_lt s)
      | no s ↦ omega (
        arith,
        mod-add-mod a c e,
        mod-eq-sub-mod {n = r + e} {m = c} (omega arith),
        mod-eq_of_lt {n = r + e - c} {m = c} (omega arith),
      )
    ]

mod-apart : (c h d n : ℕ) → d < n → n < c → (h + d) % c ≢ (h + n) % c
mod-apart c h d n p q w =
    let e : h + d + (n - d) ≡ h + n = omega arith in
    mod-ne (h + d) (n - d) c (omega arith) (omega arith) (rw e (sym w))

module _ {ℓ} {A : Type ℓ} (z : A) where
  -- the `n` items from counter `h` on, in slots modulo `c`
  abbrev pub window : List A → ℕ → ℕ → ℕ → List A
  window buf c h zero = []
  window buf c h (suc n) = get_or buf (h % c) z ∷ window buf c (suc h) n

  abbrev pub contents : RingBuffer A → List A
  contents rb = window rb.buffer rb.capacity rb.head (len rb)

  pub length-window : (buf : List A) (c h n : ℕ) → length (window buf c h n) ≡ n
  length-window buf c h zero = refl
  length-window buf c h (suc n) = ap suc (length-window buf c (suc h) n)

  -- only the slot of the first counter matters
  window_slot :
      (buf : List A) (c h h' n : ℕ) → h % c ≡ h' % c → window buf c h n ≡ window buf c h' n
  window_slot buf c h h' zero e = refl
  window_slot buf c h h' (suc n) e =
      ap₂ ◌∷◌ (ap (λ i. get_or buf i z) e) (
        window_slot buf c (suc h) (suc h') n (grind (arith, mod-add-mod h c 1, mod-add-mod h' c 1)))

  -- a write to a slot outside the window
  window-set :
      (buf : List A) (c h n i : ℕ) (x : A)
      → i < length buf
      → ((d : ℕ) → d < n → (h + d) % c ≢ i)
      → window (set buf i x) c h n ≡ window buf c h n
  window-set buf c h zero i x p far = refl
  window-set buf c h (suc n) i x p far =
      ap₂ ◌∷◌ here
        (window-set buf c (suc h) n i x p (λ d q e. far (suc d) (omega arith) (shift d ∙ e)))
    where
      here : get_or (set buf i x) (h % c) z ≡ get_or buf (h % c) z
      here =
          let first : h % c ≢ i = λ e. far 0 (omega arith) (rw add-zero e) in
          ground (arith, get_or-set buf i (h % c) x z p)

      shift : (d : ℕ) → (h + suc d) % c ≡ (suc h + d) % c
      shift d = ap (λ t. t % c) (omega arith)

  window-last :
      (buf : List A) (c h n : ℕ)
      → window buf c h (suc n) ≡ window buf c h n ++ get_or buf ((h + n) % c) z ∷ []
  window-last buf c h zero = rw add-zero
  window-last buf c h (suc n) =
      let e : suc h + n ≡ h + suc n = omega arith in
      ap (◌∷◌ (get_or buf (h % c) z)) (window-last buf c (suc h) n ∙ rw e)

  module _ {k : ℕ} {rb : RingBuffer A} (v : IsValid k rb) where
    open rb use {buffer, capacity, head, tail}

    -- the producer's slot is the one just past the contents
    tail_slot : slot rb tail ≡ (head + len rb) % capacity
    tail_slot =
        let e : tail ≡ add64 head (len rb) = omega (arith, v.head_word, v.tail_word) in
        slot-mod v tail
        ∙ ap (λ t. t % 2 ^ k) e
        ∙ mod-add64 k head (len rb) v.small
        ∙ rw (← v.power) refl

    capacity_word : (0 < capacity) × (capacity < word)
    capacity_word = omega (arith, v.power, pow_pos k, pow_lt 64 k v.small)

    -- `Push` in two steps: the slot is written, then the tail is published
    abbrev pub filled : A → RingBuffer A
    filled x = record rb { buffer = set buffer (slot rb tail) x }

    abbrev pub published : RingBuffer A
    published = record rb { tail = add64 tail 1 }

    pub filled-IsValid : (x : A) → IsValid k (filled x)
    filled-IsValid x = record {
      power = v.power;
      small = v.small;
      storage = length-set buffer (slot rb tail) x ∙ v.storage;
      head_word = v.head_word;
      tail_word = v.tail_word;
      fits = v.fits;
    }

    pub len-published : len rb < capacity → len published ≡ suc (len rb)
    len-published h = omega (arith, v.head_word, v.tail_word, capacity_word)

    pub published-IsValid : len rb < capacity → IsValid k published
    published-IsValid h = record {
      power = v.power;
      small = v.small;
      storage = v.storage;
      head_word = v.head_word;
      tail_word = omega arith;
      fits = omega (arith, len-published h);
    }

    -- the write is not seen until the tail is published
    pub contents-filled : (x : A) → len rb < capacity → contents (filled x) ≡ contents rb
    contents-filled x h = rw tail_slot (
        window-set buffer capacity head (len rb) ((head + len rb) % capacity) x
          (rw (v.storage) (mod-lt (head + len rb) (omega arith)))
          (λ d q. mod-apart capacity head d (len rb) q h))

    pub contents-published :
        len rb < capacity → contents published ≡ contents rb ++ get_or buffer (slot rb tail) z ∷ []
    contents-published h =
        ap (window buffer capacity head) (len-published h)
        ∙ window-last buffer capacity head (len rb)
        ∙ ap (λ i. contents rb ++ get_or buffer i z ∷ []) (sym tail_slot)

    pub filled_slot : (x : A) → get_or (set buffer (slot rb tail) x) (slot rb tail) z ≡ x
    filled_slot x =
        let same : (slot rb tail == slot rb tail) ≡ true = ground arith in
        get_or-set buffer (slot rb tail) (slot rb tail) x z (slot_in_bounds v tail) ∙ rw same refl

    abbrev pub popped : RingBuffer A
    popped = record rb { head = add64 head 1 }

    pub len-popped : head ≢ tail → len rb ≡ suc (len popped)
    len-popped h = omega (arith, v.head_word, v.tail_word)

    pub popped-IsValid : head ≢ tail → IsValid k popped
    popped-IsValid h = record {
      power = v.power;
      small = v.small;
      storage = v.storage;
      head_word = omega arith;
      tail_word = v.tail_word;
      fits = omega (arith, len-popped h, v.fits);
    }

    pub contents-popped :
        head ≢ tail → contents rb ≡ get_or buffer (slot rb head) z ∷ contents popped
    contents-popped h =
        ap (window buffer capacity head) (len-popped h)
        ∙ ap₂ ◌∷◌ (ap (λ i. get_or buffer i z) first)
            (window_slot buffer capacity (suc head) (add64 head 1) (len popped) next)
      where
        first : head % capacity ≡ slot rb head
        first = ap (λ c. head % c) v.power ∙ sym (slot-mod v head)

        next : suc head % capacity ≡ add64 head 1 % capacity
        next = rw (v.power, mod-add64 k head 1 v.small) (ap (λ t. t % 2 ^ k) (omega arith))

  module _ {k : ℕ} {rb : RingBuffer A} (v : IsValid k rb) where
    open rb use {buffer, capacity, head, tail}

    -- `Push` never panics, answers as the bounded queue does, and keeps the ring valid.
    pub push_refines :
        (x : A)
        → (rb' : RingBuffer A) × (ok : Bool) × (push rb x ≡ some (rb', ok))
          × IsValid k rb'
          × (Queue.push capacity (contents rb) x ≡ (contents rb', ok))
    unfolding push Queue.push
    push_refines x = elim (Bool-cases (leb capacity (len rb))) [
      | inl full ↦
          let refuse : ltb (length (contents rb)) capacity ≡ false = ground (arith, size) in
          (rb, false, rw full, v, rw refuse)
      | inr room ↦
          let h : len rb < capacity = ground arith in
          let accept : ltb (length (contents rb)) capacity ≡ true = ground (arith, size) in
          let inside : ltb (slot rb tail) (length buffer) ≡ true =
            ground (arith, slot_in_bounds v tail) in
          (
            record rb { buffer = set buffer (slot rb tail) x; tail = add64 tail 1 },
            true,
            rw (room, inside),
            after x h,
            rw (accept, appended x h),
          )
    ]
      where
        size : length (contents rb) ≡ len rb
        size = length-window buffer capacity head (len rb)

        after :
            (x : A)
            → len rb < capacity
            → IsValid k (record rb { buffer = set buffer (slot rb tail) x; tail = add64 tail 1 })
        after x h = published-IsValid (filled-IsValid v x) h

        appended :
            (x : A)
            → len rb < capacity
            → contents (record rb { buffer = set buffer (slot rb tail) x; tail = add64 tail 1 })
              ≡ contents rb ++ x ∷ []
        appended x h =
            contents-published (filled-IsValid v x) h
            ∙ ap₂ (λ q y. q ++ y ∷ []) (contents-filled v x h) (filled_slot v x)

    -- `Pop` never panics, answers as the bounded queue does, and keeps the ring valid.
    pub pop_refines :
        (x : A) × (ok : Bool) × (rb' : RingBuffer A) × (pop z rb ≡ some (x, ok, rb'))
        × IsValid k rb'
        × (Queue.pop z (contents rb) ≡ (x, ok, contents rb'))
    unfolding pop Queue.pop
    pop_refines = elim (Bool-cases (head == tail)) [
      | inl empty ↦
          let e : 0 ≡ len rb = ground (arith, v.head_word) in
          (
            z,
            false,
            rb,
            rw empty,
            v,
            subst
                (λ n.
                  Queue.pop z (window buffer capacity head n)
                  ≡ (z, false, window buffer capacity head n))
                e refl,
          )
      | inr more ↦
          let h : head ≢ tail = ground arith in
          (
            get_or buffer (slot rb head) z,
            true,
            popped v,
            rw (more, get_elem?-get_or buffer (slot rb head) z (slot_in_bounds v head)),
            popped-IsValid v h,
            rw (contents-popped v h),
          )
    ]
