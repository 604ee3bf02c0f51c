-- ===== src/DistributedLock/Fencing.antt =====
-- Fencing tokens of src/10_distributed/03_distributed_lock: the numbers that its grants get.
use grin_with_golang.DistributedLock.{
  granted, held_by, acquire, release, tick, ℕ, tokens, Op, DistributedLock, unlock, expire, lock,
  grant, is_live,
}
use grin_with_golang.Prelude.{
  List, [], ap, arith, inl, inr, refl, subst, suc, zero, ℕ, ◌+◌, ◌<◌, ◌≡◌, ◌⊎◌, ◌∷◌, length,
  Bool-cases, Option-cases,
}
use grin_with_golang.Words.{word}

-- `n` numbers from `t` on
abbrev pub count_up : ℕ → ℕ → List ℕ
count_up t zero = []
count_up t (suc n) = t ∷ count_up (suc t) n

moved :
    (l : List ℕ) {a b : ℕ}
    → a ≡ b
    → l ≡ count_up (suc a) (length l)
    → l ≡ count_up (suc b) (length l)
moved l e h = subst (λ t. l ≡ count_up (suc t) (length l)) e h

next_tok-expire :
    {K H : Type 0} (dl : DistributedLock K H) (now : ℕ) → (expire dl now).next_tok ≡ dl.next_tok
unfolding expire
next_tok-expire dl now = refl

module _ {K H : Type 0} (dec : Discrete K) (dec_h : Discrete H) where
  lock_cases :
      (dl : DistributedLock K H) (key : K) (holder : H) (ttl now later : ℕ)
      → dl.next_tok + 1 < word
      → let (dl', r) = lock dec dec_h dl key holder ttl now later in
        ((dl'.next_tok ≡ suc dl.next_tok) × (r ≡ granted (suc dl.next_tok)))
        ⊎ ((dl'.next_tok ≡ dl.next_tok) × ((h : H) × (r ≡ held_by h)))
  unfolding lock grant
  lock_cases dl key holder ttl now later w = elim (Option-cases (dl.locks key)) [
    | inl free ↦ inl (ground arith, ground arith)
    | inr (e, at) ↦ elim (Bool-cases (is_live now e)) [
      | inl live ↦ inr (ground arith, (e.holder, ground arith))
      | inr dead ↦ inl (ground arith, ground arith)
    ]
  ]

  next_tok-unlock :
      (dl : DistributedLock K H) (key : K) (holder : H)
      → (unlock dec dec_h dl key holder).0.next_tok ≡ dl.next_tok
  unfolding unlock
  next_tok-unlock dl key holder = ground arith

  -- The tokens that any sequence of calls grants are consecutive, from the one after the last; so a
  -- later grant of any lock has the larger token. The counter must not wrap at 2 ^ 64.
  pub tokens-count_up :
      (ops : List (Op K H)) (dl : DistributedLock K H)
      → dl.next_tok + length ops < word
      → tokens dec dec_h dl ops ≡ count_up (suc dl.next_tok) (length (tokens dec dec_h dl ops))
  unfolding tokens
  tokens-count_up [] dl h = refl
  tokens-count_up (acquire key holder ttl now later ∷ ops) dl h =
      let dl' = (lock dec dec_h dl key holder ttl now later).0 in
      let rest = tokens-count_up ops dl' in
      elim (lock_cases dl key holder ttl now later (omega arith)) [
        | inl (e, r) ↦
            rw r
              (ap (◌∷◌ (suc dl.next_tok)) (moved (tokens dec dec_h dl' ops) e (rest (omega arith))))
        | inr (e, (_, r)) ↦ rw r (moved (tokens dec dec_h dl' ops) e (rest (omega arith)))
      ]
  tokens-count_up (release key holder ∷ ops) dl h =
      let e = next_tok-unlock dl key holder in
      moved _ e (tokens-count_up ops (unlock dec dec_h dl key holder).0 (omega arith))
  tokens-count_up (tick now ∷ ops) dl h =
      let e = next_tok-expire dl now in
      moved _ e (tokens-count_up ops (expire dl now) (omega arith))
