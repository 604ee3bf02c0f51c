-- ===== src/RateLimiter/Buckets.antt =====
-- The map of buckets after `getLimiter`, src/10_distributed/02_rate_limiter.
use grin_with_golang.RateLimiter.{
  Float64, TokenBucket, RateLimiter, get_limiter, ℕ, Option, new_token_bucket, ℤ,
}
use grin_with_golang.Prelude.{
  Option, none, some, ℕ, ◌≡◌, Option-cases, ap, inl, inr, refl, sym, ◌∙◌,
}
use mathlib.Core.Logic.{ite, if_pos, if_neg}

abbrev pub or_fresh : {A : Type 0} → Option A → A → A
or_fresh none fresh = fresh
or_fresh (some tb) fresh = tb

module _ {K F : Type 0} (dec : Discrete K) (fl : Float64 F) where
  pub limiters-get_limiter :
      (key k : K) (now : ℕ) (rl : RateLimiter K F)
      → (get_limiter dec fl key now rl).limiters k
        ≡ ite
            (dec key k)
            (some (or_fresh (rl.limiters k) (new_token_bucket fl rl.rate rl.burst now)))
            (rl.limiters k)
  unfolding get_limiter
  limiters-get_limiter key k now rl =
      let fresh = new_token_bucket fl rl.rate rl.burst now in
      let made : Option (TokenBucket F) = some (or_fresh (rl.limiters k) fresh) in
      elim (Option-cases (rl.limiters key)) [
        | inl missing ↦
            rw (get_limiter, missing)
              (elim (dec key k) [
                | yes p ↦
                    let missing_k : rl.limiters k ≡ none = ap rl.limiters (sym p) ∙ missing in
                    if_pos (dec key k) p (some fresh) (rl.limiters k)
                    ∙ ap (λ o. some (or_fresh o fresh)) (sym missing_k)
                    ∙ sym (if_pos (dec key k) p made (rl.limiters k))
                | no p ↦
                    if_neg (dec key k) p (some fresh) (rl.limiters k)
                    ∙ sym (if_neg (dec key k) p made (rl.limiters k))
              ])
        | inr (tb, there) ↦
            rw (get_limiter, there)
              (elim (dec key k) [
                | yes p ↦
                    let there_k : rl.limiters k ≡ some tb = ap rl.limiters (sym p) ∙ there in
                    there_k
                    ∙ ap (λ o. some (or_fresh o fresh)) (sym there_k)
                    ∙ sym (if_pos (dec key k) p made (rl.limiters k))
                | no p ↦ sym (if_neg (dec key k) p made (rl.limiters k))
              ])
      ]

  -- the buckets that new clients get
  unfoldable pub rates : RateLimiter K F → F × ℤ
  rates rl = (rl.rate, rl.burst)

  pub rates-get_limiter :
      (key : K) (now : ℕ) (rl : RateLimiter K F) → rates (get_limiter dec fl key now rl) ≡ rates rl
  unfolding get_limiter rates
  rates-get_limiter key now rl = elim (Option-cases (rl.limiters key)) [
    | inl missing ↦ rw (get_limiter, missing) refl
    | inr (tb, there) ↦ rw (get_limiter, there) refl
  ]
