-- ===== src/RateLimiter/Clients.antt =====
-- The clients of src/10_distributed/02_rate_limiter, their requests interleaved at the locks.
use mathlib.Core.Bool.{false≢true}
use grin_with_golang.RateLimiter.{
  Float64, TokenBucket, RateLimiter, Response, get_limiter, allow_key, respond, allow, ℕ, Bool,
  Option, List, new_token_bucket, ℤ, insert, new, middleware,
}
use grin_with_golang.Prelude.{
  Bool, List, Option, [], none, some, true, ℕ, ◌≡◌, ◌∷◌, ◌>>=◌, ap, false, refl, subst, sym, ◌∙◌,
}
use mathlib.Core.Logic.{ite, if_pos, if_neg}
use grin_with_golang.RateLimiter.Buckets.{or_fresh, limiters-get_limiter, rates, rates-get_limiter}

-- a critical section of a request of a client, with its reading of the clock
pub data Step (K : Type 0) : Type 0 where
  look_up : K → ℕ → Step K
  ask : K → ℕ → Step K

-- Every `Allow` of a client comes after a `getLimiter` of the same client; `known` says who had one.
unfoldable pub Ordered : {K : Type 0} → Discrete K → (K → Bool) → List (Step K) → Type 0
Ordered dec known [] = Unit
Ordered dec known (look_up key now ∷ steps) =
    Ordered dec (λ k. ite (dec key k) true (known k)) steps
Ordered dec known (ask key now ∷ steps) = known key ≡ true × Ordered dec known steps

module _ {K F : Type 0} (dec : Discrete K) (fl : Float64 F) where
  -- the steps in their order, and the responses with their clients
  unfoldable pub run :
      RateLimiter K F → List (Step K) → Option (RateLimiter K F × List (K × Response))
  run rl [] = some (rl, [])
  run rl (look_up key now ∷ steps) = run (get_limiter dec fl key now rl) steps
  run rl (ask key now ∷ steps) = allow_key dec fl key now rl >>= λ r.
      run r.0 steps >>= λ rest. some (rest.0, (key, r.1) ∷ rest.1)

  -- one client with its own bucket, which its first step makes; the steps of the others are passed over
  unfoldable pub alone :
      K
      → (ℕ → TokenBucket F)
      → Option (TokenBucket F)
      → List (Step K)
      → Option (TokenBucket F) × List Response
  alone k fresh bucket [] = (bucket, [])
  alone k fresh bucket (look_up key now ∷ steps) =
      alone k fresh (ite (dec key k) (some (or_fresh bucket (fresh now))) bucket) steps
  alone k fresh none (ask key now ∷ steps) = alone k fresh none steps
  alone k fresh (some tb) (ask key now ∷ steps) =
      let (tb1, allowed) = allow fl now tb in
      let (last, responses) = alone k fresh (ite (dec key k) (some tb1) (some tb)) steps in
      (last, ite (dec key k) (respond allowed ∷ responses) responses)

  unfoldable pub responses_of : K → List (K × Response) → List Response
  responses_of k [] = []
  responses_of k (r ∷ rs) = let rest = responses_of k rs in ite (dec r.0 k) (r.1 ∷ rest) rest

  Isolated :
      K → F → ℤ → RateLimiter K F → List (Step K) → RateLimiter K F × List (K × Response) → Type 0
  Isolated k rate burst rl steps result =
      alone k (new_token_bucket fl rate burst) (rl.limiters k) steps
      ≡ (result.0.limiters k, responses_of k result.1)

  run-look_up :
      (key : K) (now : ℕ) (rl : RateLimiter K F) (steps : List (Step K))
      → (result : RateLimiter K F × List (K × Response)) → (k : K)
      → Isolated k rl.rate rl.burst (get_limiter dec fl key now rl) steps result
      → Isolated k rl.rate rl.burst rl (look_up key now ∷ steps) result
  unfolding Isolated alone
  run-look_up key now rl steps result k h =
      ap (λ b. alone k (new_token_bucket fl rl.rate rl.burst) b steps)
        (sym (limiters-get_limiter dec fl key k now rl))
      ∙ h

  alone-other :
      (key : K) (now : ℕ) (steps : List (Step K)) (k : K)
      → ¬ (key ≡ k)
      → (fresh : ℕ → TokenBucket F) (bucket : Option (TokenBucket F))
      → alone k fresh bucket (ask key now ∷ steps) ≡ alone k fresh bucket steps
  unfolding alone
  alone-other key now steps k p fresh none = refl
  alone-other key now steps k p fresh (some tb) =
      let (tb1, allowed) = allow fl now tb in
      let rest = alone k fresh (some tb) steps in
      ap
        (λ b.
          let (last, responses) = alone k fresh b steps in
          (last, ite (dec key k) (respond allowed ∷ responses) responses))
        (if_neg (dec key k) p (some tb1) (some tb))
      ∙ ap (λ rs. (rest.0, rs)) (if_neg (dec key k) p (respond allowed ∷ rest.1) rest.1)

  run-ask :
      (key : K) (now : ℕ) (rl : RateLimiter K F) (steps : List (Step K)) (tb : TokenBucket F)
      → (result : RateLimiter K F × List (K × Response)) → (k : K) → rl.limiters key ≡ some tb
      → let (tb1, allowed) = allow fl now tb in
        Isolated k rl.rate rl.burst
          (record rl { limiters = insert dec key tb1 rl.limiters })
          steps
          result
        → Isolated k rl.rate rl.burst rl
            (ask key now ∷ steps)
            (result.0, (key, respond allowed) ∷ result.1)
  unfolding Isolated alone responses_of
  run-ask key now rl steps tb result k there h =
      let tb1 = (allow fl now tb).0 in
      let answer = respond (allow fl now tb).1 in
      let responses = responses_of k result.1 in
      let own = alone k (new_token_bucket fl rl.rate rl.burst) in
      elim (dec key k) [
        | yes p ↦
            let there_k : rl.limiters k ≡ some tb = ap rl.limiters (sym p) ∙ there in
            let new_k = if_pos (dec key k) p (some tb1) (rl.limiters k) in
            let rest =
              ap (λ b. own b steps) (if_pos (dec key k) p (some tb1) (some tb))
              ∙ ap (λ b. own b steps) (sym new_k)
              ∙ h in
            ap (λ b. own b (ask key now ∷ steps)) there_k
            ∙ ap (λ r. (r.0, ite (dec key k) (answer ∷ r.1) r.1)) rest
        | no p ↦
            alone-other key now steps k p (new_token_bucket fl rl.rate rl.burst) (rl.limiters k)
            ∙ ap (λ b. own b steps) (sym (if_neg (dec key k) p (some tb1) (rl.limiters k)))
            ∙ h
            ∙ ap (λ rs. (result.0.limiters k, rs))
                (sym (if_neg (dec key k) p (answer ∷ responses) responses))
      ]

  Known : (K → Bool) → RateLimiter K F → Type 0
  Known known rl = (k : K) → known k ≡ true → (tb : TokenBucket F) × (rl.limiters k ≡ some tb)

  Known-get_limiter :
      (key : K) (now : ℕ) (known : K → Bool) (rl : RateLimiter K F)
      → Known known rl
      → Known (λ k. ite (dec key k) true (known k)) (get_limiter dec fl key now rl)
  unfolding Known
  Known-get_limiter key now known rl old k had =
      let fresh = new_token_bucket fl rl.rate rl.burst now in
      let got = limiters-get_limiter dec fl key k now rl in
      let made : Option (TokenBucket F) = some (or_fresh (rl.limiters k) fresh) in
      elim (dec key k) [
        | yes p ↦ (or_fresh (rl.limiters k) fresh, got ∙ if_pos (dec key k) p made (rl.limiters k))
        | no p ↦
            let (tb, there) = old k (sym (if_neg (dec key k) p true (known k)) ∙ had) in
            (tb, got ∙ if_neg (dec key k) p made (rl.limiters k) ∙ there)
      ]

  Known-insert :
      (key : K) (known : K → Bool) (rl : RateLimiter K F) (tb : TokenBucket F)
      → Known known rl
      → Known known (record rl { limiters = insert dec key tb rl.limiters })
  unfolding Known
  Known-insert key known rl tb old k had = elim (dec key k) [
    | yes p ↦ (tb, if_pos (dec key k) p (some tb) (rl.limiters k))
    | no p ↦
        let (mine, there) = old k had in
        (mine, if_neg (dec key k) p (some tb) (rl.limiters k) ∙ there)
  ]

  -- the run and the clients, from any state
  run-Isolated :
      (steps : List (Step K)) (known : K → Bool) (rl : RateLimiter K F)
      → Known known rl
      → Ordered dec known steps
      → (result : RateLimiter K F × List (K × Response)) × (run rl steps ≡ some result)
        × ((k : K) → Isolated k rl.rate rl.burst rl steps result)
  unfolding Known Isolated rates run alone responses_of Ordered allow_key
  run-Isolated [] known rl old ordered = ((rl, []), refl, λ k. refl)
  run-Isolated (look_up key now ∷ steps) known rl old ordered =
      let (result, ran, alike) =
        run-Isolated steps (λ k. ite (dec key k) true (known k)) (get_limiter dec fl key now rl)
          (Known-get_limiter key now known rl old) ordered in
      (
        result,
        ran,
        λ k. run-look_up key now rl steps result k (
            subst (λ r. Isolated k r.0 r.1 (get_limiter dec fl key now rl) steps result)
              (rates-get_limiter dec fl key now rl) (alike k)),
      )
  run-Isolated (ask key now ∷ steps) known rl old (had, ordered) =
      let (tb, there) = old key had in
      let rl1 = record rl { limiters = insert dec key (allow fl now tb).0 rl.limiters } in
      let (result, ran, alike) =
        run-Isolated steps known rl1 (Known-insert key known rl (allow fl now tb).0 old) ordered in
      (
        (result.0, (key, respond (allow fl now tb).1) ∷ result.1),
        rw (there, ran) refl,
        λ k. run-ask key now rl steps tb result k there (alike k),
      )

  -- Where every Allow of a client comes after a getLimiter of it, all steps of the requests run, in
  -- whatever order they meet. For every client, the responses that it gets, and its bucket at the end,
  -- are those of a bucket of its own, made full at its first step, which sees the client's steps only.
  pub run-alone :
      (rate : F) (burst : ℤ) (steps : List (Step K))
      → Ordered dec (λ k. false) steps
      → (result : RateLimiter K F × List (K × Response)) × (run (new rate burst) steps
          ≡ some result)
        × ((k : K)
            → alone k (new_token_bucket fl rate burst) none steps
              ≡ (result.0.limiters k, responses_of k result.1))
  unfolding Known Isolated
  run-alone rate burst steps ordered =
      run-Isolated steps (λ k. false) (new rate burst) (λ k h. absurd (false≢true h)) ordered

  -- A request that runs undisturbed is its two sections.
  run-middleware :
      (rl : RateLimiter K F) (client_ip : K) (now later : ℕ)
      → run rl (look_up client_ip now ∷ ask client_ip later ∷ [])
        ≡ (middleware dec fl client_ip now later rl >>= λ r. some (r.0, (client_ip, r.1) ∷ []))
  unfolding run middleware
  run-middleware rl client_ip now later = refl
