-- ===== src/BoundedGroup/Outcomes.antt =====
-- The errors that runBounded of src/03_concurrency/08_errgroup_semaphore/main.go reports.
use grin_with_golang.BoundedGroup.{
  Goroutine, starting, recording, releasing, finishing, finished, Group, capture, Option, List, ◌≡◌,
}
use mathlib.Core.Option.{some-injective, none-ne-some}
use grin_with_golang.Prelude.{
  ◌≡◌, Bool, List, Option, [], ap, false, inl, inr, none, refl, some, subst, suc, true, zero, ℕ,
  ◌⊎◌, ◌∙◌, ◌∷◌, ◌++◌, get_elem?, set, Option-cases,
}

unfoldable pub is_some : {A : Type 0} → Option A → Bool
is_some none = false
is_some (some a) = true

-- the first error after one more
unfoldable pub captured : {A : Type 0} → Option A → Option A → Option A
captured none r = r
captured (some e) none = some e
captured (some e) (some x) = some x

module _ {A : Type 0} (P : A → Type 0) where
  unfoldable pub Every : List A → Type 0
  Every [] = Unit
  Every (x ∷ xs) = P x × Every xs

  unfoldable pub Exists : List A → Type 0
  Exists [] = ⊥
  Exists (x ∷ xs) = P x ⊎ Exists xs

  pub Every-set : (xs : List A) (i : ℕ) (new : A) → P new → Every xs → Every (set xs i new)
  unfolding Every
  Every-set [] i new ok all = all
  Every-set (x ∷ xs) zero new ok (h, all) = (ok, all)
  Every-set (x ∷ xs) (suc i) new ok (h, all) = (h, Every-set xs i new ok all)

  pub Every-append : (xs : List A) (new : A) → P new → Every xs → Every (xs ++ new ∷ [])
  unfolding Every
  Every-append [] new ok all = (ok, tt)
  Every-append (x ∷ xs) new ok (h, all) = (h, Every-append xs new ok all)

  pub Every-at : (xs : List A) (i : ℕ) (x : A) → get_elem? xs i ≡ some x → Every xs → P x
  unfolding Every
  Every-at [] i x h all = absurd (none-ne-some x h)
  Every-at (y ∷ xs) zero x h (ok, all) = subst P (some-injective y x h) ok
  Every-at (y ∷ xs) (suc i) x h (ok, all) = Every-at xs i x h all

  Exists-set :
      (xs : List A) (i : ℕ) (old new : A)
      → get_elem? xs i ≡ some old
      → (P old → P new)
      → Exists xs
      → Exists (set xs i new)
  unfolding Exists
  Exists-set [] i old new h keeps ex = ex
  Exists-set (x ∷ xs) zero old new h keeps (inl ok) =
      inl (keeps (subst P (some-injective x old h) ok))
  Exists-set (x ∷ xs) zero old new h keeps (inr ex) = inr ex
  Exists-set (x ∷ xs) (suc i) old new h keeps (inl ok) = inl ok
  Exists-set (x ∷ xs) (suc i) old new h keeps (inr ex) = inr (Exists-set xs i old new h keeps ex)

  Exists-set_new :
      (xs : List A) (i : ℕ) (old new : A)
      → get_elem? xs i ≡ some old
      → P new
      → Exists (set xs i new)
  unfolding Exists
  Exists-set_new [] i old new h ok = absurd (none-ne-some old h)
  Exists-set_new (x ∷ xs) zero old new h ok = inl ok
  Exists-set_new (x ∷ xs) (suc i) old new h ok = inr (Exists-set_new xs i old new h ok)

  Exists-append : (xs : List A) (new : A) → Exists xs → Exists (xs ++ new ∷ [])
  unfolding Exists
  Exists-append [] new ex = elim ex [ ]
  Exists-append (x ∷ xs) new (inl ok) = inl ok
  Exists-append (x ∷ xs) new (inr ex) = inr (Exists-append xs new ex)

module _ {T E : Type 0} where
  -- the error that a goroutine has noted
  unfoldable pub error_of : Goroutine T E → Option E
  error_of (starting t) = none
  error_of (recording t err) = none
  error_of (releasing t err) = err
  error_of (finishing t err) = err
  error_of (finished t err) = err

  -- no goroutine has noted an error, or one has noted this one
  unfoldable pub Reports : Option E → List (Goroutine T E) → Type 0
  Reports none gs = Every (λ g. error_of g ≡ none) gs
  Reports (some e) gs = Exists (λ g. error_of g ≡ some e) gs

  pub Reports-set :
      (r : Option E) (gs : List (Goroutine T E)) (i : ℕ) (old new : Goroutine T E)
      → get_elem? gs i ≡ some old
      → error_of new ≡ error_of old
      → Reports r gs
      → Reports r (set gs i new)
  unfolding Reports
  Reports-set none gs i old new h same all =
      Every-set (λ g. error_of g ≡ none) gs i new
        (same ∙ Every-at (λ g. error_of g ≡ none) gs i old h all) all
  Reports-set (some e) gs i old new h same ex =
      Exists-set (λ g. error_of g ≡ some e) gs i old new h (λ k. same ∙ k) ex

  pub Reports-append :
      (r : Option E) (gs : List (Goroutine T E)) (t : T)
      → Reports r gs
      → Reports r (gs ++ starting t ∷ [])
  unfolding Reports error_of
  Reports-append none gs t all = Every-append (λ g. error_of g ≡ none) gs (starting t) refl all
  Reports-append (some e) gs t ex = Exists-append (λ g. error_of g ≡ some e) gs (starting t) ex

  pub Reports-note :
      (r err : Option E) (gs : List (Goroutine T E)) (i : ℕ) (t : T)
      → get_elem? gs i ≡ some (recording t err)
      → Reports r gs
      → Reports (captured err r) (set gs i (releasing t err))
  unfolding Reports error_of captured
  Reports-note r none gs i t h ok =
      Reports-set r gs i (recording t none) (releasing t none) h refl ok
  Reports-note none (some e) gs i t h ok =
      Exists-set_new (λ g. error_of g ≡ some e) gs i (recording t (some e)) (releasing t (some e)) h
        refl
  Reports-note (some x) (some e) gs i t h ok =
      Exists-set (λ g. error_of g ≡ some x) gs i (recording t (some e)) (releasing t (some e)) h
        (λ k. absurd (none-ne-some x k)) ok

  unfoldable pub IsReported : Group T E → Type 0
  IsReported p = Reports p.first_err p.goroutines × (p.once ≡ is_some p.first_err)

  pub capture-captured :
      (p : Group T E) (err : Option E)
      → p.once ≡ is_some p.first_err
      → ((capture p err).first_err ≡ captured err p.first_err)
        × ((capture p err).once ≡ is_some (captured err p.first_err))
  unfolding capture captured is_some
  capture-captured p none h = (refl, h)
  capture-captured p (some e) h = elim (Option-cases p.first_err) [
    | inl empty ↦ let off : p.once ≡ false = h ∙ ap is_some empty in rw (off, empty) (refl, refl)
    | inr (x, full) ↦ let on : p.once ≡ true = h ∙ ap is_some full in rw (on, full) (refl, refl)
  ]
