-- ===== src/EventSourcing/Replay.antt =====
-- Reconstruction from a log of src/10_distributed/04_event_sourcing that grows by an event.
use grin_with_golang.EventSourcing.{
  Event, EventStore, BankAccount, Float, apply, replay, of_aggregate, get_events, reconstruct,
  append, zero_account, List, ℕ,
}
use mathlib.Core.Logic.{ite, if_pos, if_neg}
use grin_with_golang.Prelude.{
  List, Option, [], ap, append-nil, arith, inl, inr, refl, sym, ℕ, ◌+◌, ◌≡◌, ◌∙◌, ◌∷◌, ◌++◌, ◌>>=◌,
  Option-cases,
}

module _ {K A : Type 0} (float : Float A) where
  pub replay-append :
      (a : BankAccount K A) (xs : List (Event K A)) (e : Event K A)
      → replay float a (xs ++ e ∷ []) ≡ (replay float a xs >>= λ a'. apply float a' e)
  unfolding replay
  replay-append a [] e = elim (Option-cases (apply float a e)) [
    | inl p ↦ rw p refl
    | inr (a', p) ↦ rw p refl
  ]
  replay-append a (x ∷ xs) e = elim (Option-cases (apply float a x)) [
    | inl p ↦ rw p refl
    | inr (a', p) ↦ rw p (replay-append a' xs e)
  ]

module _ {K A : Type 0} (dec : Discrete K) where
  pub of_aggregate-append :
      (xs : List (Event K A)) (e : Event K A) (id : K)
      → of_aggregate dec (xs ++ e ∷ []) id
        ≡ of_aggregate dec xs id ++ ite (dec e.aggregate id) (e ∷ []) []
  unfolding of_aggregate
  of_aggregate-append [] e id = refl
  of_aggregate-append (x ∷ xs) e id = let ih = of_aggregate-append xs e id in ground (arith, ih)

module _ {K A : Type 0} (dec : Discrete K) (empty : K) (float : Float A) where
  -- the identifier and the time of an event do not matter to the account
  pub reconstruct-append :
      (es : EventStore K A) (evt : Event K A) (now : ℕ) (id : K)
      → reconstruct dec empty float (append es evt now) id
        ≡ ite
            (dec evt.aggregate id)
            (reconstruct dec empty float es id >>= λ a. apply float a evt)
            (reconstruct dec empty float es id)
  unfolding reconstruct get_events append apply
  reconstruct-append es evt now id =
      let e : Event K A = record evt { id = es.next_id + 1; timestamp = now } in
      let z = zero_account empty float in
      let old = of_aggregate dec es.events id in
      let grown = of_aggregate-append dec es.events e id in
      let both : Option (BankAccount K A) = replay float z old >>= λ a. apply float a evt in
      elim (dec evt.aggregate id) [
        | yes p ↦
            let here = if_pos (dec evt.aggregate id) p (e ∷ []) [] in
            ap (replay float z) (grown ∙ ap (λ t. old ++ t) here)
            ∙ replay-append float z old e
            ∙ sym (if_pos (dec evt.aggregate id) p both (replay float z old))
        | no p ↦
            let gone = if_neg (dec evt.aggregate id) p (e ∷ []) [] in
            ap (replay float z) (grown ∙ ap (λ t. old ++ t) gone ∙ append-nil old)
            ∙ sym (if_neg (dec evt.aggregate id) p both (replay float z old))
      ]
