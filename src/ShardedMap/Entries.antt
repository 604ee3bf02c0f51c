-- ===== src/ShardedMap/Entries.antt =====
-- Entry lists as Go maps, for the shards of src/09_dsa/04_concurrent_map.
use grin_with_golang.ShardedMap.{lookup, assign, remove, shard_keys, Option, List}
use mathlib.Core.Logic.{ite, if_pos, if_neg}
use grin_with_golang.Prelude.{
  List, Option, [], ap, arith, none, refl, some, suc, sym, ℕ, ◌+◌, ◌≡◌, ◌≢◌, ◌∙◌, ◌∷◌, ◌++◌, length,
}

-- one for a value, zero for none
abbrev pub present : {V : Type 0} → Option V → ℕ
present none = 0
present (some v) = 1

module _ {K : Type 0} (dec : Discrete K) where
  unfoldable pub occurs : K → List K → ℕ
  occurs k [] = 0
  occurs k (j ∷ js) = ite (dec k j) 1 0 + occurs k js

  pub occurs-append : (k : K) (xs ys : List K) → occurs k (xs ++ ys) ≡ occurs k xs + occurs k ys
  unfolding occurs
  occurs-append k [] ys = omega arith
  occurs-append k (x ∷ xs) ys = omega (arith, occurs-append k xs ys)

module _ {K V : Type 0} (dec : Discrete K) where
  -- each key once
  pub data IsUnique : List (K × V) → Type 0 where
    nil : IsUnique []
    cons :
        {k : K} {v : V} {es : List (K × V)}
        → lookup dec k es ≡ none
        → IsUnique es
        → IsUnique ((k, v) ∷ es)

  pub lookup-assign :
      (k : K) (v : V) (j : K) (es : List (K × V))
      → lookup dec j (assign dec k v es) ≡ ite (dec j k) (some v) (lookup dec j es)
  unfolding lookup assign
  lookup-assign k v j [] = refl
  lookup-assign k v j ((i, w) ∷ es) = ground (arith, lookup-assign k v j es)

  pub lookup-remove_other :
      (k j : K) (es : List (K × V)) → k ≢ j → lookup dec j (remove dec k es) ≡ lookup dec j es
  unfolding lookup remove
  lookup-remove_other k j [] p = refl
  lookup-remove_other k j ((i, w) ∷ es) p = ground (arith, lookup-remove_other k j es)

  pub lookup-remove_self :
      (k : K) (es : List (K × V)) → IsUnique es → lookup dec k (remove dec k es) ≡ none
  unfolding lookup remove
  lookup-remove_self k [] nil = refl
  lookup-remove_self k ((i, w) ∷ es) (cons p u) = ground (arith, lookup-remove_self k es u)

  pub assign-IsUnique :
      (k : K) (v : V) {es : List (K × V)} → IsUnique es → IsUnique (assign dec k v es)
  unfolding assign lookup
  assign-IsUnique k v nil = cons refl nil
  assign-IsUnique k v (cons {k = j} {v = w} {es = es} p u) = elim (dec k j) [
    | yes q ↦
        rw (if_pos (dec k j) q ((k, v) ∷ es) ((j, w) ∷ assign dec k v es))
          (cons (ap (λ i. lookup dec i es) q ∙ p) u)
    | no q ↦ rw (if_neg (dec k j) q ((k, v) ∷ es) ((j, w) ∷ assign dec k v es)) (
        cons
          (lookup-assign k v j es
            ∙ if_neg (dec j k) (λ e. q (sym e)) (some v) (lookup dec j es)
            ∙ p)
          (assign-IsUnique k v u))
  ]

  pub remove-IsUnique : (k : K) {es : List (K × V)} → IsUnique es → IsUnique (remove dec k es)
  unfolding remove
  remove-IsUnique k nil = nil
  remove-IsUnique k (cons {k = j} {v = w} {es = es} p u) = elim (dec k j) [
    | yes q ↦ rw (if_pos (dec k j) q es ((j, w) ∷ remove dec k es)) u
    | no q ↦
        rw (if_neg (dec k j) q es ((j, w) ∷ remove dec k es))
          (cons (lookup-remove_other k j es q ∙ p) (remove-IsUnique k u))
  ]

  pub occurs-shard_keys :
      (k : K) {es : List (K × V)}
      → IsUnique es
      → occurs dec k (shard_keys es) ≡ present (lookup dec k es)
  unfolding occurs shard_keys lookup
  occurs-shard_keys k nil = refl
  occurs-shard_keys k (cons {k = j} {v = w} {es = es} p u) =
      let rest = occurs-shard_keys k u in
      elim (dec k j) [
        | yes q ↦
            let gone = ap present (ap (λ i. lookup dec i es) q ∙ p) in
            rw (if_pos {C = ℕ} (dec k j) q 1 0, if_pos (dec k j) q (some w) (lookup dec k es))
              (omega (arith, rest, gone))
        | no q ↦
            rw (if_neg {C = ℕ} (dec k j) q 1 0, if_neg (dec k j) q (some w) (lookup dec k es))
              (omega (arith, rest))
      ]

module _ {K V : Type 0} where
  pub length-shard_keys : (es : List (K × V)) → length (shard_keys es) ≡ length es
  unfolding shard_keys
  length-shard_keys [] = refl
  length-shard_keys ((k, v) ∷ es) = ap suc (length-shard_keys es)
