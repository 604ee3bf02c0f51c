-- ===== src/ShardedMap/Shards.antt =====
-- The shards of src/09_dsa/04_concurrent_map as the storage of one map.
use grin_with_golang.ShardedMap.{
  ShardedMap, lookup, assign, remove, home, get_shard, set_key, get, delete_key, new,
  count_or_default, ◌<◌, ◌≡◌, List, Option, ℕ, ℤ, pos, negsuc,
}
use grin_with_golang.ShardedMap.Entries.{
  IsUnique, lookup-assign, lookup-remove_other, lookup-remove_self, assign-IsUnique,
  remove-IsUnique, nil,
}
use grin_with_golang.Prelude.Maps.{GoMap, make, insert, delete}
use mathlib.Core.Logic.{ite, if_pos, if_neg}
use grin_with_golang.Prelude.{
  ◌<◌, ◌≡◌, List, Option, [], ap, arith, false, none, refl, some, subst, suc, sym, true, zero, ℕ,
  ℕ_discrete, ◌≢◌, ◌∙◌, ◌==◌, length, get_or, set, replicate, length-set, length-replicate,
  get_or-set, get_elem?-get_or, store-some,
}

count_positive : (n : ℤ) → 0 < count_or_default n
count_positive (pos zero) = omega arith
count_positive (pos (suc n)) = omega arith
count_positive (negsuc n) = omega arith

module _ {K V : Type 0} (dec : Discrete K) where
  -- `m` stores the map `f`
  pub record IsMapOf (f : GoMap K V) (m : ShardedMap K V) : Type 0 where
    pub positive : 0 < m.shard_count
    pub size : length m.shards ≡ m.shard_count
    pub reads : (k : K) → lookup dec k (get_or m.shards (home m k) []) ≡ f k
    pub placed : (k : K) (i : ℕ) → home m k ≢ i → lookup dec k (get_or m.shards i []) ≡ none
    pub unique : (i : ℕ) → IsUnique dec (get_or m.shards i [])

  module _ (f : GoMap K V) (m : ShardedMap K V) (is : IsMapOf f m) where
    home-inside : (k : K) → home m k < length m.shards
    unfolding home
    home-inside k = let positive = is.positive in let size = is.size in omega arith

    get_shard-inside : (k : K) → get_shard m k ≡ some (get_or m.shards (home m k) [])
    unfolding get_shard
    get_shard-inside k = get_elem?-get_or m.shards (home m k) [] (home-inside k)

    pub get-IsMapOf : (k : K) → get dec m k ≡ some (f k)
    unfolding get
    get-IsMapOf k = rw (get, get_shard-inside k) (ap some (is.reads k))

    module _ (k : K) (s : List (K × V)) where
      set_here : (i : ℕ) → home m k ≡ i → get_or (set m.shards (home m k) s) i [] ≡ s
      set_here i p =
          let same : (home m k == i) ≡ true = ground arith in
          get_or-set m.shards (home m k) i s [] (home-inside k) ∙ rw same refl

      set_elsewhere :
          (i : ℕ) → home m k ≢ i → get_or (set m.shards (home m k) s) i [] ≡ get_or m.shards i []
      set_elsewhere i p =
          let other : (home m k == i) ≡ false = ground arith in
          get_or-set m.shards (home m k) i s [] (home-inside k) ∙ rw other refl

    -- the map with another shard in the home of `k`, which differs from the old one at `k` only
    write-IsMapOf :
        (k : K) (o : Option V) (s : List (K × V))
        → IsUnique dec s
        → lookup dec k s ≡ o
        → ((j : K) → k ≢ j → lookup dec j s ≡ lookup dec j (get_or m.shards (home m k) []))
        → IsMapOf (λ j. ite (dec k j) o (f j)) (record m { shards = set m.shards (home m k) s })
    unfolding home
    write-IsMapOf k o s u here others =
        let at = set_here k s in
        let off = set_elsewhere k s in
        let size = is.size in
        record {
          positive = is.positive;
          size = length-set m.shards (home m k) s ∙ size;
          reads = λ j. elim (dec k j) [
            | yes q ↦
                ap (lookup dec j) (at (home m j) (ap (home m) q))
                ∙ ap (λ i. lookup dec i s) (sym q)
                ∙ here
                ∙ sym (if_pos (dec k j) q o (f j))
            | no q ↦ elim (ℕ_discrete (home m k) (home m j)) [
              | yes e ↦
                  ap (lookup dec j) (at (home m j) e)
                  ∙ others j q
                  ∙ ap (λ i. lookup dec j (get_or m.shards i [])) e
                  ∙ is.reads j
                  ∙ sym (if_neg (dec k j) q o (f j))
              | no e ↦
                  ap (lookup dec j) (off (home m j) e)
                  ∙ is.reads j
                  ∙ sym (if_neg (dec k j) q o (f j))
            ]
          ];
          placed = λ j i p. elim (ℕ_discrete (home m k) i) [
            | yes e ↦
                let away : home m j ≢ home m k = λ r. p (r ∙ e) in
                ap (lookup dec j) (at i e)
                ∙ others j (λ r. away (sym (ap (home m) r)))
                ∙ is.placed j (home m k) away
            | no e ↦ ap (lookup dec j) (off i e) ∙ is.placed j i p
          ];
          unique = λ i. elim (ℕ_discrete (home m k) i) [
            | yes e ↦ subst (IsUnique dec) (sym (at i e)) u
            | no e ↦ subst (IsUnique dec) (sym (off i e)) (is.unique i)
          ];
        }

    pub set_key-IsMapOf :
        (k : K) (v : V)
        → (m' : ShardedMap K V) × (set_key dec m k v ≡ some m') × IsMapOf (insert dec k v f) m'
    unfolding set_key
    set_key-IsMapOf k v =
        let shard = get_or m.shards (home m k) [] in
        let s = assign dec k v shard in
        let written = store-some m.shards (home m k) s (home-inside k) in
        (
          record m { shards = set m.shards (home m k) s },
          rw (set_key, get_shard-inside k, written) refl,
          write-IsMapOf k (some v) s (assign-IsUnique dec k v (is.unique (home m k)))
              (lookup-assign dec k v k shard ∙ if_pos (dec k k) refl (some v) (lookup dec k shard))
              (λ j q.
                lookup-assign dec k v j shard
                ∙ if_neg (dec j k) (λ e. q (sym e)) (some v) (lookup dec j shard)),
        )

    pub delete_key-IsMapOf :
        (k : K)
        → (m' : ShardedMap K V) × (delete_key dec m k ≡ some m') × IsMapOf (delete dec k f) m'
    unfolding delete_key
    delete_key-IsMapOf k =
        let shard = get_or m.shards (home m k) [] in
        let s = remove dec k shard in
        let written = store-some m.shards (home m k) s (home-inside k) in
        (
          record m { shards = set m.shards (home m k) s },
          rw (delete_key, get_shard-inside k, written) refl,
          write-IsMapOf k none s (remove-IsUnique dec k (is.unique (home m k)))
              (lookup-remove_self dec k shard (is.unique (home m k)))
              (λ j q. lookup-remove_other dec k j shard q),
        )

  get_or-replicate :
      (n i : ℕ)
      → let none_yet : List (K × V) = [] in get_or (replicate n none_yet) i none_yet ≡ none_yet
  get_or-replicate zero i = refl
  get_or-replicate (suc n) zero = refl
  get_or-replicate (suc n) (suc i) = get_or-replicate n i

  pub new-IsMapOf : (n : ℤ) (hash_fn : K → ℕ) → IsMapOf make (new n hash_fn)
  unfolding new lookup
  new-IsMapOf n hash_fn =
      let empty = get_or-replicate (count_or_default n) in
      record {
        positive = count_positive n;
        size = length-replicate {A = List (K × V)} (count_or_default n) [];
        reads = λ k. ap (lookup dec k) (empty _);
        placed = λ k i p. ap (lookup dec k) (empty i);
        unique = λ i. subst (IsUnique dec) (sym (empty i)) nil;
      }
