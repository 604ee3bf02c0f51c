-- ===== src/ServiceDiscovery/Instances.antt =====
-- What the operations of src/10_distributed/01_service_discovery do to the instances of a name.
use grin_with_golang.ServiceDiscovery.{
  ServiceInstance, lookup, append_to, seen, beat_instances, beat_services, expire, check_services,
  List, ℕ,
}
use grin_with_golang.Prelude.{
  List, [], ap, append-nil, ap₂, arith, false, inl, inr, map, refl, sym, true, ℕ, ◌+◌, ◌-◌, ◌≤◌,
  ◌≡◌, ◌∙◌, ◌&&◌, ◌∷◌, ◌++◌, ◌==◌, if◌then◌else◌, ltb, Bool-cases, not, fun_ext,
}

abbrev pub Services : Type 0
Services = List (ℕ × List ServiceInstance)

-- how many of the instances have an identifier
unfoldable pub count : ℕ → List ServiceInstance → ℕ
count i [] = 0
count i (inst ∷ insts) = (if inst.id == i then 1 else 0) + count i insts

unfoldable pub count_all : ℕ → Services → ℕ
count_all i [] = 0
count_all i (e ∷ es) = count i e.1 + count_all i es

-- a heartbeat, as one instance sees it
unfoldable pub beat : ℕ → ℕ → ServiceInstance → ServiceInstance
beat i now inst = if inst.id == i then record inst { healthy = true; last_seen = now } else inst

-- a tick of the health checker, as one instance sees it
unfoldable pub aged : ℕ → ℕ → ServiceInstance → ServiceInstance
aged timeout now inst = record inst {
  healthy = inst.healthy && not (ltb timeout (now - inst.last_seen));
}

expire-aged :
    (timeout now : ℕ) (inst : ServiceInstance) → expire timeout now inst ≡ aged timeout now inst
unfolding expire aged
expire-aged timeout now inst = elim (Bool-cases inst.healthy) [
  | inl up ↦ elim (Bool-cases (ltb timeout (now - inst.last_seen))) [
    | inl late ↦ rw (up, late) refl
    | inr fine ↦ rw (up, fine) refl
  ]
  | inr down ↦ rw down refl
]

count-append : (i : ℕ) (xs ys : List ServiceInstance) → count i (xs ++ ys) ≡ count i xs + count i ys
unfolding count
count-append i [] ys = omega arith
count-append i (x ∷ xs) ys = ground (arith, count-append i xs ys)

pub count_all-append_to :
    (i name : ℕ) (inst : ServiceInstance) (es : Services)
    → count_all i (append_to name inst es) ≡ (if inst.id == i then 1 else 0) + count_all i es
unfolding count count_all append_to
count_all-append_to i name inst [] = ground arith
count_all-append_to i name inst (e ∷ es) =
    let more = count-append i e.1 (inst ∷ []) in ground (arith, count_all-append_to i name inst es)

pub lookup-append_to :
    (n name : ℕ) (inst : ServiceInstance) (es : Services)
    → lookup n (append_to name inst es) ≡ lookup n es ++ (if name == n then inst ∷ [] else [])
unfolding lookup append_to
lookup-append_to n name inst [] = refl
lookup-append_to n name inst (e ∷ es) = elim (Bool-cases (e.0 == name)) [
  | inl here ↦
      let same : (name == n) ≡ (e.0 == n) = ground arith in
      elim (Bool-cases (e.0 == n)) [
        | inl asked ↦ rw (here, same, asked) refl
        | inr other ↦ rw (here, same, other) (sym (append-nil (lookup n es)))
      ]
  | inr further ↦ elim (Bool-cases (e.0 == n)) [
    | inl asked ↦
        let apart : (name == n) ≡ false = ground arith in
        rw (further, asked, apart) (sym (append-nil e.1))
    | inr other ↦ rw (further, other) (lookup-append_to n name inst es)
  ]
]

pub lookup-check_services :
    (timeout now n : ℕ) (es : Services)
    → lookup n (check_services timeout now es) ≡ map (aged timeout now) (lookup n es)
unfolding lookup check_services
lookup-check_services timeout now n [] = refl
lookup-check_services timeout now n (e ∷ es) = elim (Bool-cases (e.0 == n)) [
  | inl same ↦ rw same (ap (λ f. map f e.1) (fun_ext (expire-aged timeout now)))
  | inr other ↦ rw other (lookup-check_services timeout now n es)
]

absent-beat :
    (i now : ℕ) (insts : List ServiceInstance) → count i insts ≡ 0 → map (beat i now) insts ≡ insts
unfolding count beat
absent-beat i now [] h = refl
absent-beat i now (inst ∷ insts) h =
    let other : (inst.id == i) ≡ false = ground arith in
    let rest : count i insts ≡ 0 = ground arith in
    rw other (ap (λ xs. inst ∷ xs) (absent-beat i now insts rest))

beat_instances-beat :
    (i now : ℕ) (insts : List ServiceInstance)
    → count i insts ≤ 1
    → beat_instances i now insts ≡ (map (beat i now) insts, count i insts == 1)
unfolding count beat beat_instances seen
beat_instances-beat i now [] h = refl
beat_instances-beat i now (inst ∷ insts) h = elim (Bool-cases (inst.id == i)) [
  | inl same ↦
      let rest : count i insts ≡ 0 = ground arith in
      let once : true ≡ (1 + count i insts == 1) = ground arith in
      rw same (ap₂ (λ xs b. (seen now inst ∷ xs, b)) (sym (absent-beat i now insts rest)) once)
  | inr other ↦
      let few : count i insts ≤ 1 = ground arith in
      let rest : (count i insts == 1) ≡ (0 + count i insts == 1) = ground arith in
      rw other (
        ap (λ r. (inst ∷ r.0, r.1)) (beat_instances-beat i now insts few)
        ∙ ap (λ b. (inst ∷ map (beat i now) insts, b)) rest)
]

count-lookup : (i n : ℕ) (es : Services) → count i (lookup n es) ≤ count_all i es
unfolding lookup count_all count
count-lookup i n [] = omega arith
count-lookup i n (e ∷ es) = ground (arith, count-lookup i n es)

pub lookup-beat_services :
    (i now n : ℕ) (es : Services)
    → count_all i es ≤ 1
    → lookup n (beat_services i now es) ≡ map (beat i now) (lookup n es)
unfolding lookup beat_services count_all
lookup-beat_services i now n [] h = refl
lookup-beat_services i now n (e ∷ es) h =
    let few : count i e.1 ≤ 1 = ground arith in
    let few_es : count_all i es ≤ 1 = ground arith in
    let here = beat_instances-beat i now e.1 few in
    elim (Bool-cases (e.0 == n)) [
      | inl same ↦ rw (same, here) refl
      | inr other ↦ elim (Bool-cases (count i e.1 == 1)) [
        | inl found ↦
            let none_left : count_all i es ≡ 0 = ground arith in
            rw (other, here, found)
              (let absent : count i (lookup n es) ≡ 0 = ground (arith, count-lookup i n es) in
                sym (absent-beat i now (lookup n es) absent))
        | inr on ↦ rw (other, here, on) (lookup-beat_services i now n es few_es)
      ]
    ]

count-map :
    (i : ℕ) (f : ServiceInstance → ServiceInstance)
    → ((inst : ServiceInstance) → (f inst).id ≡ inst.id)
    → (insts : List ServiceInstance) → count i (map f insts) ≡ count i insts
unfolding count
count-map i f keeps [] = refl
count-map i f keeps (inst ∷ insts) =
    ap₂ (λ j c. (if j == i then 1 else 0) + c) (keeps inst) (count-map i f keeps insts)

id-beat : (i now : ℕ) (inst : ServiceInstance) → (beat i now inst).id ≡ inst.id
unfolding beat seen
id-beat i now inst = elim (Bool-cases (inst.id == i)) [
  | inl same ↦ rw same refl
  | inr other ↦ rw other refl
]

id-expire : (timeout now : ℕ) (inst : ServiceInstance) → (expire timeout now inst).id ≡ inst.id
unfolding aged
id-expire timeout now inst = ap (λ i. i.id) (expire-aged timeout now inst)

pub count_all-check_services :
    (timeout now i : ℕ) (es : Services)
    → count_all i (check_services timeout now es) ≡ count_all i es
unfolding count_all check_services
count_all-check_services timeout now i [] = refl
count_all-check_services timeout now i (e ∷ es) =
    ap₂ (λ a b. a + b) (count-map i (expire timeout now) (id-expire timeout now) e.1)
      (count_all-check_services timeout now i es)

pub count_all-beat_services :
    (j now i : ℕ) (es : Services)
    → count_all j es ≤ 1
    → count_all i (beat_services j now es) ≡ count_all i es
unfolding count_all beat_services
count_all-beat_services j now i [] h = refl
count_all-beat_services j now i (e ∷ es) h =
    let few : count j e.1 ≤ 1 = ground arith in
    let few_es : count_all j es ≤ 1 = ground arith in
    let here = beat_instances-beat j now e.1 few in
    let counted = count-map i (beat j now) (id-beat j now) e.1 in
    elim (Bool-cases (count j e.1 == 1)) [
      | inl found ↦ rw (here, found, counted) refl
      | inr on ↦ rw (here, on, counted, count_all-beat_services j now i es few_es) refl
    ]
