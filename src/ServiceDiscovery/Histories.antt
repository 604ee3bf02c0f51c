-- ===== src/ServiceDiscovery/Histories.antt =====
-- Histories of calls on the registry of src/10_distributed/01_service_discovery, and for every instance
-- the part of the history that concerns it.
use grin_with_golang.ServiceDiscovery.{
  ServiceInstance, Registry, new, lookup, seen, register, healthy_of, discover, heartbeat, check, ℕ,
  List,
}
use grin_with_golang.ServiceDiscovery.Instances.{
  aged, beat, count_all, count_all-append_to, lookup-append_to, lookup-check_services,
  lookup-beat_services, count_all-check_services, count_all-beat_services,
}
use grin_with_golang.Prelude.{
  List, [], ap, append-nil, append_assoc, arith, inl, inr, map, refl, sym, ℕ, ◌+◌, ◌≤◌, ◌≡◌, ◌∙◌,
  ◌∷◌, ◌++◌, ◌==◌, if◌then◌else◌, Bool-cases, true, subst,
}
use grin_with_golang.Prelude.Filters.{Filters, nil, keep, drop}
use mathlib.Core.Bool.{false≢true}

pub data RegistryCall : Type 0 where
  register_call : ServiceInstance → ℕ → RegistryCall
  heartbeat_call : ℕ → ℕ → RegistryCall
  -- a tick of the health checker
  check_call : ℕ → RegistryCall

unfoldable pub run : ℕ → List RegistryCall → Registry → Registry
run timeout [] r = r
run timeout (register_call inst now ∷ calls) r = run timeout calls (register inst now r)
run timeout (heartbeat_call i now ∷ calls) r = run timeout calls (heartbeat i now r)
run timeout (check_call now ∷ calls) r = run timeout calls (check timeout now r)

-- what later calls make of one instance
unfoldable pub fate : ℕ → List RegistryCall → ServiceInstance → ServiceInstance
fate timeout [] inst = inst
fate timeout (register_call other now ∷ calls) inst = fate timeout calls inst
fate timeout (heartbeat_call i now ∷ calls) inst = fate timeout calls (beat i now inst)
fate timeout (check_call now ∷ calls) inst = fate timeout calls (aged timeout now inst)

-- the instances that are registered under a name, in their order, each with its fate
unfoldable pub registered : ℕ → ℕ → List RegistryCall → List ServiceInstance
registered timeout name [] = []
registered timeout name (register_call inst now ∷ calls) =
    (if inst.name == name
      then fate timeout calls (record inst { healthy = true; last_seen = now }) ∷ []
      else [])
    ++ registered timeout name calls
registered timeout name (heartbeat_call i now ∷ calls) = registered timeout name calls
registered timeout name (check_call now ∷ calls) = registered timeout name calls

-- how often an identifier is registered
unfoldable pub registrations : ℕ → List RegistryCall → ℕ
registrations i [] = 0
registrations i (register_call inst now ∷ calls) =
    (if inst.id == i then 1 else 0) + registrations i calls
registrations i (heartbeat_call j now ∷ calls) = registrations i calls
registrations i (check_call now ∷ calls) = registrations i calls

map-append :
    (f : ServiceInstance → ServiceInstance) (xs ys : List ServiceInstance)
    → map f (xs ++ ys) ≡ map f xs ++ map f ys
map-append f [] ys = refl
map-append f (x ∷ xs) ys = ap (λ zs. f x ∷ zs) (map-append f xs ys)

map-map :
    (f g : ServiceInstance → ServiceInstance) (xs : List ServiceInstance)
    → map f (map g xs) ≡ map (λ x. f (g x)) xs
map-map f g [] = refl
map-map f g (x ∷ xs) = ap (λ zs. f (g x) ∷ zs) (map-map f g xs)

map_same : (xs : List ServiceInstance) → map (λ x. x) xs ≡ xs
map_same [] = refl
map_same (x ∷ xs) = ap (λ zs. x ∷ zs) (map_same xs)

run-lookup :
    (timeout name : ℕ) (calls : List RegistryCall) (r : Registry)
    → ((i : ℕ) → count_all i r.services + registrations i calls ≤ 1)
    → lookup name (run timeout calls r).services
      ≡ map (fate timeout calls) (lookup name r.services) ++ registered timeout name calls
unfolding run fate registered registrations register heartbeat check seen
run-lookup timeout name [] r few = sym (append-nil _ ∙ map_same _)
run-lookup timeout name (register_call inst now ∷ calls) r few =
    let es = r.services in
    let later = fate timeout calls in
    let rest = registered timeout name calls in
    run-lookup timeout name calls (register inst now r) (λ i.
      let h = few i in let c = count_all-append_to i inst.name (seen now inst) es in ground arith)
    ∙ ap (λ xs. map (fate timeout calls) xs ++ registered timeout name calls)
        (lookup-append_to name inst.name (seen now inst) es)
    ∙ elim (Bool-cases (inst.name == name)) [
      | inl same ↦ rw same (
          ap (λ xs. xs ++ rest) (map-append later (lookup name es) (seen now inst ∷ []))
          ∙ append_assoc (map later (lookup name es)) (later (seen now inst) ∷ []) rest)
      | inr other ↦ rw other (ap (λ xs. map later xs ++ rest) (append-nil (lookup name es)))
    ]
run-lookup timeout name (heartbeat_call i now ∷ calls) r few =
    let es = r.services in
    let once : count_all i es ≤ 1 = let h = few i in omega arith in
    run-lookup timeout name calls (heartbeat i now r)
      (λ j. let h = few j in let c = count_all-beat_services i now j es once in omega arith)
    ∙ ap (λ xs. map (fate timeout calls) xs ++ registered timeout name calls)
        (lookup-beat_services i now name es once)
    ∙ ap (λ xs. xs ++ registered timeout name calls)
        (map-map (fate timeout calls) (beat i now) (lookup name es))
run-lookup timeout name (check_call now ∷ calls) r few =
    let es = r.services in
    run-lookup timeout name calls (check timeout now r)
      (λ i. let h = few i in let c = count_all-check_services timeout now i es in omega arith)
    ∙ ap (λ xs. map (fate timeout calls) xs ++ registered timeout name calls)
        (lookup-check_services timeout now name es)
    ∙ ap (λ xs. xs ++ registered timeout name calls)
        (map-map (fate timeout calls) (aged timeout now) (lookup name es))

healthy_of-Filters :
    (insts : List ServiceInstance) → Filters (λ inst. inst.healthy ≡ true) insts (healthy_of insts)
unfolding healthy_of
healthy_of-Filters [] = nil
healthy_of-Filters (inst ∷ insts) =
    let rest = healthy_of insts in
    elim (Bool-cases inst.healthy) [
      | inl up ↦
          subst
            (λ b. Filters (λ i. i.healthy ≡ true) (inst ∷ insts) (if b then inst ∷ rest else rest))
            (sym up) (keep up (healthy_of-Filters insts))
      | inr down ↦
          subst
            (λ b. Filters (λ i. i.healthy ≡ true) (inst ∷ insts) (if b then inst ∷ rest else rest))
            (sym down) (drop (λ up. false≢true (sym down ∙ up)) (healthy_of-Filters insts))
    ]

-- Where no identifier is registered twice, after every history of registrations, heartbeats and ticks of
-- the health checker Discover returns the instances that were registered under the name, in the order
-- of their registration, each with the writes of its own heartbeats and of the ticks since, and of
-- these just those that are healthy.
pub run-discover :
    (timeout name : ℕ) (calls : List RegistryCall)
    → ((i : ℕ) → registrations i calls ≤ 1)
    → Filters
        (λ inst. inst.healthy ≡ true)
        (registered timeout name calls)
        (discover name (run timeout calls new))
unfolding count_all lookup
run-discover timeout name calls once =
    let all = run-lookup timeout name calls new (λ i. let h = once i in omega arith) in
    subst
      (λ insts.
        Filters (λ inst. inst.healthy ≡ true) (registered timeout name calls) (healthy_of insts))
      (sym all) (healthy_of-Filters (registered timeout name calls))
