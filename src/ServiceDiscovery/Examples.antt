-- ===== src/ServiceDiscovery/Examples.antt =====
-- Two instances of one service and one of another; the second stops its heartbeats.
use grin_with_golang.ServiceDiscovery.{
  ServiceInstance, new, lookup, append_to, seen, register, healthy_of, discover, heartbeat, expire,
  check, beat_services, beat_instances, check_services, round_robin, ℕ, List, ◌≡◌, ◌∷◌,
}
use grin_with_golang.ServiceDiscovery.Histories.{
  RegistryCall, register_call, heartbeat_call, check_call, run, registered, registrations,
  run-discover,
}
use grin_with_golang.Prelude.Integers.{pos}
use grin_with_golang.Prelude.{◌≡◌, ◌∷◌, List, [], arith, false, refl, some, ℕ, ◌-◌, ◌≤◌, true}
use grin_with_golang.Prelude.Filters.{Filters}

abbrev instance_of : ℕ → ℕ → ℕ → ServiceInstance
instance_of id name address = record {
  id = id;
  name = name;
  address = address;
  port = pos 8080;
  healthy = false;
  last_seen = 0;
}

abbrev calls : List RegistryCall
calls =
    register_call (instance_of 1 7 101) 0
    ∷ register_call (instance_of 2 7 102) 1
    ∷ register_call (instance_of 3 8 103) 2
    ∷ heartbeat_call 1 10
    ∷ heartbeat_call 3 11
    ∷ check_call 15
    ∷ []

registered_once : (i : ℕ) → registrations i calls ≤ 1
unfolding registrations
registered_once i = ground arith

run-discover_example :
    Filters (λ inst. inst.healthy ≡ true) (registered 10 7 calls) (discover 7 (run 10 calls new))
run-discover_example = run-discover 10 7 calls registered_once

-- A second registration of an identifier gets none of its heartbeats: the entry of the first address
-- stays healthy, and the new one expires.
registered_twice :
    discover 7 (
      run 10
        (register_call (instance_of 1 7 101) 0
          ∷ register_call (instance_of 1 7 199) 1
          ∷ heartbeat_call 1 10
          ∷ heartbeat_call 1 20
          ∷ check_call 21
          ∷ [])
        new)
    ≡ seen 20 (instance_of 1 7 101) ∷ []
unfolding run register append_to lookup seen heartbeat beat_services beat_instances check
    check_services expire healthy_of
registered_twice = refl

last_of_three :
    round_robin (λ n. n - 1) (instance_of 1 7 101 ∷ instance_of 2 7 102 ∷ [])
    ≡ some (instance_of 2 7 102)
unfolding round_robin
last_of_three = refl
