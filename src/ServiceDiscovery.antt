-- ===== src/ServiceDiscovery.antt =====
-- The registry of src/10_distributed/01_service_discovery/main.go.
-- Names, identifiers and addresses are only compared: numbers stand for these strings. The map of
-- services is a list of entries, whose order stands for the order of a range over the map. An instance is registered
-- under one pointer once, so the lists hold the instances themselves. A call reads the clock under the
-- lock, and its reading is an argument.
pub mod Instances
pub mod Histories
mod Examples
use grin_with_golang.Prelude.{
  ◌≡◌, Bool, List, Option, [], false, none, not, refl, some, true, ℕ, ◌∷◌, ◌++◌, ◌>>=◌,
  if◌then◌else◌, ◌==◌, ltb, ◌-◌, ◌+◌, length, get_elem?, ◌&&◌, map,
}
use grin_with_golang.Prelude.Integers.{ℤ}

pub record ServiceInstance : Type 0 where
  pub id : ℕ
  pub name : ℕ
  pub address : ℕ
  pub port : ℤ
  pub healthy : Bool
  pub last_seen : ℕ

pub record Registry : Type 0 where
  pub services : List (ℕ × List ServiceInstance)

abbrev pub new : Registry
new = record { services = [] }

-- `services[name]`, nil where it is missing
unfoldable pub lookup : ℕ → List (ℕ × List ServiceInstance) → List ServiceInstance
lookup name [] = []
lookup name (e ∷ es) = if e.0 == name then e.1 else lookup name es

-- `services[name] = append(services[name], inst)`
unfoldable pub append_to :
    ℕ → ServiceInstance → List (ℕ × List ServiceInstance) → List (ℕ × List ServiceInstance)
append_to name inst [] = (name, inst ∷ []) ∷ []
append_to name inst (e ∷ es) =
    if e.0 == name then (e.0, e.1 ++ inst ∷ []) ∷ es else e ∷ append_to name inst es

-- the writes of a registration and of a heartbeat: healthy, and seen now
unfoldable pub seen : ℕ → ServiceInstance → ServiceInstance
seen now inst = record inst { healthy = true; last_seen = now }

unfoldable pub register : ServiceInstance → ℕ → Registry → Registry
register inst now r = record { services = append_to inst.name (seen now inst) r.services }

unfoldable pub healthy_of : List ServiceInstance → List ServiceInstance
healthy_of [] = []
healthy_of (inst ∷ insts) =
    let rest = healthy_of insts in if inst.healthy then inst ∷ rest else rest

abbrev pub discover : ℕ → Registry → List ServiceInstance
discover name r = healthy_of (lookup name r.services)

-- the loops of `Heartbeat`, with whether they returned
unfoldable pub beat_instances : ℕ → ℕ → List ServiceInstance → List ServiceInstance × Bool
beat_instances i now [] = ([], false)
beat_instances i now (inst ∷ insts) =
    let (rest, found) = beat_instances i now insts in
    if inst.id == i then (seen now inst ∷ insts, true) else (inst ∷ rest, found)

unfoldable pub beat_services :
    ℕ → ℕ → List (ℕ × List ServiceInstance) → List (ℕ × List ServiceInstance)
beat_services i now [] = []
beat_services i now (e ∷ es) =
    let (insts, found) = beat_instances i now e.1 in
    let rest = beat_services i now es in (e.0, insts) ∷ (if found then es else rest)

unfoldable pub heartbeat : ℕ → ℕ → Registry → Registry
heartbeat i now r = record { services = beat_services i now r.services }

-- one instance at a tick of the health checker
unfoldable pub expire : ℕ → ℕ → ServiceInstance → ServiceInstance
expire timeout now inst =
    if inst.healthy && ltb timeout (now - inst.last_seen)
    then record inst { healthy = false }
    else inst

unfoldable pub check_services :
    ℕ → ℕ → List (ℕ × List ServiceInstance) → List (ℕ × List ServiceInstance)
check_services timeout now [] = []
check_services timeout now (e ∷ es) =
    (e.0, map (expire timeout now) e.1) ∷ check_services timeout now es

unfoldable pub check : ℕ → ℕ → Registry → Registry
check timeout now r = record { services = check_services timeout now r.services }

-- `rand.Intn(n)` is a parameter
unfoldable pub round_robin : (ℕ → ℕ) → List ServiceInstance → Option ServiceInstance
round_robin intn insts = if length insts == 0 then none else get_elem? insts (intn (length insts))
