-- ===== src/Scheduler/Location.antt =====
-- Which scheduler holds an agent (`LocationRegistry` of podmesh-scheduler/src/machine/location.rs).
-- The clock is an argument, in seconds, and so is the bound on the cache, which is 16384 there.
pub mod Eviction
pub mod Tests
use podmesh.Prelude.{
  ℕ, ◌-◌, ◌≡◌, Bool, true, false, String, Option, none, some, List, [], ◌∷◌, ◌++◌, ◌==◌, nat_eq,
  string_eq, list_eq, if◌then◌else◌, ltb, length, Result, ok, err, ensure, is_some,
}
use podmesh.Map.{Map, size, get, contains_key, insert, remove}
use podmesh.Scheduler.Offers.{EndpointId}

abbrev location_cache_ttl : ℕ
location_cache_ttl = 60

abbrev max_pending_locations : ℕ
max_pending_locations = 1024

pub record CachedLocation : Type 0 where
  pub holder : EndpointId
  pub learned_at : ℕ

-- `pending` has the value that each watch channel was last sent.
pub record LocationState : Type 0 where
  pub cache : Map EndpointId CachedLocation
  pub order : List EndpointId
  pub pending : Map String (Option EndpointId)

fresh_holder : ℕ → Option CachedLocation → Option EndpointId
fresh_holder now none = none
fresh_holder now (some c) =
    if ltb (now - c.learned_at) location_cache_ttl then some c.holder else none

pub cached : ℕ → EndpointId → LocationState → Option EndpointId
unfolding fresh_holder
cached now agent s = fresh_holder now (get s.cache agent)

-- The loop that drops the oldest agents.
pub trim :
    ℕ
    → Map String (Option EndpointId)
    → Map EndpointId CachedLocation
    → List EndpointId
    → LocationState
trim limit pending cache [] = record { cache = cache; order = []; pending = pending }
trim limit pending cache (oldest ∷ order) =
    let rest = trim limit pending (remove cache oldest) order in
    if ltb limit (length (oldest ∷ order))
    then rest
    else record { cache = cache; order = oldest ∷ order; pending = pending }

-- A new agent is queued, a known one stays where it is.
queue : EndpointId → LocationState → List EndpointId
queue agent s = if contains_key s.cache agent then s.order else s.order ++ agent ∷ []

pub remember : ℕ → ℕ → EndpointId → EndpointId → LocationState → LocationState
unfolding trim queue
remember limit now agent holder s =
    trim limit s.pending (insert s.cache agent (record { holder = holder; learned_at = now }))
      (queue agent s)

pub forget : EndpointId → LocationState → LocationState
forget agent s = record s { cache = remove s.cache agent }

pub begin : String → LocationState → LocationState × Result (Unit {0})
begin query_id s =
    if ltb (size s.pending) max_pending_locations
    then (record s { pending = insert s.pending query_id none }, ok tt)
    else (s, err "scheduler pending-location limit reached")

-- An answer to a query that is not pending is dropped.
pub resolve : ℕ → ℕ → String → EndpointId → EndpointId → LocationState → LocationState
unfolding remember
resolve limit now query_id agent holder s =
    if contains_key s.pending query_id
    then remember limit now agent holder
        (record s { pending = insert s.pending query_id (some holder) })
    else s

pub finish : String → LocationState → LocationState
finish query_id s = record s { pending = remove s.pending query_id }
