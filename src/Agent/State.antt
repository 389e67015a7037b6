-- ===== src/Agent/State.antt =====
-- Stored workloads, `WorkloadState` and the resources that it commits
-- (podmesh-agent/src/store.rs, podmesh-agent/src/service.rs, podmesh-agent/src/config.rs).
use podmesh.Prelude.{
  ℕ, ◌*◌, ◌/◌, String, Bool, true, false, not, ◌||◌, List, [], ◌∷◌, ◌==◌, string_eq, leb, min, elem,
  u32_max, u64_max,
}
use podmesh.Map.{Map, size, contains_key, retain_entries}
use podmesh.Protocol.Messages.{Reservation, DeploymentGrant, UpdateRequest}
use podmesh.Agent.Usage.{ResourceUsage, no_usage, plus, Charged, add_all}

pub data StoredWorkloadPhase : Type 0 where
  active : StoredWorkloadPhase
  updating : DeploymentGrant → String → UpdateRequest → StoredWorkloadPhase
  creating : StoredWorkloadPhase
  cleanup_pending : Bool → StoredWorkloadPhase

pub record StoredWorkload : Type 0 where
  pub version : ℕ
  pub phase : StoredWorkloadPhase
  pub grant : DeploymentGrant
  pub runtime_id : String
  pub deleting : Bool
  pub cpu_milli : ℕ
  pub memory_bytes : ℕ
  pub storage_bytes : ℕ
  pub workload_name : String
  pub replica_index : ℕ
  pub replica_count : ℕ

unfoldable pub phase_needs_cleanup : StoredWorkloadPhase → String → Bool
phase_needs_cleanup creating runtime_id = true
phase_needs_cleanup (cleanup_pending uncertain) runtime_id = true
phase_needs_cleanup active runtime_id = runtime_id == ""
phase_needs_cleanup (updating g r u) runtime_id = false

unfoldable pub needs_cleanup : StoredWorkload → Bool
unfolding phase_needs_cleanup
needs_cleanup w = phase_needs_cleanup w.phase w.runtime_id

-- The limits that an operator configures.
pub record Config : Type 0 where
  pub capacity_cpu_milli : ℕ
  pub capacity_memory_bytes : ℕ
  pub capacity_storage_bytes : ℕ
  pub max_workloads : ℕ
  pub max_reserved_capacity_percent : ℕ

pub record WorkloadState : Type 0 where
  pub active : Map String StoredWorkload
  pub reservations : Map String Reservation
  pub quarantined : List String

abbrev pub of_workload : Charged StoredWorkload
of_workload = record {
  cpu = λ w. w.cpu_milli;
  memory = λ w. w.memory_bytes;
  storage = λ w. w.storage_bytes;
}

abbrev pub of_reservation : Charged Reservation
of_reservation = record {
  cpu = λ r. r.cpu_milli;
  memory = λ r. r.memory_bytes;
  storage = λ r. r.storage_bytes;
}

unfoldable pub active_usage : WorkloadState → ResourceUsage
active_usage s = add_all of_workload no_usage s.active

unfoldable pub reserved_usage : WorkloadState → ResourceUsage
reserved_usage s = add_all of_reservation no_usage s.reservations

-- The processor share of the reservations is cut to a u32.
unfoldable pub usage : WorkloadState → ResourceUsage
unfolding active_usage reserved_usage plus
usage s =
    let reserved = reserved_usage s in
    plus (active_usage s) (min reserved.cpu_milli u32_max) reserved.memory_bytes
      reserved.storage_bytes

-- The active workloads but one.
abbrev pub others : String → Map String StoredWorkload → Map String StoredWorkload
others workload_id = retain_entries (λ id w. not (id == workload_id))

unfoldable pub usage_without : WorkloadState → String → ResourceUsage
unfolding reserved_usage
usage_without s workload_id = add_all of_workload (reserved_usage s) (others workload_id s.active)

unfoldable pub reservations_for : WorkloadState → String → ℕ
reservations_for s namespace_id =
    size (retain_entries (λ id r. r.namespace_id == namespace_id) s.reservations)

-- Some reservation is for this workload.
unfoldable pub reserved_workload : String → Map String Reservation → Bool
reserved_workload workload_id [] = false
reserved_workload workload_id ((id, r) ∷ m) =
    (r.workload_id == workload_id) || reserved_workload workload_id m

unfoldable pub contains_workload : WorkloadState → String → Bool
unfolding reserved_workload
contains_workload s workload_id =
    contains_key s.active workload_id
    || elem workload_id s.quarantined
    || reserved_workload workload_id s.reservations

-- `state.reservations.retain(|_, value| value.expires_at_secs >= now)`
unfoldable pub drop_expired : ℕ → WorkloadState → WorkloadState
drop_expired now s = record s {
  reservations = retain_entries (λ id r. leb now r.expires_at_secs) s.reservations;
}

unfoldable pub scale : ℕ → ℕ → ℕ
scale share capacity = min (capacity * share / 100) u64_max

unfoldable pub reserved_capacity_ceiling : Config → ResourceUsage
unfolding scale
reserved_capacity_ceiling c =
    let share = min c.max_reserved_capacity_percent 100 in
    record {
      cpu_milli = scale share c.capacity_cpu_milli;
      memory_bytes = scale share c.capacity_memory_bytes;
      storage_bytes = scale share c.capacity_storage_bytes;
    }
