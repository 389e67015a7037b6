-- ===== src/Agent/Capacity.antt =====
-- The resources that an agent has promised: the running workloads and the reservations together.
pub mod Moves
use podmesh.Prelude.{
  string_eq, ◌==◌, ℕ, ◌+◌, ◌*◌, ◌/◌, ◌≤◌, ◌<◌, ◌≡◌, String, Bool, List, length, leb, min, u32_max,
  u64_max, arith,
}
use podmesh.Map.{Map, size, total, UniqueKeys, retain_entries}
use podmesh.Map.Laws.{retain_entries-UniqueKeys}
use podmesh.Map.Totals.{total-retain_entries-le, size-retain_entries-le, size-retain_entries-retain}
use podmesh.Protocol.Messages.{Reservation}
use podmesh.Agent.Usage.{
  ResourceUsage, no_usage, plus, add_all, cpu_add_all, memory_add_all, storage_add_all,
}
use podmesh.Agent.State.{
  Config, WorkloadState, StoredWorkload, of_workload, of_reservation, active_usage, reserved_usage,
  usage, drop_expired, reserved_capacity_ceiling, reservations_for,
}

-- The configured numbers fit the integers that hold them, and the byte capacities and the workload
-- limit are not the largest u64, at which saturating sums can hide an overflow.
pub record IsSound (c : Config) : Type 0 where
  pub cpu : c.capacity_cpu_milli ≤ u32_max
  pub memory : c.capacity_memory_bytes < u64_max
  pub storage : c.capacity_storage_bytes < u64_max
  pub slots : c.max_workloads < u64_max

-- The true sums, which no addition cuts off.
abbrev pub cpu_promised : WorkloadState → ℕ
cpu_promised s = total of_workload.cpu s.active + total of_reservation.cpu s.reservations

abbrev pub memory_promised : WorkloadState → ℕ
memory_promised s = total of_workload.memory s.active + total of_reservation.memory s.reservations

abbrev pub storage_promised : WorkloadState → ℕ
storage_promised s =
    total of_workload.storage s.active + total of_reservation.storage s.reservations

-- Nothing is promised twice: all promises together fit the machine, the reservations fit their own
-- share, and the counts are within their limits.
pub record Committed (c : Config) (s : WorkloadState) : Type 0 where
  pub unique_active : UniqueKeys s.active
  pub unique_reservations : UniqueKeys s.reservations
  pub cpu : cpu_promised s ≤ c.capacity_cpu_milli
  pub memory : memory_promised s ≤ c.capacity_memory_bytes
  pub storage : storage_promised s ≤ c.capacity_storage_bytes
  pub reserved_cpu :
      total of_reservation.cpu s.reservations ≤ (reserved_capacity_ceiling c).cpu_milli
  pub reserved_memory :
      total of_reservation.memory s.reservations ≤ (reserved_capacity_ceiling c).memory_bytes
  pub reserved_storage :
      total of_reservation.storage s.reservations ≤ (reserved_capacity_ceiling c).storage_bytes
  pub slots : size s.active + size s.reservations + length s.quarantined ≤ c.max_workloads
  pub reservation_count : size s.reservations ≤ 1024
  pub per_namespace : (namespace_id : String) → reservations_for s namespace_id ≤ 16

module _ (s : WorkloadState) where
  pub cpu_reserved_usage :
      (reserved_usage s).cpu_milli ≡ min (total of_reservation.cpu s.reservations) u64_max
  unfolding reserved_usage
  cpu_reserved_usage =
      omega (arith, cpu_add_all of_reservation no_usage s.reservations (omega arith))

  pub memory_reserved_usage :
      (reserved_usage s).memory_bytes ≡ min (total of_reservation.memory s.reservations) u64_max
  unfolding reserved_usage
  memory_reserved_usage =
      omega (arith, memory_add_all of_reservation no_usage s.reservations (omega arith))

  pub storage_reserved_usage :
      (reserved_usage s).storage_bytes ≡ min (total of_reservation.storage s.reservations) u64_max
  unfolding reserved_usage
  storage_reserved_usage =
      omega (arith, storage_add_all of_reservation no_usage s.reservations (omega arith))

  pub cpu_usage : cpu_promised s ≤ u32_max → (usage s).cpu_milli ≡ cpu_promised s
  unfolding usage
  cpu_usage h =
      omega (arith, cpu_reserved_usage, cpu_add_all of_workload no_usage s.active (omega arith))

  pub memory_usage : (usage s).memory_bytes ≡ min (memory_promised s) u64_max
  unfolding usage
  memory_usage =
      omega
        (arith, memory_reserved_usage, memory_add_all of_workload no_usage s.active (omega arith))

  pub storage_usage : (usage s).storage_bytes ≡ min (storage_promised s) u64_max
  unfolding usage
  storage_usage =
      omega
        (arith, storage_reserved_usage, storage_add_all of_workload no_usage s.active (omega arith))

-- Dropping expired reservations keeps every promise within its limit.
pub drop_expired-Committed :
    (c : Config) (now : ℕ) (s : WorkloadState) → Committed c s → Committed c (drop_expired now s)
unfolding drop_expired reservations_for
drop_expired-Committed c now s h = record {
  unique_active = h.unique_active;
  unique_reservations = retain_entries-UniqueKeys live s.reservations h.unique_reservations;
  cpu = omega (arith, h.cpu, shrinks of_reservation.cpu);
  memory = omega (arith, h.memory, shrinks of_reservation.memory);
  storage = omega (arith, h.storage, shrinks of_reservation.storage);
  reserved_cpu = omega (arith, h.reserved_cpu, shrinks of_reservation.cpu);
  reserved_memory = omega (arith, h.reserved_memory, shrinks of_reservation.memory);
  reserved_storage = omega (arith, h.reserved_storage, shrinks of_reservation.storage);
  slots = omega (arith, h.slots, size-retain_entries-le live s.reservations);
  reservation_count =
      omega (arith, h.reservation_count, size-retain_entries-le live s.reservations);
  per_namespace = λ n. omega (
    arith,
    h.per_namespace n,
    size-retain_entries-retain (λ id r. r.namespace_id == n) live s.reservations,
  );
}
  where
    live : String → Reservation → Bool
    live id r = leb now r.expires_at_secs

    shrinks :
        (f : Reservation → ℕ)
        → total f (retain_entries live s.reservations) ≤ total f s.reservations
    shrinks f = total-retain_entries-le f live s.reservations
