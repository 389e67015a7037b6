-- ===== src/Agent/Capacity/Moves.antt =====
-- Changes of the workload state that keep an agent's promises within its limits.
use podmesh.Prelude.{◌==◌, ℕ, ◌+◌, ◌≤◌, ◌≡◌, String, none, some, arith, string_eq}
use podmesh.Map.{total, get, insert, remove}
use podmesh.Map.Laws.{insert-UniqueKeys, remove-UniqueKeys}
use podmesh.Map.Totals.{
  total-insert_old, size-insert_old, total-insert_new, size-insert_new, total-remove, size-remove,
  total-remove-le, size-remove-le, size-retain_entries-remove,
}
use podmesh.Protocol.Messages.{Reservation}
use podmesh.Agent.State.{
  Config, WorkloadState, StoredWorkload, of_workload, of_reservation, reservations_for,
}
use podmesh.Agent.Capacity.{Committed}

-- `v` uses no more than `w`.
pub record NoMore (v w : StoredWorkload) : Type 0 where
  pub cpu : v.cpu_milli ≤ w.cpu_milli
  pub memory : v.memory_bytes ≤ w.memory_bytes
  pub storage : v.storage_bytes ≤ w.storage_bytes

module _ (c : Config) (s : WorkloadState) (h : Committed c s) where
  -- A record is replaced by one that uses no more.
  pub replace-Committed :
      (id : String) (v w : StoredWorkload)
      → get s.active id ≡ some w
      → NoMore v w
      → Committed c (record s { active = insert s.active id v })
  unfolding reservations_for
  replace-Committed id v w e less = record {
    unique_active = insert-UniqueKeys s.active id v h.unique_active;
    unique_reservations = h.unique_reservations;
    cpu = omega (arith, h.cpu, less.cpu, changed of_workload.cpu);
    memory = omega (arith, h.memory, less.memory, changed of_workload.memory);
    storage = omega (arith, h.storage, less.storage, changed of_workload.storage);
    reserved_cpu = h.reserved_cpu;
    reserved_memory = h.reserved_memory;
    reserved_storage = h.reserved_storage;
    slots = omega (arith, h.slots, size-insert_old s.active id w v h.unique_active e);
    reservation_count = h.reservation_count;
    per_namespace = h.per_namespace;
  }
    where
      changed :
          (f : StoredWorkload → ℕ) → total f (insert s.active id v) + f w ≡ f v + total f s.active
      changed f = total-insert_old f s.active id w v h.unique_active e

  pub remove_active-Committed :
      (id : String) → Committed c (record s { active = remove s.active id })
  unfolding reservations_for
  remove_active-Committed id = record {
    unique_active = remove-UniqueKeys s.active id h.unique_active;
    unique_reservations = h.unique_reservations;
    cpu = omega (arith, h.cpu, total-remove-le of_workload.cpu s.active id);
    memory = omega (arith, h.memory, total-remove-le of_workload.memory s.active id);
    storage = omega (arith, h.storage, total-remove-le of_workload.storage s.active id);
    reserved_cpu = h.reserved_cpu;
    reserved_memory = h.reserved_memory;
    reserved_storage = h.reserved_storage;
    slots = omega (arith, h.slots, size-remove-le s.active id);
    reservation_count = h.reservation_count;
    per_namespace = h.per_namespace;
  }

  pub remove_reservation-Committed :
      (id : String) → Committed c (record s { reservations = remove s.reservations id })
  unfolding reservations_for
  remove_reservation-Committed id = record {
    unique_active = h.unique_active;
    unique_reservations = remove-UniqueKeys s.reservations id h.unique_reservations;
    cpu = omega (arith, h.cpu, shrinks of_reservation.cpu);
    memory = omega (arith, h.memory, shrinks of_reservation.memory);
    storage = omega (arith, h.storage, shrinks of_reservation.storage);
    reserved_cpu = omega (arith, h.reserved_cpu, shrinks of_reservation.cpu);
    reserved_memory = omega (arith, h.reserved_memory, shrinks of_reservation.memory);
    reserved_storage = omega (arith, h.reserved_storage, shrinks of_reservation.storage);
    slots = omega (arith, h.slots, size-remove-le s.reservations id);
    reservation_count = omega (arith, h.reservation_count, size-remove-le s.reservations id);
    per_namespace = λ n. omega (
      arith,
      h.per_namespace n,
      size-retain_entries-remove (λ (k : String) (x : Reservation). x.namespace_id == n)
          s.reservations id,
    );
  }
    where
      shrinks : (f : Reservation → ℕ) → total f (remove s.reservations id) ≤ total f s.reservations
      shrinks f = total-remove-le f s.reservations id

  -- A reservation turns into a workload that uses what was reserved.
  pub deploy-Committed :
      (id workload_id : String) (r : Reservation) (w : StoredWorkload)
      → get s.reservations id ≡ some r
      → get s.active workload_id ≡ none
      → w.cpu_milli ≡ r.cpu_milli
      → w.memory_bytes ≡ r.memory_bytes
      → w.storage_bytes ≡ r.storage_bytes
      → Committed c (record s {
        active = insert s.active workload_id w;
        reservations = remove s.reservations id;
      })
  unfolding insert reservations_for
  deploy-Committed id workload_id r w e new cpu memory storage = record {
    unique_active = insert-UniqueKeys s.active workload_id w h.unique_active;
    unique_reservations = rest.unique_reservations;
    cpu = omega (arith, h.cpu, cpu, added of_workload.cpu, taken of_reservation.cpu);
    memory = omega (arith, h.memory, memory, added of_workload.memory, taken of_reservation.memory);
    storage =
        omega (arith, h.storage, storage, added of_workload.storage, taken of_reservation.storage);
    reserved_cpu = rest.reserved_cpu;
    reserved_memory = rest.reserved_memory;
    reserved_storage = rest.reserved_storage;
    slots = omega (
      arith,
      h.slots,
      size-remove s.reservations id r h.unique_reservations e,
      size-insert_new s.active workload_id w new,
    );
    reservation_count = rest.reservation_count;
    per_namespace = rest.per_namespace;
  }
    where
      rest : Committed c (record s { reservations = remove s.reservations id })
      rest = remove_reservation-Committed id

      taken :
          (f : Reservation → ℕ) → total f s.reservations ≡ f r + total f (remove s.reservations id)
      taken f = total-remove f s.reservations id r h.unique_reservations e

      added :
          (f : StoredWorkload → ℕ)
          → total f (insert s.active workload_id w) ≡ f w + total f s.active
      added f = total-insert_new f s.active workload_id w new
