-- ===== src/Agent/Update/Charge.antt =====
-- What an update does to the accounting when it starts and when it is committed.
use podmesh.Manifest.{ManifestResources}
use podmesh.Prelude.{◌∙◌, nat_eq, saturating_add}
use podmesh.Prelude.{
  ℕ, ◌+◌, ◌≤◌, ◌≡◌, refl, String, true, false, some, string_eq, eq_lem, Result, ok, err, arith,
  Option-cases, Result-cases, inl, inr, [], ◌∷◌,
}
use podmesh.Map.{Map, get, insert, remove, total, retain_entries}
use podmesh.Map.Laws.{insert-UniqueKeys}
use podmesh.Map.Totals.{total-insert, size-insert_old}
use podmesh.Protocol.Messages.{UpdateRequest}
use podmesh.Agent.Usage.{plus, fits_within, add_all, cpu_add_all, memory_add_all, storage_add_all}
use podmesh.Agent.State.{
  Config, StoredWorkload, WorkloadState, usage_without, reserved_usage, others, of_workload,
  of_reservation, reservations_for,
}
use podmesh.Agent.Capacity.{
  IsSound, Committed, cpu_reserved_usage, memory_reserved_usage, storage_reserved_usage,
}
use podmesh.Agent.Deploy.{ExecutionSpec, Service}
use podmesh.Agent.Update.{
  UpdateStart, already_active, conflict, started, transitioning, update_fits, check_update,
  find_update, record_start, begin_update, is_active,
}

-- The sum over the other workloads is the sum over what is left when this one is removed.
total-others :
    (f : StoredWorkload → ℕ) (m : Map String StoredWorkload) (id : String)
    → total f (others id m) ≡ total f (remove m id)
unfolding total remove retain_entries
total-others f [] id = refl
total-others f ((k, w) ∷ m) id = ground (arith, total-others f m id)

-- What a started update has shown.
pub record Started (c : Config) (q : UpdateRequest) (x : ExecutionSpec) (s : WorkloadState)
    (w t : StoredWorkload) : Type 0 where
  pub found : get s.active q.workload_id ≡ some w
  pub owner : w.grant.namespace_id ≡ q.namespace_id
  pub expected : w.grant.revision_id ≡ q.expected_revision_id
  pub running : w.deleting ≡ false
  pub phase : is_active w.phase ≡ true
  pub name : x.workload_name ≡ w.workload_name
  pub index : x.replica_index ≡ w.replica_index
  pub count : x.replica_count ≡ w.replica_count
  pub fits : update_fits c s q ≡ true
  pub target : t ≡ transitioning q w

pub find_update-Started :
    (c : Config) (q : UpdateRequest) (x : ExecutionSpec) (measured : Result ManifestResources)
    (s : WorkloadState) (w t : StoredWorkload)
    → find_update c q x measured s ≡ ok (started w t)
    → Started c q x s w t
unfolding find_update check_update
find_update-Started c q x measured s w t e = elim (Option-cases (get s.active q.workload_id)) [
  | inl missing ↦ absurd (ground arith)
  | inr (v, found) ↦ record {
    found = ground arith;
    owner = ground (arith, eq_lem v.grant.namespace_id q.namespace_id);
    expected = ground (arith, eq_lem v.grant.revision_id q.expected_revision_id);
    running = ground arith;
    phase = ground arith;
    name = ground (arith, eq_lem x.workload_name v.workload_name);
    index = ground (arith, eq_lem x.replica_index v.replica_index);
    count = ground (arith, eq_lem x.replica_count v.replica_count);
    fits = ground arith;
    target = ground arith;
  }
]

-- The start of an update writes the larger or smaller request in place of the workload.
module _ (c : Config) (q : UpdateRequest) (x : ExecutionSpec) (s : WorkloadState)
    (w t : StoredWorkload) where
  -- Under a sound configuration, an update that passes its saturating test leaves room in exact
  -- arithmetic: what the other workloads and the reservations hold, and the request, are within
  -- each capacity.
  pub fits_exact :
      IsSound c
      → update_fits c s q ≡ true
      → (total of_workload.cpu (remove s.active q.workload_id)
            + total of_reservation.cpu s.reservations
            + q.cpu_milli
          ≤ c.capacity_cpu_milli)
        × (total of_workload.memory (remove s.active q.workload_id)
              + total of_reservation.memory s.reservations
              + q.memory_bytes
            ≤ c.capacity_memory_bytes)
        × (total of_workload.storage (remove s.active q.workload_id)
              + total of_reservation.storage s.reservations
              + q.storage_bytes
            ≤ c.capacity_storage_bytes)
  unfolding update_fits usage_without fits_within plus
  fits_exact sound fits =
      let rest : Map String StoredWorkload = others q.workload_id s.active in
      let cpu : (add_all of_workload (reserved_usage s) rest).cpu_milli
          ≡ saturating_add (reserved_usage s).cpu_milli (total of_workload.cpu rest) =
        cpu_add_all of_workload (reserved_usage s) rest (omega (arith, cpu_reserved_usage s)) in
      let memory : (add_all of_workload (reserved_usage s) rest).memory_bytes
          ≡ saturating_add (reserved_usage s).memory_bytes (total of_workload.memory rest) =
        memory_add_all of_workload (reserved_usage s) rest
          (omega (arith, memory_reserved_usage s)) in
      let storage : (add_all of_workload (reserved_usage s) rest).storage_bytes
          ≡ saturating_add (reserved_usage s).storage_bytes (total of_workload.storage rest) =
        storage_add_all of_workload (reserved_usage s) rest
          (omega (arith, storage_reserved_usage s)) in
      (
        ground
            (arith, cpu, cpu_reserved_usage s, total-others of_workload.cpu s.active q.workload_id),
        ground (
          arith,
          memory,
          memory_reserved_usage s,
          total-others of_workload.memory s.active q.workload_id,
        ),
        ground (
          arith,
          storage,
          storage_reserved_usage s,
          total-others of_workload.storage s.active q.workload_id,
        ),
      )

  -- The update's record takes the place of the workload's.
  begun-Committed :
      IsSound c
      → Committed c s
      → Started c q x s w t
      → Committed c (record s { active = insert s.active q.workload_id t })
  unfolding reservations_for
  begun-Committed sound h u = record {
    unique_active = insert-UniqueKeys s.active q.workload_id t h.unique_active;
    unique_reservations = h.unique_reservations;
    cpu = omega (
      arith,
      (fits_exact sound u.fits).0,
      size_cpu,
      total-insert of_workload.cpu s.active q.workload_id t,
    );
    memory = omega (
      arith,
      (fits_exact sound u.fits).1,
      size_memory,
      total-insert of_workload.memory s.active q.workload_id t,
    );
    storage = omega (
      arith,
      (fits_exact sound u.fits).2,
      size_storage,
      total-insert of_workload.storage s.active q.workload_id t,
    );
    reserved_cpu = h.reserved_cpu;
    reserved_memory = h.reserved_memory;
    reserved_storage = h.reserved_storage;
    slots =
        omega (arith, h.slots, size-insert_old s.active q.workload_id w t h.unique_active u.found);
    reservation_count = h.reservation_count;
    per_namespace = h.per_namespace;
  }
    where
      size_cpu : t.cpu_milli ≡ q.cpu_milli
      size_cpu = unfold transitioning in ground (arith, u.target)

      size_memory : t.memory_bytes ≡ q.memory_bytes
      size_memory = unfold transitioning in ground (arith, u.target)

      size_storage : t.storage_bytes ≡ q.storage_bytes
      size_storage = unfold transitioning in ground (arith, u.target)

-- Under a sound configuration, the start of an update keeps a committed state committed, whatever
-- it answers.
pub begin_update-Committed :
    (c : Config) (q : UpdateRequest) (x : ExecutionSpec) (measured : Result ManifestResources)
    (saved : Result (Unit {0})) (s : Service)
    → IsSound c
    → Committed c s.state
    → Committed c (begin_update c q x measured saved s).0.state
unfolding begin_update
begin_update-Committed c q x measured saved s sound h =
    by_start (find_update c q x measured s.state) refl
  where
    by_start :
        (r : Result UpdateStart)
        → find_update c q x measured s.state ≡ r
        → Committed c (record_start q saved s r).0.state
    by_start (err e) found = unfold record_start in h
    by_start (ok already_active) found = unfold record_start in h
    by_start (ok conflict) found = unfold record_start in h
    by_start (ok (started w t)) found = elim (Result-cases saved) [
      | inr (e, unsaved) ↦ rw (unsaved, record_start) h
      | inl (_, written) ↦
          rw (written, record_start)
            (begun-Committed c q x s.state w t sound h
              (find_update-Started c q x measured s.state w t found))
    ]

-- An update that starts has passed every test, and its record stands in place of the old one.
pub begin_update-Started :
    (c : Config) (q : UpdateRequest) (x : ExecutionSpec) (measured : Result ManifestResources)
    (saved : Result (Unit {0})) (s : Service) (w t : StoredWorkload)
    → (begin_update c q x measured saved s).1 ≡ ok (started w t)
    → Started c q x s.state w t
      × ((begin_update c q x measured saved s).0.state
          ≡ record s.state { active = insert s.state.active q.workload_id t })
unfolding begin_update
begin_update-Started c q x measured saved s w t e =
    by_start (find_update c q x measured s.state) refl e
  where
    by_start :
        (r : Result UpdateStart)
        → find_update c q x measured s.state ≡ r
        → (record_start q saved s r).1 ≡ ok (started w t)
        → Started c q x s.state w t
          × ((record_start q saved s r).0.state
              ≡ record s.state { active = insert s.state.active q.workload_id t })
    by_start (err m) found e' = absurd (unfold record_start in cc)
    by_start (ok already_active) found e' = absurd (unfold record_start in cc)
    by_start (ok conflict) found e' = absurd (unfold record_start in cc)
    by_start (ok (started v u)) found e' = elim (Result-cases saved) [
      | inr (m, unsaved) ↦ absurd (unfold record_start in ground arith)
      | inl (z, written) ↦
          let same : (v ≡ w) × (u ≡ t) =
            unfold record_start in (ground (arith, written), ground (arith, written)) in
          (
            find_update-Started c q x measured s.state w t (found ∙ rw (same.0, same.1) refl),
            rw (written, record_start, same.1) refl,
          )
    ]
