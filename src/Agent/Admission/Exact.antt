-- ===== src/Agent/Admission/Exact.antt =====
-- The tests of an admission, which saturate, decide the exact conditions.
use podmesh.Prelude.{
  ◌∙◌, sym, refl, ◌*◌, ◌∷◌, min, ℕ, ◌+◌, ◌≤◌, ◌<◌, ◌≡◌, ◌↔◌, true, false, List, [], length, arith,
}
use podmesh.Map.{size, total}
use podmesh.Protocol.Messages.{AdmissionRequest}
use podmesh.Agent.Usage.{plus, fits_within}
use podmesh.Agent.State.{
  scale, Config, WorkloadState, usage, reservations_for, contains_workload,
  reserved_capacity_ceiling, of_reservation,
}
use podmesh.Agent.Capacity.{
  IsSound, Committed, cpu_promised, memory_promised, storage_promised, cpu_usage, memory_usage,
  storage_usage, cpu_reserved_usage, memory_reserved_usage, storage_reserved_usage,
}
use podmesh.Agent.Admission.{◌∷◌, Checks, checks, is_accepted, is_empty}

-- When an admission ought to be accepted: the state is known, the workload is new, there is a free
-- slot, and everything promised still fits with the request on top, in exact arithmetic.
pub record Admissible (c : Config) (s : WorkloadState) (q : AdmissionRequest) : Type 0 where
  pub reliable : s.quarantined ≡ []
  pub new : contains_workload s q.workload_id ≡ false
  pub slot : size s.active + size s.reservations < c.max_workloads
  pub reservation_slot : size s.reservations < 1024
  pub namespace_slot : reservations_for s q.namespace_id < 16
  pub cpu : cpu_promised s + q.cpu_milli ≤ c.capacity_cpu_milli
  pub memory : memory_promised s + q.memory_bytes ≤ c.capacity_memory_bytes
  pub storage : storage_promised s + q.storage_bytes ≤ c.capacity_storage_bytes
  pub reserved_cpu :
      total of_reservation.cpu s.reservations + q.cpu_milli
      ≤ (reserved_capacity_ceiling c).cpu_milli
  pub reserved_memory :
      total of_reservation.memory s.reservations + q.memory_bytes
      ≤ (reserved_capacity_ceiling c).memory_bytes
  pub reserved_storage :
      total of_reservation.storage s.reservations + q.storage_bytes
      ≤ (reserved_capacity_ceiling c).storage_bytes

scale-le : (share capacity : ℕ) → share ≤ 100 → scale share capacity ≤ capacity
unfolding scale
scale-le share capacity h =
    let product : capacity * share ≤ capacity * 100 = grind arith in omega arith

pub ceiling_bounds :
    (c : Config)
    → ((reserved_capacity_ceiling c).cpu_milli ≤ c.capacity_cpu_milli)
      × ((reserved_capacity_ceiling c).memory_bytes ≤ c.capacity_memory_bytes)
      × ((reserved_capacity_ceiling c).storage_bytes ≤ c.capacity_storage_bytes)
unfolding reserved_capacity_ceiling
ceiling_bounds c =
    let share = min c.max_reserved_capacity_percent 100 in
    (
      scale-le share c.capacity_cpu_milli (omega arith),
      scale-le share c.capacity_memory_bytes (omega arith),
      scale-le share c.capacity_storage_bytes (omega arith),
    )

is_empty-eq : {A : Type 0} (xs : List A) → is_empty xs ≡ true → xs ≡ []
is_empty-eq [] h = refl
is_empty-eq (x ∷ xs) h = cc

pub is_accepted_lem :
    (k : Checks)
    → (is_accepted k ≡ true) ↔ (
        (k.state_reliable ≡ true)
        × (k.duplicate ≡ false)
        × (k.count_available ≡ true)
        × (k.reservation_available ≡ true)
        × (k.capacity_ok ≡ true)
        × (k.reservation_capacity_ok ≡ true))
unfolding is_accepted
is_accepted_lem k = (λ h. ground arith, λ h. ground arith)

module _ (c : Config) (s : WorkloadState) (q : AdmissionRequest) (sound : IsSound c)
    (h : Committed c s) where
  capacity_exact : (checks c s q).capacity_ok ≡ true ↔ (
      (cpu_promised s + q.cpu_milli ≤ c.capacity_cpu_milli)
      × (memory_promised s + q.memory_bytes ≤ c.capacity_memory_bytes)
      × (storage_promised s + q.storage_bytes ≤ c.capacity_storage_bytes))
  unfolding checks fits_within plus
  capacity_exact =
      let cpu : (usage s).cpu_milli ≡ cpu_promised s = cpu_usage s (omega arith) in
      (
        λ e. ground (arith, cpu, memory_usage s, storage_usage s),
        λ e. ground (arith, cpu, memory_usage s, storage_usage s),
      )

  reservation_capacity_exact : (checks c s q).reservation_capacity_ok ≡ true ↔ (
      (total of_reservation.cpu s.reservations + q.cpu_milli
        ≤ (reserved_capacity_ceiling c).cpu_milli)
      × (total of_reservation.memory s.reservations + q.memory_bytes
          ≤ (reserved_capacity_ceiling c).memory_bytes)
      × (total of_reservation.storage s.reservations + q.storage_bytes
          ≤ (reserved_capacity_ceiling c).storage_bytes))
  unfolding checks fits_within plus
  reservation_capacity_exact =
      let (a, b, d) = ceiling_bounds c in
      (
        λ e.
            ground (arith, cpu_reserved_usage s, memory_reserved_usage s, storage_reserved_usage s),
        λ e.
            ground (arith, cpu_reserved_usage s, memory_reserved_usage s, storage_reserved_usage s),
      )

  slots_exact :
      s.quarantined ≡ []
      → ((checks c s q).count_available ≡ true)
        ↔ (size s.active + size s.reservations < c.max_workloads)
  unfolding checks
  slots_exact e =
      let none_lost : length s.quarantined ≡ 0 = rw e in (λ t. ground arith, λ t. ground arith)

  reservations_exact :
      ((checks c s q).reservation_available ≡ true)
      ↔ ((size s.reservations < 1024) × (reservations_for s q.namespace_id < 16))
  unfolding checks
  reservations_exact = (λ t. ground arith, λ t. ground arith)

  reliable_exact : ((checks c s q).state_reliable ≡ true) ↔ (s.quarantined ≡ [])
  unfolding checks
  reliable_exact = (is_empty-eq s.quarantined, λ e. rw e)

  duplicate_exact : (checks c s q).duplicate ≡ contains_workload s q.workload_id
  unfolding checks
  duplicate_exact = refl

  -- On a committed state under a sound configuration, the saturating tests accept a request
  -- exactly when it is admissible in exact arithmetic.
  pub accepted-Admissible : (is_accepted (checks c s q) ≡ true) ↔ Admissible c s q
  accepted-Admissible = (forward, backward)
    where
      forward : is_accepted (checks c s q) ≡ true → Admissible c s q
      forward t =
          let (reliable, new, counted, room, fits, fits_share) =
            (is_accepted_lem (checks c s q)).0 t in
          let empty : s.quarantined ≡ [] = reliable_exact.0 reliable in
          let (few, mine) = reservations_exact.0 room in
          let (cpu, memory, storage) = capacity_exact.0 fits in
          let (rcpu, rmemory, rstorage) = reservation_capacity_exact.0 fits_share in
          record {
            reliable = empty;
            new = sym duplicate_exact ∙ new;
            slot = (slots_exact empty).0 counted;
            reservation_slot = few;
            namespace_slot = mine;
            cpu = cpu;
            memory = memory;
            storage = storage;
            reserved_cpu = rcpu;
            reserved_memory = rmemory;
            reserved_storage = rstorage;
          }

      backward : Admissible c s q → is_accepted (checks c s q) ≡ true
      backward a = (is_accepted_lem (checks c s q)).1 (
        reliable_exact.1 a.reliable,
        duplicate_exact ∙ a.new,
        (slots_exact a.reliable).1 a.slot,
        reservations_exact.1 (a.reservation_slot, a.namespace_slot),
        capacity_exact.1 (a.cpu, a.memory, a.storage),
        reservation_capacity_exact.1 (a.reserved_cpu, a.reserved_memory, a.reserved_storage),
      )
