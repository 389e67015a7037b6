-- ===== src/Agent/Admission/Commitment.antt =====
-- An admission keeps the agent's promises within its limits.
use podmesh.Prelude.{
  ℕ, ◌+◌, ◌≤◌, ◌≡◌, String, length, arith, ok, Result-cases, Bool-cases, inl, inr, ◌==◌, string_eq,
  eq_lem,
}
use podmesh.Map.{total, insert}
use podmesh.Map.Laws.{insert-UniqueKeys}
use podmesh.Map.Totals.{total-insert-le, size-insert-le, size-retain_entries-insert}
use podmesh.Protocol.Messages.{AdmissionRequest, Reservation}
use podmesh.Agent.State.{Config, WorkloadState, of_reservation, reservations_for, drop_expired}
use podmesh.Agent.Capacity.{IsSound, Committed, drop_expired-Committed}
use podmesh.Agent.Admission.{
  hold, Checks, Checks, Env, Agent, checks, is_accepted, reservation_for, sign, reserve,
  admit_fresh, admit_once, admit,
}
use podmesh.Agent.Admission.Exact.{Admissible, accepted-Admissible}

-- A reservation asks for what the request asked for, in the name of its namespace.
record Asks (q : AdmissionRequest) (r : Reservation) : Type 0 where
  namespace : r.namespace_id ≡ q.namespace_id
  cpu : r.cpu_milli ≡ q.cpu_milli
  memory : r.memory_bytes ≡ q.memory_bytes
  storage : r.storage_bytes ≡ q.storage_bytes

module _ (c : Config) (q : AdmissionRequest) where
  -- One more reservation that is admissible.
  insert-Committed :
      (s : WorkloadState) (id : String) (r : Reservation)
      → Committed c s
      → Admissible c s q
      → Asks q r
      → Committed c (record s { reservations = insert s.reservations id r })
  unfolding reservations_for
  insert-Committed s id r h a asks = record {
    unique_active = h.unique_active;
    unique_reservations = insert-UniqueKeys s.reservations id r h.unique_reservations;
    cpu = omega (arith, a.cpu, asks.cpu, grows of_reservation.cpu);
    memory = omega (arith, a.memory, asks.memory, grows of_reservation.memory);
    storage = omega (arith, a.storage, asks.storage, grows of_reservation.storage);
    reserved_cpu = omega (arith, a.reserved_cpu, asks.cpu, grows of_reservation.cpu);
    reserved_memory = omega (arith, a.reserved_memory, asks.memory, grows of_reservation.memory);
    reserved_storage =
        omega (arith, a.reserved_storage, asks.storage, grows of_reservation.storage);
    slots =
        let nothing_lost : length s.quarantined ≡ 0 = rw a.reliable in
        omega (arith, a.slot, size-insert-le s.reservations id r);
    reservation_count = omega (arith, a.reservation_slot, size-insert-le s.reservations id r);
    per_namespace = λ n. ground (
      arith,
      h.per_namespace n,
      a.namespace_slot,
      asks.namespace,
      eq_lem r.namespace_id n,
      size-retain_entries-insert (λ (k : String) (x : Reservation). x.namespace_id == n)
          s.reservations id r,
    );
  }
    where
      grows :
          (f : Reservation → ℕ)
          → total f (insert s.reservations id r) ≤ f r + total f s.reservations
      grows f = total-insert-le f s.reservations id r

module _ (env : Env) where
  sign-Asks :
      (fresh_id : String) (q : AdmissionRequest) (k : Checks) (now : ℕ) (r : Reservation)
      → sign env (reservation_for fresh_id q k now) ≡ ok r
      → Asks q r
  unfolding sign reservation_for
  sign-Asks fresh_id q k now r e = record {
    namespace = ground arith;
    cpu = ground arith;
    memory = ground arith;
    storage = ground arith;
  }

  -- An admission leaves the workloads alone.
  pub reserve-active :
      (c : Config) (fresh_id : String) (q : AdmissionRequest) (now : ℕ) (s : WorkloadState)
      → (reserve env c fresh_id q now s).0.active ≡ s.active
  unfolding reserve hold drop_expired
  reserve-active c fresh_id q now s = ground arith

  pub reserve-Committed :
      (c : Config) (fresh_id : String) (q : AdmissionRequest) (now : ℕ) (s : WorkloadState)
      → IsSound c
      → Committed c s
      → Committed c (reserve env c fresh_id q now s).0
  unfolding reserve
  reserve-Committed c fresh_id q now s sound h =
      elim (Result-cases (sign env (reservation_for fresh_id q (checks c kept q) now))) [
        | inr (e, failed) ↦ rw (failed, hold) kept-Committed
        | inl (r, signed) ↦ elim (Bool-cases (is_accepted (checks c kept q))) [
          | inl accepted ↦
              rw (signed, hold, accepted)
                (insert-Committed c q kept r.reservation_id r kept-Committed
                  ((accepted-Admissible c kept q sound kept-Committed).0 accepted)
                  (sign-Asks fresh_id q (checks c kept q) now r signed))
          | inr refused ↦ rw (signed, hold, refused) kept-Committed
        ]
      ]
    where
      kept : WorkloadState
      kept = drop_expired now s

      kept-Committed : Committed c kept
      kept-Committed = drop_expired-Committed c now s h

  -- On an agent whose configuration is sound and whose state is committed within it, the state
  -- after an admission is committed within it too, whatever the admission answers and wherever it
  -- stops.
  pub admit-Committed :
      (fresh_id : String) (q : AdmissionRequest) (now : ℕ) (a : Agent)
      → IsSound a.config
      → Committed a.config a.state
      → Committed a.config (admit env fresh_id q now a).0.state
  unfolding admit admit_once admit_fresh
  admit-Committed fresh_id q now a sound h =
      ground (arith, reserve-Committed a.config fresh_id q now a.state sound h)
