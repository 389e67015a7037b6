-- ===== src/Agent/Deploy/Charge.antt =====
-- A deployment is charged from its reservation to the end of its cleanup.
use podmesh.Manifest.{ManifestResources}
use podmesh.Prelude.{
  ℕ, ◌≤◌, ◌≡◌, String, true, none, some, string_eq, eq_lem, ok, arith, Option-cases, Result-cases,
  inl, inr, ◌∙◌, ap,
}
use podmesh.Map.{Map, get, remove}
use podmesh.Map.Laws.{get-insert, get-remove}
use podmesh.Protocol.Messages.{Reservation, DeploymentGrant}
use podmesh.Agent.State.{Config, StoredWorkload}
use podmesh.Agent.Admission.{Env}
use podmesh.Agent.Capacity.{Committed}
use podmesh.Agent.Capacity.Moves.{remove_reservation-Committed, deploy-Committed}
use podmesh.Agent.Deploy.{Service, Plan, check_reservation, keep_checked, begin_deploy}

-- What a deployment that passed its tests has shown.
pub record Checked (g : DeploymentGrant) (p : Plan) (r : Reservation)
    (workloads : Map String StoredWorkload) (w : StoredWorkload) : Type 0 where
  pub accepted : r.accepted ≡ true
  pub namespace : r.namespace_id ≡ g.namespace_id
  pub workload : r.workload_id ≡ g.workload_id
  pub new : get workloads g.workload_id ≡ none
  pub grant : w.grant ≡ g
  pub cpu : w.cpu_milli ≡ r.cpu_milli
  pub memory : w.memory_bytes ≡ r.memory_bytes
  pub storage : w.storage_bytes ≡ r.storage_bytes
  pub resources : ManifestResources
  pub measured : p.measured ≡ ok resources
  pub cpu_enough : resources.cpu_milli ≤ r.cpu_milli
  pub memory_enough : resources.memory_bytes ≤ r.memory_bytes
  pub storage_enough : resources.storage_bytes ≤ r.storage_bytes

module _ (env : Env) where
  pub check_reservation-Checked :
      (g : DeploymentGrant) (p : Plan) (now : ℕ) (r : Reservation)
      (workloads : Map String StoredWorkload) (w : StoredWorkload)
      → check_reservation env g p now r workloads ≡ ok w
      → Checked g p r workloads w
  unfolding check_reservation
  check_reservation-Checked g p now r workloads w e = elim (Result-cases p.measured) [
    | inr (message, unmeasured) ↦ absurd (ground arith)
    | inl (m, measured) ↦ record {
      accepted = ground arith;
      namespace = ground (arith, eq_lem r.namespace_id g.namespace_id);
      workload = ground (arith, eq_lem r.workload_id g.workload_id);
      new = ground arith;
      grant = ground arith;
      cpu = ground arith;
      memory = ground arith;
      storage = ground arith;
      resources = m;
      measured = measured;
      cpu_enough = ground arith;
      memory_enough = ground arith;
      storage_enough = ground arith;
    }
  ]

  keep_checked-Committed :
      (c : Config) (g : DeploymentGrant) (p : Plan) (now : ℕ) (r : Reservation) (s : Service)
      → get s.state.reservations g.reservation_id ≡ some r
      → Committed c s.state
      → (let rest = record s {
        state = record s.state { reservations = remove s.state.reservations g.reservation_id };
      } in
          Committed c
            (keep_checked g p rest (check_reservation env g p now r s.state.active)).0.state)
  unfolding keep_checked
  keep_checked-Committed c g p now r s e h =
      elim (Result-cases (check_reservation env g p now r s.state.active)) [
        | inr (message, refused) ↦
            rw (refused, keep_checked) (remove_reservation-Committed c s.state h g.reservation_id)
        | inl (w, passed) ↦ elim (Result-cases p.saved) [
          | inr (message, unsaved) ↦
              rw (passed, keep_checked, unsaved)
                (remove_reservation-Committed c s.state h g.reservation_id)
          | inl (_, saved) ↦
              let k : Checked g p r s.state.active w =
                check_reservation-Checked g p now r s.state.active w passed in
              rw (passed, keep_checked, saved)
                (deploy-Committed c s.state h g.reservation_id g.workload_id r w e k.new k.cpu
                  k.memory k.storage)
        ]
      ]

  -- The start of a deployment keeps a committed state committed, whether it is refused, fails to
  -- save, or goes on with the workload in place of its reservation.
  pub begin_deploy-Committed :
      (c : Config) (g : DeploymentGrant) (p : Plan) (now : ℕ) (s : Service)
      → Committed c s.state
      → Committed c (begin_deploy env g p now s).0.state
  unfolding begin_deploy
  begin_deploy-Committed c g p now s h =
      elim (Option-cases (get s.state.reservations g.reservation_id)) [
        | inl missing ↦ rw (missing, begin_deploy) h
        | inr (r, e) ↦ rw (e, begin_deploy) (keep_checked-Committed c g p now r s e h)
      ]

  -- A deployment that starts with record `w` had a reservation under the grant's identifier,
  -- accepted for the same owner and workload; the workload was not active, what the manifest
  -- needs is within what was reserved, and `w` is charged what was reserved; `w` is in the state
  -- and in the store, and the reservation is gone.
  pub begin_deploy_started :
      (g : DeploymentGrant) (p : Plan) (now : ℕ) (s : Service) (w : StoredWorkload)
      → (begin_deploy env g p now s).1 ≡ ok w
      → (r : Reservation) × (get s.state.reservations g.reservation_id ≡ some r)
        × Checked g p r s.state.active w
        × (get (begin_deploy env g p now s).0.state.active g.workload_id ≡ some w)
        × (get (begin_deploy env g p now s).0.store g.workload_id ≡ some w)
        × (get (begin_deploy env g p now s).0.state.reservations g.reservation_id ≡ none)
  unfolding begin_deploy
  begin_deploy_started g p now s w e =
      elim (Option-cases (get s.state.reservations g.reservation_id)) [
        | inl missing ↦ absurd (ground arith)
        | inr (r, found) ↦ elim (Result-cases (check_reservation env g p now r s.state.active)) [
          | inr (message, refused) ↦ absurd (ground arith)
          | inl (v, passed) ↦
              let same : v ≡ w = ground arith in
              let k : Checked g p r s.state.active w =
                check_reservation-Checked g p now r s.state.active w (passed ∙ ap ok same) in
              (
                r,
                found,
                k,
                ground (
                  arith,
                  get-insert s.state.active g.workload_id g.workload_id w,
                  eq_lem g.workload_id g.workload_id,
                ),
                ground (
                  arith,
                  k.grant,
                  get-insert s.store w.grant.workload_id g.workload_id w,
                  eq_lem g.workload_id g.workload_id,
                ),
                ground (
                  arith,
                  get-remove s.state.reservations g.reservation_id g.reservation_id,
                  eq_lem g.reservation_id g.reservation_id,
                ),
              )
        ]
      ]
