-- ===== src/Agent/Deploy.antt =====
-- `deploy_inner`, `failed_deploy` and the deletion of podmesh-agent/src/service.rs, as the sections
-- between two waits. What the runtime, the store, the manifest reader and the target lookup answer
-- is an argument.
pub mod Charge
pub mod Completion
pub mod Durable
pub mod Arrival
pub mod Waits
pub mod Local
pub mod Touches
pub mod WaitCharge
pub mod Tests
use podmesh.Manifest.{ManifestResources}
use podmesh.Prelude.{
  ℕ, ◌≤◌, ◌≡◌, String, Bool, true, false, not, ◌&&◌, Option, none, some, ◌==◌, string_eq,
  if◌then◌else◌, leb, Result, ok, err, ensure, context, ◌>>=◌, ◌>>◌,
}
use podmesh.Map.{Map, get, contains_key, insert, remove}
use podmesh.Protocol.Messages.{Reservation, DeploymentGrant}
use podmesh.Agent.State.{
  StoredWorkload, StoredWorkloadPhase, active, creating, cleanup_pending, WorkloadState, updating,
  needs_cleanup,
}
use podmesh.Agent.Admission.{Env}

-- What the agent reads of a decrypted execution specification.
pub record ExecutionSpec : Type 0 where
  pub workload_name : String
  pub replica_index : ℕ
  pub replica_count : ℕ

-- The in-memory state and the durable records.
pub record Service : Type 0 where
  pub state : WorkloadState
  pub store : Map String StoredWorkload

-- `store.save`: a failed save writes nothing.
abbrev pub save :
    Result (Unit {0}) → StoredWorkload → Map String StoredWorkload → Map String StoredWorkload
save (ok _) w store = insert store w.grant.workload_id w
save (err e) w store = store

-- What the outside answers while a deployment is checked.
pub record Plan : Type 0 where
  pub execution : ExecutionSpec
  pub measured : Result ManifestResources
  pub target : Result String
  pub saved : Result (Unit {0})

pub stored_for : DeploymentGrant → Reservation → ExecutionSpec → String → StoredWorkload
stored_for g r x planned_id = record {
  version = 1;
  phase = creating;
  grant = g;
  runtime_id = planned_id;
  deleting = false;
  cpu_milli = r.cpu_milli;
  memory_bytes = r.memory_bytes;
  storage_bytes = r.storage_bytes;
  workload_name = x.workload_name;
  replica_index = x.replica_index;
  replica_count = x.replica_count;
}

pub within_reservation : ManifestResources → Reservation → Bool
within_reservation m r =
    leb m.cpu_milli r.cpu_milli
    && leb m.memory_bytes r.memory_bytes
    && leb m.storage_bytes r.storage_bytes

keep_checked :
    DeploymentGrant → Plan → Service → Result StoredWorkload → Service × Result StoredWorkload
keep_checked g p s (err e) = (s, err e)
keep_checked g p s (ok w) = elim p.saved [
  | err e ↦ (s, err e)
  | ok _ ↦ (
    record s {
      state = record s.state { active = insert s.state.active g.workload_id w };
      store = insert s.store w.grant.workload_id w;
    },
    ok w,
  )
]

module _ (env : Env) where
  -- The tests on a reservation that has been taken out.
  pub check_reservation :
      DeploymentGrant → Plan → ℕ → Reservation → Map String StoredWorkload → Result StoredWorkload
  unfolding stored_for within_reservation
  check_reservation g p now r workloads = do
    env.verify_reservation r now
    ensure (r.accepted && (r.namespace_id == g.namespace_id) && (r.workload_id == g.workload_id))
        "reservation binding mismatch"
    ensure (not (contains_key workloads g.workload_id)) "workload is already active"
    measured ← p.measured
    ensure (within_reservation measured r) "workload resource limits exceed signed reservation"
    planned_id ← p.target
    ensure (not (planned_id == "")) "runtime target is empty"
    ok (stored_for g r p.execution planned_id)

  -- The section under the lock: the reservation is used up, whether or not the deployment goes on.
  pub begin_deploy : DeploymentGrant → Plan → ℕ → Service → Service × Result StoredWorkload
  unfolding keep_checked
  begin_deploy g p now s = elim (get s.state.reservations g.reservation_id) [
    | none ↦ (s, err "reservation not found")
    | some r ↦
        let rest = record s {
          state = record s.state { reservations = remove s.state.reservations g.reservation_id };
        } in
        keep_checked g p rest (check_reservation g p now r rest.state.active)
  ]

-- What the runtime answered: an identifier, or a failure of which it may not be known whether the
-- workload runs.
pub data RuntimeOutcome : Type 0 where
  done : String → RuntimeOutcome
  failed : Bool → String → RuntimeOutcome

abbrev pub put : StoredWorkload → Service → Service
put w s = record s {
  state = record s.state { active = insert s.state.active w.grant.workload_id w };
}

abbrev pub forget : String → Service → Service
forget id s = record s { state = record s.state { active = remove s.state.active id } }

-- `cleanup_pending` ends by removing the durable record; then the workload is forgotten.
pub after_cleanup : String → Result (Unit {0}) → Service → Service
after_cleanup id (err e) s = s
after_cleanup id (ok _) s = record (forget id s) { store = remove s.store id }

pub failed_deploy :
    StoredWorkload → Bool → Result (Unit {0}) → Result (Unit {0}) → Service → Service
unfolding after_cleanup
failed_deploy w uncertain saved cleaned s =
    let pending = record w { phase = cleanup_pending uncertain } in
    after_cleanup w.grant.workload_id cleaned
      (record (put pending s) { store = save saved pending s.store })

-- What is answered after the runtime has finished: the outcome, the save of the active record, and
-- the save and the cleanup of a deployment that failed.
pub record Answers : Type 0 where
  pub outcome : RuntimeOutcome
  pub saved : Result (Unit {0})
  pub saved_pending : Result (Unit {0})
  pub cleaned : Result (Unit {0})

deployed : StoredWorkload → Answers → Service → Service × Result String
unfolding failed_deploy
deployed w a s =
    let running = record w { phase = active } in
    elim a.saved [
      | err e ↦ (failed_deploy running false a.saved_pending a.cleaned s, err e)
      | ok _ ↦ (
        record (put running s) { store = insert s.store w.grant.workload_id running },
        ok w.runtime_id,
      )
    ]

pub finish_deploy : StoredWorkload → Answers → Service → Service × Result String
unfolding deployed failed_deploy
finish_deploy w a s = elim a.outcome [
  | failed uncertain e ↦ (failed_deploy w uncertain a.saved_pending a.cleaned s, err e)
  | done id ↦ if id == w.runtime_id then deployed w a s else (
    failed_deploy w true a.saved_pending a.cleaned s,
    err "runtime returned an unexpected workload identity; repair required",
  )
]

-- The answers to a deletion: the save of the mark, the runtime, the removal or the save that
-- restores the record.
pub record DeleteAnswers : Type 0 where
  pub saved_mark : Result (Unit {0})
  pub runtime : Result (Unit {0})
  pub removed : Result (Unit {0})
  pub saved_back : Result (Unit {0})
  pub cleaned : Result (Unit {0})

pub delete_running : StoredWorkload → DeleteAnswers → Service → Service × Result String
delete_running w a s =
    let id = w.grant.workload_id in
    let deleting = record w { deleting = true } in
    elim a.saved_mark [
      | err e ↦ (put (record deleting { deleting = false }) s, err e)
      | ok _ ↦
          let marked = record (put deleting s) { store = insert s.store id deleting } in
          elim (if w.runtime_id == "" then ok tt else a.runtime) [
            | ok _ ↦ elim a.removed [
              | err e ↦ (marked, err e)
              | ok _ ↦ (record (forget id marked) { store = remove marked.store id }, ok "deleted")
            ]
            | err e ↦ elim a.saved_back [
              | err f ↦ (marked, err f)
              | ok _ ↦ (record (put w marked) { store = insert marked.store id w }, err e)
            ]
          ]
    ]

unfoldable pub is_updating : StoredWorkloadPhase → Bool
is_updating (updating g r u) = true
is_updating _ = false

-- `WorkloadOperation::Delete` of `command`, on the record that was read under the guard.
pub delete_workload : StoredWorkload → DeleteAnswers → Service → Service × Result String
unfolding delete_running is_updating after_cleanup
delete_workload w a s =
    if needs_cleanup w
    then (after_cleanup w.grant.workload_id a.cleaned s, (do a.cleaned; ok "deleted"))
    else if is_updating w.phase
    then (s, err "workload is updating")
    else delete_running w a s
