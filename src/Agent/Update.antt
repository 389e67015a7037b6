-- ===== src/Agent/Update.antt =====
-- `update_inner` of podmesh-agent/src/service.rs, as the sections between two waits.
pub mod Charge
pub mod Rollback
pub mod Arrival
pub mod Touches
pub mod Tests
use podmesh.Manifest.{ManifestResources}
use podmesh.Prelude.{
  ℕ, ◌≤◌, ◌≡◌, String, Bool, true, false, not, ◌&&◌, ◌||◌, Option, none, some, ◌==◌, string_eq,
  nat_eq, if◌then◌else◌, leb, Result, ok, err, ensure, context, ◌>>=◌, ◌>>◌,
}
use podmesh.Map.{Map, get, insert}
use podmesh.Protocol.Messages.{UpdateRequest, DeploymentGrant}
use podmesh.Agent.Usage.{plus, fits_within}
use podmesh.Agent.State.{
  Config, StoredWorkload, StoredWorkloadPhase, active, updating, creating, cleanup_pending,
  WorkloadState, usage_without,
}
use podmesh.Agent.Deploy.{ExecutionSpec, Service, RuntimeOutcome, done, failed, put}

abbrev pub is_active : StoredWorkloadPhase → Bool
is_active active = true
is_active (updating g r q) = false
is_active creating = false
is_active (cleanup_pending u) = false

-- How the locked section ends, when it does not fail: the revision runs already, another revision
-- was expected, or the update goes on, from the first record to the second.
pub data UpdateStart : Type 0 where
  already_active conflict : UpdateStart
  started : StoredWorkload → StoredWorkload → UpdateStart

unfoldable pub transitioning : UpdateRequest → StoredWorkload → StoredWorkload
transitioning q w = record w {
  phase = updating w.grant w.runtime_id q;
  cpu_milli = q.cpu_milli;
  memory_bytes = q.memory_bytes;
  storage_bytes = q.storage_bytes;
}

-- `usage_without(...).plus(...).fits_within(...)`
unfoldable pub update_fits : Config → WorkloadState → UpdateRequest → Bool
update_fits c s q =
    fits_within (plus (usage_without s q.workload_id) q.cpu_milli q.memory_bytes q.storage_bytes)
      c.capacity_cpu_milli c.capacity_memory_bytes c.capacity_storage_bytes

start_update : Config → WorkloadState → UpdateRequest → StoredWorkload → Result UpdateStart
unfolding transitioning
start_update c s q w = do
  ensure (update_fits c s q) "updated workload exceeds agent capacity"
  ok (started w (transitioning q w))

-- A conflict is an answer and no error.
is_conflict : UpdateRequest → StoredWorkload → Bool
is_conflict q w = not (w.grant.revision_id == q.expected_revision_id) || not (is_active w.phase)

change_revision :
    Config → WorkloadState → UpdateRequest → ExecutionSpec → StoredWorkload → Result UpdateStart
unfolding start_update is_conflict
change_revision c s q x w = do
  ensure
      ((x.workload_name == w.workload_name)
        && (x.replica_index == w.replica_index)
        && (x.replica_count == w.replica_count))
      "update cannot change workload identity or replica count"
  (if is_conflict q w then ok conflict else start_update c s q w)

runs_already : UpdateRequest → StoredWorkload → Bool
runs_already q w = (w.grant.revision_id == q.requested_revision_id) && not q.refresh_service_mesh

-- The tests on the record that is there.
unfoldable pub check_update :
    Config → WorkloadState → UpdateRequest → ExecutionSpec → StoredWorkload → Result UpdateStart
unfolding change_revision runs_already
check_update c s q x w = do
  ensure (not w.deleting && is_active w.phase && not (w.runtime_id == "")) "workload is not active"
  (if runs_already q w then ok already_active else change_revision c s q x w)

-- `get(...).filter(...)`: another owner's workload is not found.
owned_by : String → Option StoredWorkload → Option StoredWorkload
owned_by namespace none = none
owned_by namespace (some w) = if w.grant.namespace_id == namespace then some w else none

unfoldable pub find_update :
    Config
    → UpdateRequest
    → ExecutionSpec
    → Result ManifestResources
    → WorkloadState
    → Result UpdateStart
unfolding owned_by
find_update c q x measured s = do
  m ← measured
  ensure
      (leb m.cpu_milli q.cpu_milli
        && leb m.memory_bytes q.memory_bytes
        && leb m.storage_bytes q.storage_bytes)
      "updated workload resource limits exceed signed request"
  w ← context (owned_by q.namespace_id (get s.active q.workload_id)) "workload not found"
  check_update c s q x w

record_start :
    UpdateRequest → Result (Unit {0}) → Service → Result UpdateStart → Service × Result UpdateStart
record_start q saved s (err e) = (s, err e)
record_start q saved s (ok already_active) = (s, ok already_active)
record_start q saved s (ok conflict) = (s, ok conflict)
record_start q saved s (ok (started w t)) = elim saved [
  | err e ↦ (s, err e)
  | ok _ ↦ (
    record s {
      state = record s.state { active = insert s.state.active q.workload_id t };
      store = insert s.store t.grant.workload_id t;
    },
    ok (started w t),
  )
]

-- The section under the lock.
unfoldable pub begin_update :
    Config
    → UpdateRequest
    → ExecutionSpec
    → Result ManifestResources
    → Result (Unit {0})
    → Service
    → Service × Result UpdateStart
unfolding record_start
begin_update c q x measured saved s = record_start q saved s (find_update c q x measured s.state)

pub updated : UpdateRequest → ExecutionSpec → String → StoredWorkload
updated q x id = record {
  version = 1;
  phase = active;
  grant = q.grant;
  runtime_id = id;
  deleting = false;
  cpu_milli = q.cpu_milli;
  memory_bytes = q.memory_bytes;
  storage_bytes = q.storage_bytes;
  workload_name = x.workload_name;
  replica_index = x.replica_index;
  replica_count = x.replica_count;
}

-- What is answered after the runtime has run: the outcome, the save of the new record, the
-- deployment of the previous revision, and the save of the old record.
pub record UpdateAnswers : Type 0 where
  pub outcome : RuntimeOutcome
  pub saved : Result (Unit {0})
  pub redeployed : Result (Unit {0})
  pub saved_back : Result (Unit {0})

-- The previous revision is deployed and its record written back as it was.
pub roll_back : StoredWorkload → UpdateAnswers → Service → Service
roll_back w a s = elim (do a.redeployed; a.saved_back) [
  | err e ↦ s
  | ok _ ↦ record (put w s) { store = insert s.store w.grant.workload_id w }
]

commit_update :
    UpdateRequest → ExecutionSpec → String → UpdateAnswers → Service → Service × Result String
unfolding updated
commit_update q x id a s = elim a.saved [
  | err e ↦ (s, err e)
  | ok _ ↦
      let w = updated q x id in
      (
        record s {
          state = record s.state { active = insert s.state.active q.workload_id w };
          store = insert s.store w.grant.workload_id w;
        },
        ok id,
      )
]

pub finish_update :
    StoredWorkload
    → UpdateRequest
    → ExecutionSpec
    → UpdateAnswers
    → Service
    → Service × Result String
unfolding roll_back commit_update
finish_update w q x a s = elim a.outcome [
  | failed uncertain e ↦ (roll_back w a s, err e)
  | done id ↦ commit_update q x id a s
]
