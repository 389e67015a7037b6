-- ===== src/Agent/World.antt =====
-- The agent as a whole: requests of many owners interleave at every wait, and a guard for each
-- workload keeps the mutations of one workload apart (podmesh-agent/src/service.rs).
-- What a request writes to the store before it waits for the lock on the state is read under its
-- guard only, so that a step takes both writes together; a request that is dropped at the lock has
-- done the first alone, which is a step of its own. A request that asks again for a guard, as
-- `owner_mutation` does, is a later attempt.
pub mod Coherence
pub mod Cuts
pub mod Interleaving
pub mod Deletions
pub mod Reachable
pub mod Promises
pub mod Lost
pub mod Guards
pub mod Verified
pub mod Tests
use podmesh.Manifest.{ManifestResources}
use podmesh.Prelude.{
  ℕ, ◌≡◌, ◌<◌, String, Bool, true, false, Option, none, some, string_eq, if◌then◌else◌, Result, ok,
  err, ltb, ensure, ◌>>◌,
}
use podmesh.Map.{Map, size, get, insert, remove}
use podmesh.Protocol.Messages.{AdmissionRequest, DeploymentGrant, UpdateRequest, Reservation}
use podmesh.Agent.State.{Config, StoredWorkload, WorkloadState, needs_cleanup}
use podmesh.Agent.Admission.{Env, reserve}
use podmesh.Agent.Deploy.{
  put, Service, ExecutionSpec, Plan, begin_deploy, RuntimeOutcome, done, failed, after_cleanup,
  is_updating, DeleteAnswers,
}
use podmesh.Agent.Deploy.Waits.{settle_deploy, mark_deleting, end_delete}
use podmesh.Agent.Update.{
  UpdateStart, already_active, conflict, started, begin_update, UpdateAnswers, finish_update,
}

abbrev pub max_configured_workloads : ℕ
max_configured_workloads = 10000

-- What the holder of a guard is waiting for.
pub data Flight : Type 0 where
  deploying : StoredWorkload → Flight
  cleaning : StoredWorkload → Flight
  updating_from : StoredWorkload → StoredWorkload → UpdateRequest → ExecutionSpec → Flight
  deleting_from : StoredWorkload → Flight
  enrolling : Flight

pub record World : Type 0 where
  pub service : Service
  pub flights : Map String Flight

-- The text that tells an owner why a workload cannot be changed now.
holder : Flight → String
holder enrolling = "workload is busy with endpoint enrollment"
holder _ = "workload is busy"

is_free : Option Flight → Result (Unit {0})
unfolding holder
is_free none = ok tt
is_free (some f) = err (holder f)

-- `mutation_with_owner`: one guard for each workload, and a bound on all of them.
pub mutation : String → World → Result (Unit {0})
unfolding is_free
mutation id s = do
  ensure (ltb (size s.flights) max_configured_workloads) "workload mutation limit reached"
  is_free (get s.flights id)

-- A guard is held as long as there is something to wait for.
pub settle : String → Option Flight → Service → World → World
settle id none service s = record { service = service; flights = remove s.flights id }
settle id (some f) service s = record { service = service; flights = insert s.flights id f }

deploy_flight : Result StoredWorkload → Option Flight
deploy_flight (err e) = none
deploy_flight (ok w) = some (deploying w)

pub deploy_begins : Env → DeploymentGrant → Plan → ℕ → World → World
unfolding settle deploy_flight
deploy_begins env g p now s =
    let (service, r) = begin_deploy env g p now s.service in
    settle g.workload_id (deploy_flight r) service s

pub cleanup_flight : Option StoredWorkload → Option Flight
cleanup_flight none = none
cleanup_flight (some w) = some (cleaning w)

pub deploy_answered :
    String → StoredWorkload → RuntimeOutcome → Result (Unit {0}) → Result (Unit {0}) → World → World
unfolding settle cleanup_flight
deploy_answered id w o saved saved_pending s =
    let (service, unclean) = settle_deploy w o saved saved_pending s.service in
    settle id (cleanup_flight unclean) service s

pub cleaned : String → StoredWorkload → Result (Unit {0}) → World → World
unfolding settle
cleaned id w answer s = settle id none (after_cleanup w.grant.workload_id answer s.service) s

update_flight : UpdateRequest → ExecutionSpec → Result UpdateStart → Option Flight
update_flight q x (err e) = none
update_flight q x (ok already_active) = none
update_flight q x (ok conflict) = none
update_flight q x (ok (started w t)) = some (updating_from w t q x)

pub update_begins :
    Config
    → UpdateRequest
    → ExecutionSpec
    → Result ManifestResources
    → Result (Unit {0})
    → World
    → World
unfolding settle update_flight
update_begins c q x measured saved s =
    let (service, r) = begin_update c q x measured saved s.service in
    settle q.workload_id (update_flight q x r) service s

pub update_answered :
    String → StoredWorkload → UpdateRequest → ExecutionSpec → UpdateAnswers → World → World
unfolding settle
update_answered id w q x a s = settle id none (finish_update w q x a s.service).0 s

-- A deletion of a workload that needs cleanup waits for that, another one for the runtime.
pub delete_begins : StoredWorkload → Result (Unit {0}) → World → World
unfolding settle
delete_begins w saved s =
    let (service, marked) = mark_deleting w saved s.service in
    if needs_cleanup w
    then settle w.grant.workload_id (some (cleaning w)) s.service s
    else if is_updating w.phase
    then settle w.grant.workload_id none s.service s
    else settle w.grant.workload_id (if marked then some (deleting_from w) else none) service s

pub delete_answered : String → StoredWorkload → DeleteAnswers → World → World
unfolding settle
delete_answered id w a s = settle id none (end_delete w a s.service) s

-- Where a request ends that writes to the store and then waits for the lock on the state.
pub data Ends (s : Service) : Flight → Service → Type 0 where
  deployment_ends :
      (w : StoredWorkload) (o : RuntimeOutcome) (saved saved_pending : Result (Unit {0}))
      → (settle_deploy w o saved saved_pending s).1 ≡ none
      → Ends s (deploying w) (settle_deploy w o saved saved_pending s).0
  cleanup_ends :
      (w : StoredWorkload) (answer : Result (Unit {0}))
      → Ends s (cleaning w) (after_cleanup w.grant.workload_id answer s)
  update_ends :
      (w t : StoredWorkload) (q : UpdateRequest) (x : ExecutionSpec) (a : UpdateAnswers)
      → Ends s (updating_from w t q x) (finish_update w q x a s).0
  deletion_ends :
      (w : StoredWorkload) (a : DeleteAnswers) → Ends s (deleting_from w) (end_delete w a s)

-- One step of some request, between two waits.
pub data Step (env : Env) (c : Config) (s : World) : World → Type 0 where
  admits :
      (fresh_id : String) (q : AdmissionRequest) (now : ℕ)
      → Step env c s (record s {
        service = record s.service { state = (reserve env c fresh_id q now s.service.state).0 };
      })
  begins_deploy :
      (g : DeploymentGrant) (p : Plan) (now : ℕ)
      → mutation g.workload_id s ≡ ok tt
      → Step env c s (deploy_begins env g p now s)
  answers_deploy :
      (id : String) (w : StoredWorkload) (o : RuntimeOutcome)
      (saved saved_pending : Result (Unit {0}))
      → get s.flights id ≡ some (deploying w)
      → Step env c s (deploy_answered id w o saved saved_pending s)
  cleans :
      (id : String) (w : StoredWorkload) (answer : Result (Unit {0}))
      → get s.flights id ≡ some (cleaning w)
      → Step env c s (cleaned id w answer s)
  begins_update :
      (q : UpdateRequest) (x : ExecutionSpec) (measured : Result ManifestResources)
      (saved : Result (Unit {0})) (now : ℕ)
      → env.verify_update q now ≡ ok tt
      → mutation q.workload_id s ≡ ok tt
      → Step env c s (update_begins c q x measured saved s)
  answers_update :
      (id : String) (w t : StoredWorkload) (q : UpdateRequest) (x : ExecutionSpec)
      (a : UpdateAnswers)
      → get s.flights id ≡ some (updating_from w t q x)
      → Step env c s (update_answered id w q x a s)
  begins_delete :
      (id : String) (w : StoredWorkload) (saved : Result (Unit {0}))
      → get s.service.state.active id ≡ some w
      → mutation id s ≡ ok tt
      → Step env c s (delete_begins w saved s)
  answers_delete :
      (id : String) (w : StoredWorkload) (a : DeleteAnswers)
      → get s.flights id ≡ some (deleting_from w)
      → Step env c s (delete_answered id w a s)
  begins_enrollment :
      (id : String) → mutation id s ≡ ok tt → Step env c s (settle id (some enrolling) s.service s)
  -- A request that is cancelled while it waits for the lock on the state, once the store is written.
  drops_at_lock :
      (id : String) (f : Flight) (t : Service)
      → get s.flights id ≡ some f
      → Ends s.service f t
      → Step env c s (settle id none (record s.service { store = t.store }) s)
  -- A deletion whose mark cannot be saved, and which is cancelled before it takes the mark back.
  drops_mark :
      (id : String) (w : StoredWorkload)
      → get s.service.state.active id ≡ some w
      → mutation id s ≡ ok tt
      → needs_cleanup w ≡ false
      → is_updating w.phase ≡ false
      → Step env c s (settle id none (put (record w { deleting = true }) s.service) s)
  -- A request that is cancelled at its wait, or ends, drops its guard and nothing else.
  drops :
      (id : String) (f : Flight)
      → get s.flights id ≡ some f
      → Step env c s (settle id none s.service s)

pub data Reach (env : Env) (c : Config) (s : World) : World → Type 0 where
  here : Reach env c s s
  next : {t u : World} → Reach env c s t → Step env c t u → Reach env c s u
