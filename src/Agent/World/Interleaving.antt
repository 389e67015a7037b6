-- ===== src/Agent/World/Interleaving.antt =====
-- Every step keeps the order between the records and the waiting requests, so every interleaving does.
use podmesh.Agent.World.Cuts.{settle_deploy-UncleanAt, cleanup_flight-Coherent}
use podmesh.Agent.World.Coherence.{found_at}
use podmesh.Manifest.{ManifestResources}
use podmesh.Map.Laws.{get-insert}
use podmesh.Agent.Update.Charge.{begin_update-Started}
use podmesh.Agent.World.{cleanup_flight, cleaned}
use podmesh.Agent.Update.Touches.{begin_update-Touches, finish_update-Touches}
use podmesh.Agent.Deploy.Local.{Touches}
use mathlib.Core.Option.{some-injective}
use podmesh.Agent.Update.{
  UpdateStart, finish_update, begin_update, UpdateAnswers, already_active, conflict, started,
}
use podmesh.Prelude.{eq_lem, sym}
use podmesh.Agent.Deploy.Charge.{begin_deploy_started}
use podmesh.Agent.Deploy.Touches.{
  after_cleanup-Touches, end_delete-Touches, begin_deploy-Touches, settle_deploy-Touches,
}
use podmesh.Agent.Deploy.Waits.{end_delete, settle_deploy}
use podmesh.Map.{get}
use podmesh.Agent.World.Coherence.{settle-Inv, CoherentAt, Inv}
use podmesh.Agent.Deploy.{
  ExecutionSpec, DeleteAnswers, after_cleanup, begin_deploy, Service, RuntimeOutcome, Plan,
}
use podmesh.Protocol.Messages.{UpdateRequest, DeploymentGrant}
use podmesh.Agent.State.{WorkloadState, StoredWorkload, Config}
use podmesh.Agent.Admission.{Env}
use podmesh.Prelude.{
  refl, is_some, ap, string_eq, ok, err, subst, none, Bool, Result, ℕ, String, ◌≡◌, some,
}
use podmesh.Agent.World.{
  update_flight, UpdateRequest, update_begins, cleaned, delete_answered, update_answered,
  deploy_flight, Flight, settle_deploy, get, World, Plan, DeploymentGrant, deploy_begins,
  deploy_answered, Config, Env, deploying, cleaning, updating_from, deleting_from,
}
use podmesh.Agent.Update.{already_active, conflict, started}

module _ {d : Bool} (env : Env) (c : Config) where
  pub deploy_begins-Inv :
      (g : DeploymentGrant) (p : Plan) (now : ℕ) (s : World)
      → Inv d s
      → Inv d (deploy_begins env g p now s)
  unfolding deploy_begins
  deploy_begins-Inv g p now s h =
      settle-Inv g.workload_id (deploy_flight r) t s h
        (begin_deploy-Touches g.workload_id s.service (h.kept g.workload_id) env g p now refl)
        (started_flight r refl)
    where
      t : Service
      t = (begin_deploy env g p now s.service).0

      r : Result StoredWorkload
      r = (begin_deploy env g p now s.service).1

      started_flight :
          (o : Result StoredWorkload)
          → r ≡ o
          → (f : Flight) → deploy_flight o ≡ some f
          → CoherentAt d g.workload_id f t
      started_flight (err e) answer f p = absurd (unfold deploy_flight in cc)
      started_flight (ok w) answer f e =
          let (reservation, found, k, held, recorded, gone) =
            begin_deploy_started env g p now s.service w answer in
          subst (λ (z : Flight). CoherentAt d g.workload_id z t)
            (some-injective (deploying w) f (unfold deploy_flight in e))
            (
              ap (λ (z : DeploymentGrant). z.workload_id) k.grant,
              held,
              λ asked. ap is_some recorded,
            )

  pub deploy_answered-Inv :
      (id : String) (w : StoredWorkload) (o : RuntimeOutcome)
      (saved saved_pending : Result (Unit {0})) (s : World)
      → get s.flights id ≡ some (deploying w)
      → Inv d s
      → Inv d (deploy_answered id w o saved saved_pending s)
  unfolding deploy_answered
  deploy_answered-Inv id w o saved saved_pending s waits h =
      let (named, held, recorded) = h.flying id (deploying w) waits in
      settle-Inv id (cleanup_flight (settle_deploy w o saved saved_pending s.service).1)
        (settle_deploy w o saved saved_pending s.service).0 s h
        (settle_deploy-Touches id s.service (h.kept id) w named recorded o saved saved_pending)
        (λ f e.
          cleanup_flight-Coherent d id (settle_deploy w o saved saved_pending s.service) f
            (settle_deploy-UncleanAt id w named o saved saved_pending s.service) e)

  pub cleaned-Inv :
      (id : String) (w : StoredWorkload) (answer : Result (Unit {0})) (s : World)
      → get s.flights id ≡ some (cleaning w)
      → Inv d s
      → Inv d (cleaned id w answer s)
  unfolding cleaned
  cleaned-Inv id w answer s waits h =
      settle-Inv id none (after_cleanup w.grant.workload_id answer s.service) s h
        (subst (λ (z : String). Touches d id s.service (after_cleanup z answer s.service))
          (sym (h.flying id (cleaning w) waits).0)
          (after_cleanup-Touches id s.service (h.kept id) answer))
        (λ f e. absurd (cc))

  pub update_begins-Inv :
      (q : UpdateRequest) (x : ExecutionSpec) (measured : Result ManifestResources)
      (saved : Result (Unit {0})) (s : World)
      → q.grant.workload_id ≡ q.workload_id
      → Inv d s
      → Inv d (update_begins c q x measured saved s)
  unfolding update_begins
  update_begins-Inv q x measured saved s bound h =
      settle-Inv q.workload_id (update_flight q x r) t s h
        (begin_update-Touches q.workload_id s.service (h.kept q.workload_id) c q x measured saved
          refl)
        (started_flight r refl)
    where
      t : Service
      t = (begin_update c q x measured saved s.service).0

      r : Result UpdateStart
      r = (begin_update c q x measured saved s.service).1

      started_flight :
          (o : Result UpdateStart)
          → r ≡ o
          → (f : Flight) → update_flight q x o ≡ some f
          → CoherentAt d q.workload_id f t
      started_flight (err e) answer f p = absurd (unfold update_flight in cc)
      started_flight (ok already_active) answer f p = absurd (unfold update_flight in cc)
      started_flight (ok conflict) answer f p = absurd (unfold update_flight in cc)
      started_flight (ok (started w v)) answer f e =
          let (u, after) = begin_update-Started c q x measured saved s.service w v answer in
          subst (λ (z : Flight). CoherentAt d q.workload_id z t)
            (some-injective (updating_from w v q x) f (unfold update_flight in e))
            (
              (found_at s w u.found h).0,
              refl,
              bound,
              u.target,
              rw
                  (
                    ap (λ (z : WorkloadState). z.active) after,
                    get-insert s.service.state.active q.workload_id q.workload_id v,
                    (eq_lem q.workload_id q.workload_id).1 refl,
                  )
                  refl,
            )

  pub update_answered-Inv :
      (id : String) (w t : StoredWorkload) (q : UpdateRequest) (x : ExecutionSpec)
      (a : UpdateAnswers) (s : World)
      → get s.flights id ≡ some (updating_from w t q x)
      → Inv d s
      → Inv d (update_answered id w q x a s)
  unfolding update_answered
  update_answered-Inv id w t q x a s waits h =
      let (named, asked, granted, target, held) = h.flying id (updating_from w t q x) waits in
      settle-Inv id none (finish_update w q x a s.service).0 s h
        (finish_update-Touches id s.service (h.kept id) w q x a named asked granted)
        (λ f e. absurd (cc))

  pub delete_answered-Inv :
      (id : String) (w : StoredWorkload) (a : DeleteAnswers) (s : World)
      → get s.flights id ≡ some (deleting_from w)
      → Inv d s
      → Inv d (delete_answered id w a s)
  unfolding delete_answered
  delete_answered-Inv id w a s waits h =
      let (named, held, recorded) = h.flying id (deleting_from w) waits in
      settle-Inv id none (end_delete w a s.service) s h
        (end_delete-Touches id s.service (h.kept id) w named recorded a) (λ f e. absurd (cc))
