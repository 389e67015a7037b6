-- ===== src/Agent/World/Cuts.antt =====
-- Requests that end at a wait for the lock on the state, and deployments that end in a cleanup
-- (podmesh-agent/src/service.rs).
use podmesh.Agent.Deploy.Waits.{pending}
use mathlib.Core.Option.{some-injective}
use podmesh.Agent.Update.Touches.{finish_update-Touches}
use podmesh.Map.Laws.{get-insert}
use podmesh.Agent.Deploy.Touches.{end_delete-Touches, after_cleanup-Touches, settle_deploy-Touches}
use podmesh.Agent.World.Coherence.{found_at, settle-Inv, Inv, CoherentAt}
use podmesh.Agent.Deploy.Waits.{pending, pend, settle_running, settle_deploy}
use podmesh.Map.{contains_key, get}
use podmesh.Agent.State.{StoredWorkload}
use podmesh.Agent.Deploy.{after_cleanup, done, put, failed, RuntimeOutcome, Service}
use podmesh.Prelude.{
  inr, inl, ◌==◌, sym, eq_lem, Bool-cases, false, err, string_eq, true, ok, none, subst, Result,
  some, ◌≡◌, Option, String, Bool, refl,
}
use podmesh.Agent.Deploy.Local.{put-Touches, Touches, KeptAt, cut-Touches}
use podmesh.Agent.World.{
  cleaning, settle, settle_deploy, get, World, cleanup_flight, Flight, StoredWorkload, Service,
  Ends, deployment_ends, cleanup_ends, update_ends, deletion_ends,
}

-- A workload that a deployment leaves to be cleaned up is in the state as it is left.
abbrev UncleanAt : String → Service × Option StoredWorkload → Type 0
UncleanAt id (s, none) = Unit {0}
UncleanAt id (s, some v) = (v.grant.workload_id ≡ id) × (get s.state.active id ≡ some v)

module _ (id : String) (w : StoredWorkload) (named : w.grant.workload_id ≡ id) where
  pend-UncleanAt :
      (uncertain : Bool) (saved : Result (Unit {0})) (s : Service)
      → UncleanAt id (pend w uncertain saved s, some (pending w uncertain))
  pend-UncleanAt uncertain saved s = (
    named,
    rw
        (
          get-insert s.state.active w.grant.workload_id id (pending w uncertain),
          (eq_lem w.grant.workload_id id).1 named,
        )
        refl,
  )

  running-UncleanAt :
      (saved saved_pending : Result (Unit {0})) (s : Service)
      → UncleanAt id (settle_running w saved saved_pending s)
  unfolding settle_running
  running-UncleanAt (ok _) saved_pending s = tt
  running-UncleanAt (err e) saved_pending s = pend-UncleanAt false saved_pending s

  pub settle_deploy-UncleanAt :
      (o : RuntimeOutcome) (saved saved_pending : Result (Unit {0})) (s : Service)
      → UncleanAt id (settle_deploy w o saved saved_pending s)
  unfolding settle_deploy
  settle_deploy-UncleanAt (failed uncertain e) saved saved_pending s =
      pend-UncleanAt uncertain saved_pending s
  settle_deploy-UncleanAt (done found) saved saved_pending s =
      elim (Bool-cases (found == w.runtime_id)) [
        | inl same ↦ rw (same, settle_deploy) (running-UncleanAt saved saved_pending s)
        | inr other ↦ rw (other, settle_deploy) (pend-UncleanAt true saved_pending s)
      ]

module _ (d : Bool) (id : String) where
  pub cleanup_flight-Coherent :
      (p : Service × Option StoredWorkload) (f : Flight)
      → UncleanAt id p
      → cleanup_flight p.1 ≡ some f
      → CoherentAt d id f p.0
  unfolding cleanup_flight
  cleanup_flight-Coherent (s, none) f k e = absurd (cc)
  cleanup_flight-Coherent (s, some v) f k e =
      subst (λ (z : Flight). CoherentAt d id z s) (some-injective (cleaning v) f e) k

  Ends-Touches :
      {f : Flight} {s t : Service}
      → Ends s f t
      → KeptAt d id s
      → CoherentAt d id f s
      → Touches d id s t
  Ends-Touches {s = s} (deployment_ends w o saved saved_pending clean) h (named, held, recorded) =
      settle_deploy-Touches id s h w named recorded o saved saved_pending
  Ends-Touches {s = s} (cleanup_ends w answer) h (named, held) =
      subst (λ (z : String). Touches d id s (after_cleanup z answer s)) (sym named)
        (after_cleanup-Touches id s h answer)
  Ends-Touches {s = s} (update_ends w t q x a) h (named, asked, granted, target, held) =
      finish_update-Touches id s h w q x a named asked granted
  Ends-Touches {s = s} (deletion_ends w a) h (named, held, recorded) =
      end_delete-Touches id s h w named recorded a

  pub drops_at_lock-Inv :
      (f : Flight) (t : Service) (s : World)
      → get s.flights id ≡ some f
      → Ends s.service f t
      → (d ≡ true → contains_key t.store id ≡ true)
      → Inv d s
      → Inv d (settle id none (record s.service { store = t.store }) s)
  drops_at_lock-Inv f t s waits ends there h =
      settle-Inv id none (record s.service { store = t.store }) s h
        (cut-Touches id s.service t (h.kept id)
          (Ends-Touches ends (h.kept id) (h.flying id f waits)) there)
        (λ g e. absurd (cc))

  pub drops_mark-Inv :
      (w : StoredWorkload) (s : World)
      → get s.service.state.active id ≡ some w
      → Inv d s
      → Inv d (settle id none (put (record w { deleting = true }) s.service) s)
  drops_mark-Inv w s found h =
      let (named, recorded) = found_at s w found h in
      settle-Inv id none (put (record w { deleting = true }) s.service) s h
        (put-Touches id (record w { deleting = true }) s.service named recorded)
        (λ g e. absurd (cc))
