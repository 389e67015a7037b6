-- ===== src/Agent/Deploy/Touches.antt =====
-- Each section of a deployment, an update and a deletion touches the records of its workload only.
use podmesh.Agent.Deploy.Charge.{Checked, check_reservation-Checked}
use podmesh.Protocol.Messages.{Reservation, DeploymentGrant}
use podmesh.Protocol.Messages.{Reservation, DeploymentGrant}
use podmesh.Agent.Admission.{Env}
use podmesh.Agent.Deploy.Waits.{end_delete, settle_deploy, settle_running, pend, mark_deleting}
use podmesh.Map.{get, remove, insert, contains_key}
use podmesh.Map.{get, contains_key}
use podmesh.Prelude.{
  Bool-cases, ◌==◌, if◌then◌else◌, ◌∙◌, ap, Result-cases, inr, inl, Option-cases, false, refl,
  string_eq, ℕ,
}
use podmesh.Agent.State.{active, cleanup_pending}
use podmesh.Agent.Deploy.Local.{Touches-trans, put-Touches, drop-Touches}
use podmesh.Agent.Deploy.Local.{
  drop-Touches, put-Touches, write-Touches, stay-Touches, Touches, KeptAt,
}
use podmesh.Agent.State.{StoredWorkload}
use podmesh.Prelude.{string_eq, ℕ, Bool, Result, ◌≡◌, true, String}
use podmesh.Agent.Deploy.{
  done, failed, active, RuntimeOutcome, DeleteAnswers, check_reservation, get, remove, false,
  Reservation, cleanup_pending, ℕ, insert, Plan, DeploymentGrant, ok, err, put, Result, Env, Bool,
  keep_checked, begin_deploy, after_cleanup, Service,
}

abbrev marked : StoredWorkload → StoredWorkload
marked w = record w { deleting = true }

module _ {d : Bool} (id : String) (s : Service) (h : KeptAt d id s) where
  pub after_cleanup-Touches :
      (answer : Result (Unit {0})) → Touches d id s (after_cleanup id answer s)
  unfolding after_cleanup
  after_cleanup-Touches (err e) = stay-Touches id s h
  after_cleanup-Touches (ok _) = drop-Touches id s

  pub begin_deploy-Touches :
      (env : Env) (g : DeploymentGrant) (p : Plan) (now : ℕ)
      → g.workload_id ≡ id
      → Touches d id s (begin_deploy env g p now s).0
  unfolding begin_deploy keep_checked
  begin_deploy-Touches env g p now named =
      elim (Option-cases (get s.state.reservations g.reservation_id)) [
        | inl missing ↦ rw (missing, begin_deploy) (stay-Touches id s h)
        | inr (r, e) ↦ elim (Result-cases (check_reservation env g p now r s.state.active)) [
          | inr (message, refused) ↦ rw (e, begin_deploy, refused) (taken r)
          | inl (w, passed) ↦ elim (Result-cases p.saved) [
            | inr (message, unsaved) ↦ rw (e, begin_deploy, passed, keep_checked, unsaved) (taken r)
            | inl (_, saved) ↦
                let k : Checked g p r s.state.active w =
                  check_reservation-Checked env g p now r s.state.active w passed in
                rw (e, begin_deploy, passed, keep_checked, saved, named)
                  (Touches-trans (taken r) (
                    write-Touches id w _
                      (ap (λ (z : DeploymentGrant). z.workload_id) k.grant ∙ named)))
          ]
        ]
      ]
    where
      taken :
          (r : Reservation)
          → Touches d id s (record s {
            state = record s.state { reservations = remove s.state.reservations g.reservation_id };
          })
      taken r = record { workloads = λ j other. refl; records = λ j other. refl; here = h }

  module _ (w : StoredWorkload) (named : w.grant.workload_id ≡ id)
      (there : d ≡ true → contains_key s.store id ≡ true) where
    pend-Touches :
        (uncertain : Bool) (saved : Result (Unit {0})) → Touches d id s (pend w uncertain saved s)
    pend-Touches uncertain (ok _) =
        rw (← named) (
          write-Touches w.grant.workload_id (record w { phase = cleanup_pending uncertain }) s refl)
    pend-Touches uncertain (err e) =
        put-Touches id (record w { phase = cleanup_pending uncertain }) s named there

    pub mark_deleting-Touches :
        (saved : Result (Unit {0})) → Touches d id s (mark_deleting w saved s).0
    unfolding mark_deleting
    mark_deleting-Touches (ok _) =
        rw (← named) (write-Touches w.grant.workload_id (marked w) s refl)
    mark_deleting-Touches (err e) = put-Touches id (record w { deleting = false }) s named there

    back-Touches :
        Touches d id s (record (put w s) { store = insert s.store w.grant.workload_id w })
    back-Touches = rw (← named) (write-Touches w.grant.workload_id w s refl)

    running-Touches :
        (saved saved_pending : Result (Unit {0}))
        → Touches d id s (settle_running w saved saved_pending s).0
    unfolding settle_running
    running-Touches (ok _) saved_pending =
        rw (← named) (write-Touches w.grant.workload_id (record w { phase = active }) s refl)
    running-Touches (err e) (ok _) =
        rw (← named)
          (write-Touches w.grant.workload_id (record w { phase = cleanup_pending false }) s refl)
    running-Touches (err e) (err d) =
        put-Touches id (record w { phase = cleanup_pending false }) s named there

    pub settle_deploy-Touches :
        (o : RuntimeOutcome) (saved saved_pending : Result (Unit {0}))
        → Touches d id s (settle_deploy w o saved saved_pending s).0
    unfolding settle_deploy
    settle_deploy-Touches (failed uncertain e) saved saved_pending =
        pend-Touches uncertain saved_pending
    settle_deploy-Touches (done found) saved saved_pending =
        elim (Bool-cases (found == w.runtime_id)) [
          | inl same ↦ rw (same, settle_deploy) (running-Touches saved saved_pending)
          | inr other ↦ rw (other, settle_deploy) (pend-Touches true saved_pending)
        ]

    pub end_delete-Touches : (a : DeleteAnswers) → Touches d id s (end_delete w a s)
    unfolding end_delete
    end_delete-Touches a = elim (Result-cases (if w.runtime_id == "" then ok tt else a.runtime)) [
      | inl (_, stopped) ↦ elim (Result-cases a.removed) [
        | inr (message, kept) ↦ rw (end_delete, stopped, kept) (stay-Touches id s h)
        | inl (_, gone) ↦ rw (end_delete, stopped, gone, named) (drop-Touches id s)
      ]
      | inr (message, running) ↦ elim (Result-cases a.saved_back) [
        | inr (other, unsaved) ↦ rw (end_delete, running, unsaved) (stay-Touches id s h)
        | inl (_, back) ↦ rw (end_delete, running, back) back-Touches
      ]
    ]
