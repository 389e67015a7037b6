-- ===== src/Agent/Deploy/WaitCharge.antt =====
-- The sections between the waits of a deployment and a deletion, seen from the accounting.
use podmesh.Prelude.{refl}
use podmesh.Agent.Capacity.Moves.{remove_active-Committed, replace-Committed}
use podmesh.Agent.Deploy.Completion.{mark-Committed}
use podmesh.Agent.Capacity.{Committed}
use podmesh.Map.{get}
use podmesh.Agent.Deploy.{
  active, cleanup_pending, done, failed, get, Service, RuntimeOutcome, DeleteAnswers,
}
use podmesh.Agent.Deploy.Waits.{pend, end_delete, settle_deploy, mark_deleting, settle_running}
use podmesh.Agent.State.{active, StoredWorkload, Config}
use podmesh.Prelude.{
  inr, string_eq, false, inl, Bool-cases, ◌==◌, err, if◌then◌else◌, ok, Result-cases, true, some,
  ◌≡◌, Result, Bool, arith,
}

module _ (c : Config) (w : StoredWorkload) where
  pend-Committed :
      (uncertain : Bool) (saved : Result (Unit {0})) (s : Service)
      → get s.state.active w.grant.workload_id ≡ some w
      → Committed c s.state
      → Committed c (pend w uncertain saved s).state
  pend-Committed uncertain saved s e h =
      replace-Committed c s.state h w.grant.workload_id
        (record w { phase = cleanup_pending uncertain }) w e
        (record { cpu = omega arith; memory = omega arith; storage = omega arith })

  running-Committed :
      (saved saved_pending : Result (Unit {0})) (s : Service)
      → get s.state.active w.grant.workload_id ≡ some w
      → Committed c s.state
      → Committed c (settle_running w saved saved_pending s).0.state
  unfolding settle_running
  running-Committed (ok _) saved_pending s e h =
      replace-Committed c s.state h w.grant.workload_id (record w { phase = active }) w e
        (record { cpu = omega arith; memory = omega arith; storage = omega arith })
  running-Committed (err m) saved_pending s e h = pend-Committed false saved_pending s e h

  pub settle_deploy-Committed :
      (o : RuntimeOutcome) (saved saved_pending : Result (Unit {0})) (s : Service)
      → get s.state.active w.grant.workload_id ≡ some w
      → Committed c s.state
      → Committed c (settle_deploy w o saved saved_pending s).0.state
  unfolding settle_deploy
  settle_deploy-Committed (failed uncertain m) saved saved_pending s e h =
      pend-Committed uncertain saved_pending s e h
  settle_deploy-Committed (done found) saved saved_pending s e h =
      elim (Bool-cases (found == w.runtime_id)) [
        | inl same ↦ rw (same, settle_deploy) (running-Committed saved saved_pending s e h)
        | inr other ↦ rw (other, settle_deploy) (pend-Committed true saved_pending s e h)
      ]

  pub mark_deleting-Committed :
      (saved : Result (Unit {0})) (s : Service)
      → get s.state.active w.grant.workload_id ≡ some w
      → Committed c s.state
      → Committed c (mark_deleting w saved s).0.state
  unfolding mark_deleting
  mark_deleting-Committed (ok _) s e h =
      mark-Committed c w (record w { deleting = true }) s refl
        (record { cpu = omega arith; memory = omega arith; storage = omega arith }) e h
  mark_deleting-Committed (err m) s e h =
      mark-Committed c w (record w { deleting = false }) s refl
        (record { cpu = omega arith; memory = omega arith; storage = omega arith }) e h

  pub end_delete-Committed :
      (a : DeleteAnswers) (s : Service)
      → get s.state.active w.grant.workload_id ≡ some (record w { deleting = true })
      → Committed c s.state
      → Committed c (end_delete w a s).state
  unfolding end_delete
  end_delete-Committed a s e h =
      elim (Result-cases (if w.runtime_id == "" then ok tt else a.runtime)) [
        | inl (_, stopped) ↦ elim (Result-cases a.removed) [
          | inr (message, kept) ↦ rw (end_delete, stopped, kept) h
          | inl (_, gone) ↦
              rw (end_delete, stopped, gone)
                (remove_active-Committed c s.state h w.grant.workload_id)
        ]
        | inr (message, running) ↦ elim (Result-cases a.saved_back) [
          | inr (other, unsaved) ↦ rw (end_delete, running, unsaved) h
          | inl (_, back) ↦
              rw (end_delete, running, back)
                (replace-Committed c s.state h w.grant.workload_id w (record w { deleting = true })
                  e (record { cpu = omega arith; memory = omega arith; storage = omega arith }))
        ]
      ]
