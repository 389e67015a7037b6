-- ===== src/Agent/Deploy/Completion.antt =====
-- The end of a deployment and the deletion of a workload, seen from the accounting.
use podmesh.Prelude.{
  ◌≡◌, refl, String, Bool, true, false, some, ◌==◌, string_eq, eq_lem, if◌then◌else◌, Result, ok,
  err, arith, Result-cases, Bool-cases, inl, inr,
}
use podmesh.Map.{get}
use podmesh.Map.Laws.{get-insert}
use podmesh.Agent.State.{Config, StoredWorkload, needs_cleanup, active, cleanup_pending}
use podmesh.Agent.Capacity.{Committed}
use podmesh.Agent.Capacity.Moves.{NoMore, replace-Committed, remove_active-Committed}
use podmesh.Agent.Deploy.{
  Service, RuntimeOutcome, done, failed, put, after_cleanup, failed_deploy, Answers, deployed,
  finish_deploy, DeleteAnswers, delete_running, is_updating, delete_workload,
}

module _ (c : Config) (w : StoredWorkload) where
  pub after_cleanup-Committed :
      (id : String) (cleaned : Result (Unit {0})) (s : Service)
      → Committed c s.state
      → Committed c (after_cleanup id cleaned s).state
  unfolding after_cleanup
  after_cleanup-Committed id (ok _) s h = remove_active-Committed c s.state h id
  after_cleanup-Committed id (err e) s h = h

  failed_deploy-Committed :
      (x : StoredWorkload) (uncertain : Bool) (saved cleaned : Result (Unit {0})) (s : Service)
      → get s.state.active w.grant.workload_id ≡ some x
      → NoMore w x
      → Committed c s.state
      → Committed c (failed_deploy w uncertain saved cleaned s).state
  unfolding failed_deploy
  failed_deploy-Committed x uncertain saved cleaned s e less h =
      after_cleanup-Committed w.grant.workload_id cleaned _ (
        replace-Committed c s.state h w.grant.workload_id
          (record w { phase = cleanup_pending uncertain }) x e
          (record { cpu = less.cpu; memory = less.memory; storage = less.storage }))

  deployed-Committed :
      (x : StoredWorkload) (a : Answers) (s : Service)
      → get s.state.active w.grant.workload_id ≡ some x
      → NoMore w x
      → Committed c s.state
      → Committed c (deployed w a s).0.state
  unfolding deployed failed_deploy
  deployed-Committed x a s e less h = elim (Result-cases a.saved) [
    | inl (_, saved) ↦
        rw (saved, deployed)
          (replace-Committed c s.state h w.grant.workload_id (record w { phase = active }) x e
            (record { cpu = less.cpu; memory = less.memory; storage = less.storage }))
    | inr (message, unsaved) ↦
        rw (unsaved, deployed)
          (after_cleanup-Committed w.grant.workload_id a.cleaned _ (
            replace-Committed c s.state h w.grant.workload_id
              (record w { phase = cleanup_pending false }) x e
              (record { cpu = less.cpu; memory = less.memory; storage = less.storage })))
  ]

  -- However a deployment ends, a committed state stays committed, where the state holds the
  -- workload with no less than what the deployment was charged.
  pub finish_deploy-Committed :
      (x : StoredWorkload) (a : Answers) (s : Service)
      → get s.state.active w.grant.workload_id ≡ some x
      → NoMore w x
      → Committed c s.state
      → Committed c (finish_deploy w a s).0.state
  unfolding finish_deploy
  finish_deploy-Committed x a s e less h = by_outcome a.outcome refl
    where
      by_outcome : (o : RuntimeOutcome) → a.outcome ≡ o → Committed c (finish_deploy w a s).0.state
      by_outcome (failed uncertain message) o =
          rw (o, finish_deploy)
            (failed_deploy-Committed x uncertain a.saved_pending a.cleaned s e less h)
      by_outcome (done id) o = elim (Bool-cases (id == w.runtime_id)) [
        | inl same ↦ rw (o, finish_deploy, same) (deployed-Committed x a s e less h)
        | inr other ↦
            rw (o, finish_deploy, other)
              (failed_deploy-Committed x true a.saved_pending a.cleaned s e less h)
      ]

  -- Writing the workload back with the same resources.
  pub mark-Committed :
      (v : StoredWorkload) (s : Service)
      → v.grant ≡ w.grant
      → NoMore v w
      → get s.state.active w.grant.workload_id ≡ some w
      → Committed c s.state
      → Committed c (put v s).state
  mark-Committed v s same less e h =
      replace-Committed c s.state h v.grant.workload_id v w (rw same e) less

  delete_running-Committed :
      (a : DeleteAnswers) (s : Service)
      → get s.state.active w.grant.workload_id ≡ some w
      → Committed c s.state
      → Committed c (delete_running w a s).0.state
  unfolding delete_running
  delete_running-Committed a s e h = elim (Result-cases a.saved_mark) [
    | inr (message, unsaved) ↦
        rw (unsaved, delete_running)
          (mark-Committed (record w { deleting = false }) s refl
            (record { cpu = omega arith; memory = omega arith; storage = omega arith }) e h)
    | inl (_, saved) ↦ elim (Result-cases (if w.runtime_id == "" then ok tt else a.runtime)) [
      | inl (_, stopped) ↦ elim (Result-cases a.removed) [
        | inr (message, kept) ↦ rw (saved, delete_running, stopped, kept) marked
        | inl (_, gone) ↦
            rw (saved, delete_running, stopped, gone)
              (remove_active-Committed c (put deleting s).state marked w.grant.workload_id)
      ]
      | inr (message, running) ↦ elim (Result-cases a.saved_back) [
        | inr (other, unsaved) ↦ rw (saved, delete_running, running, unsaved) marked
        | inl (_, back) ↦
            rw (saved, delete_running, running, back)
              (replace-Committed c (put deleting s).state marked w.grant.workload_id w deleting
                (ground (
                  arith,
                  get-insert s.state.active w.grant.workload_id w.grant.workload_id deleting,
                  eq_lem w.grant.workload_id w.grant.workload_id,
                ))
                (record { cpu = omega arith; memory = omega arith; storage = omega arith }))
      ]
    ]
  ]
    where
      deleting : StoredWorkload
      deleting = record w { deleting = true }

      marked : Committed c (put deleting s).state
      marked =
          mark-Committed deleting s refl
            (record { cpu = omega arith; memory = omega arith; storage = omega arith }) e h

  -- A deletion of a workload that the state holds keeps a committed state committed, wherever it
  -- stops.
  pub delete_workload-Committed :
      (a : DeleteAnswers) (s : Service)
      → get s.state.active w.grant.workload_id ≡ some w
      → Committed c s.state
      → Committed c (delete_workload w a s).0.state
  unfolding delete_workload
  delete_workload-Committed a s e h = elim (Bool-cases (needs_cleanup w)) [
    | inl unclean ↦
        rw (unclean, delete_workload) (after_cleanup-Committed w.grant.workload_id a.cleaned s h)
    | inr clean ↦ elim (Bool-cases (is_updating w.phase)) [
      | inl busy ↦ rw (clean, delete_workload, busy) h
      | inr idle ↦ rw (clean, delete_workload, idle) (delete_running-Committed a s e h)
    ]
  ]
