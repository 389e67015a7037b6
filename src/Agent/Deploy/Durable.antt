-- ===== src/Agent/Deploy/Durable.antt =====
-- A workload that the agent holds has a durable record, so that a restart finds it.
use podmesh.Prelude.{
  ℕ, ◌≡◌, refl, String, Bool, true, false, ◌==◌, string_eq, eq_lem, if◌then◌else◌, Result, ok, err,
  arith, Option-cases, Result-cases, Bool-cases, inl, inr,
}
use podmesh.Map.{get, contains_key, insert}
use podmesh.Map.Laws.{get-insert, get-remove}
use podmesh.Protocol.Messages.{DeploymentGrant}
use podmesh.Agent.Admission.{Env}
use podmesh.Agent.State.{StoredWorkload, needs_cleanup, active, cleanup_pending}
use podmesh.Agent.Deploy.{
  Service, Plan, check_reservation, keep_checked, begin_deploy, RuntimeOutcome, done, failed, put,
  after_cleanup, failed_deploy, Answers, deployed, finish_deploy, DeleteAnswers, delete_running,
  is_updating, delete_workload,
}
use podmesh.Agent.Deploy.Charge.{Checked, check_reservation-Checked}

pub record IsDurable (s : Service) : Type 0 where
  pub at : (id : String) → contains_key s.state.active id ≡ true → contains_key s.store id ≡ true

-- A workload that is recorded may change in the state, and may be written again.
pub put-IsDurable :
    (v : StoredWorkload) (s : Service)
    → contains_key s.store v.grant.workload_id ≡ true
    → IsDurable s
    → IsDurable (put v s)
put-IsDurable v s there h = record {
  at = λ id e. ground (
    arith,
    h.at id,
    get-insert s.state.active v.grant.workload_id id v,
    eq_lem v.grant.workload_id id,
  );
}

pub save-IsDurable :
    (v : StoredWorkload) (s : Service)
    → IsDurable s
    → IsDurable (record s { store = insert s.store v.grant.workload_id v })
save-IsDurable v s h = record {
  at = λ id e. ground (arith, h.at id, get-insert s.store v.grant.workload_id id v);
}

pub put_saved-IsDurable :
    (v : StoredWorkload) (s : Service)
    → IsDurable s
    → IsDurable (record (put v s) { store = insert s.store v.grant.workload_id v })
put_saved-IsDurable v s h = record {
  at = λ id e. ground (
    arith,
    h.at id,
    get-insert s.state.active v.grant.workload_id id v,
    get-insert s.store v.grant.workload_id id v,
  );
}

pub after_cleanup-IsDurable :
    (id : String) (cleaned : Result (Unit {0})) (s : Service)
    → IsDurable s
    → IsDurable (after_cleanup id cleaned s)
unfolding after_cleanup
after_cleanup-IsDurable id (err e) s h = h
after_cleanup-IsDurable id (ok _) s h = record {
  at = λ k e. ground (arith, h.at k, get-remove s.state.active id k, get-remove s.store id k);
}

module _ (w : StoredWorkload) (s : Service)
    (there : contains_key s.store w.grant.workload_id ≡ true) (h : IsDurable s) where
  failed_deploy-IsDurable :
      (uncertain : Bool) (saved cleaned : Result (Unit {0}))
      → IsDurable (failed_deploy w uncertain saved cleaned s)
  unfolding failed_deploy
  failed_deploy-IsDurable uncertain (ok _) cleaned =
      after_cleanup-IsDurable w.grant.workload_id cleaned _
        (put_saved-IsDurable (record w { phase = cleanup_pending uncertain }) s h)
  failed_deploy-IsDurable uncertain (err e) cleaned =
      after_cleanup-IsDurable w.grant.workload_id cleaned _
        (put-IsDurable (record w { phase = cleanup_pending uncertain }) s there h)

  deployed-IsDurable : (a : Answers) → IsDurable (deployed w a s).0
  unfolding deployed failed_deploy
  deployed-IsDurable a = elim (Result-cases a.saved) [
    | inl (_, saved) ↦ rw (saved, deployed) (put_saved-IsDurable (record w { phase = active }) s h)
    | inr (message, unsaved) ↦
        rw (unsaved, deployed) (failed_deploy-IsDurable false a.saved_pending a.cleaned)
  ]

  -- If every workload of the state has a durable record, and the deployed one too, it is so
  -- however the deployment ends.
  pub finish_deploy-IsDurable : (a : Answers) → IsDurable (finish_deploy w a s).0
  unfolding finish_deploy
  finish_deploy-IsDurable a = by_outcome a.outcome refl
    where
      by_outcome : (o : RuntimeOutcome) → a.outcome ≡ o → IsDurable (finish_deploy w a s).0
      by_outcome (failed uncertain message) o =
          rw (o, finish_deploy) (failed_deploy-IsDurable uncertain a.saved_pending a.cleaned)
      by_outcome (done id) o = elim (Bool-cases (id == w.runtime_id)) [
        | inl same ↦ rw (o, finish_deploy, same) (deployed-IsDurable a)
        | inr other ↦
            rw (o, finish_deploy, other) (failed_deploy-IsDurable true a.saved_pending a.cleaned)
      ]

  delete_running-IsDurable : (a : DeleteAnswers) → IsDurable (delete_running w a s).0
  unfolding delete_running
  delete_running-IsDurable a = elim (Result-cases a.saved_mark) [
    | inr (message, unsaved) ↦
        rw (unsaved, delete_running) (put-IsDurable (record w { deleting = false }) s there h)
    | inl (_, saved) ↦ elim (Result-cases (if w.runtime_id == "" then ok tt else a.runtime)) [
      | inl (_, stopped) ↦ elim (Result-cases a.removed) [
        | inr (message, kept) ↦ rw (saved, delete_running, stopped, kept) marked
        | inl (_, gone) ↦
            rw (saved, delete_running, stopped, gone)
              (unfold after_cleanup in after_cleanup-IsDurable w.grant.workload_id (ok tt) _ marked)
      ]
      | inr (message, running) ↦ elim (Result-cases a.saved_back) [
        | inr (other, unsaved) ↦ rw (saved, delete_running, running, unsaved) marked
        | inl (_, back) ↦ rw (saved, delete_running, running, back) (put_saved-IsDurable w _ marked)
      ]
    ]
  ]
    where
      deleting : StoredWorkload
      deleting = record w { deleting = true }

      marked :
          IsDurable
            (record (put deleting s) { store = insert s.store w.grant.workload_id deleting })
      marked = put_saved-IsDurable deleting s h

  -- If every workload of the state has a durable record, and the deleted one too, it is so
  -- wherever the deletion stops.
  pub delete_workload-IsDurable : (a : DeleteAnswers) → IsDurable (delete_workload w a s).0
  unfolding delete_workload
  delete_workload-IsDurable a = elim (Bool-cases (needs_cleanup w)) [
    | inl unclean ↦
        rw (unclean, delete_workload) (after_cleanup-IsDurable w.grant.workload_id a.cleaned s h)
    | inr clean ↦ elim (Bool-cases (is_updating w.phase)) [
      | inl busy ↦ rw (clean, delete_workload, busy) h
      | inr idle ↦ rw (clean, delete_workload, idle) (delete_running-IsDurable a)
    ]
  ]

-- If every workload of the state has a durable record, it is so after the start of a deployment.
pub begin_deploy-IsDurable :
    (env : Env) (g : DeploymentGrant) (p : Plan) (now : ℕ) (s : Service)
    → IsDurable s
    → IsDurable (begin_deploy env g p now s).0
unfolding begin_deploy keep_checked
begin_deploy-IsDurable env g p now s h =
    elim (Option-cases (get s.state.reservations g.reservation_id)) [
      | inl missing ↦ rw (missing, begin_deploy) h
      | inr (r, e) ↦ elim (Result-cases (check_reservation env g p now r s.state.active)) [
        | inr (message, refused) ↦ rw (e, begin_deploy, refused) (record { at = h.at })
        | inl (w, passed) ↦ elim (Result-cases p.saved) [
          | inr (message, unsaved) ↦
              rw (e, begin_deploy, passed, keep_checked, unsaved) (record { at = h.at })
          | inl (_, saved) ↦
              let k : Checked g p r s.state.active w =
                check_reservation-Checked env g p now r s.state.active w passed in
              rw (e, begin_deploy, passed, keep_checked, saved)
                (record {
                  at = λ id there. ground (
                    arith,
                    h.at id,
                    k.grant,
                    get-insert s.state.active g.workload_id id w,
                    get-insert s.store w.grant.workload_id id w,
                  );
                })
        ]
      ]
    ]
