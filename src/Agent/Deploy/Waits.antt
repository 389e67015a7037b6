-- ===== src/Agent/Deploy/Waits.antt =====
-- Deployments and deletions of podmesh-agent/src/service.rs cut at every wait, for interleavings:
-- what happens when the runtime has answered, before and after the cleanup that it may need.
use podmesh.Prelude.{
  none, some, Option, ◌≡◌, refl, Bool, true, false, ◌==◌, string_eq, if◌then◌else◌, Result, ok, err,
  Result-cases, Bool-cases, inl, inr,
}
use podmesh.Map.{insert, remove}
use podmesh.Agent.State.{StoredWorkload, active, cleanup_pending}
use podmesh.Agent.Deploy.{
  Service, RuntimeOutcome, done, failed, put, forget, save, after_cleanup, failed_deploy, Answers,
  deployed, finish_deploy, DeleteAnswers, delete_running,
}

-- `failed_deploy` up to its cleanup: the record is kept, marked.
abbrev pub pend : StoredWorkload → Bool → Result (Unit {0}) → Service → Service
pend w uncertain saved s =
    let pending = record w { phase = cleanup_pending uncertain } in
    record (put pending s) { store = save saved pending s.store }

abbrev pub pending : StoredWorkload → Bool → StoredWorkload
pending w uncertain = record w { phase = cleanup_pending uncertain }

-- The service, and the workload whose cleanup comes next.
unfoldable pub settle_running :
    StoredWorkload
    → Result (Unit {0})
    → Result (Unit {0})
    → Service
    → Service × Option StoredWorkload
settle_running w saved saved_pending s =
    let running = record w { phase = active } in
    elim saved [
      | err e ↦ (pend running false saved_pending s, some (pending running false))
      | ok _ ↦ (record (put running s) { store = insert s.store w.grant.workload_id running }, none)
    ]

unfoldable pub settle_deploy :
    StoredWorkload
    → RuntimeOutcome
    → Result (Unit {0})
    → Result (Unit {0})
    → Service
    → Service × Option StoredWorkload
unfolding settle_running
settle_deploy w (failed uncertain e) saved saved_pending s =
    (pend w uncertain saved_pending s, some (pending w uncertain))
settle_deploy w (done id) saved saved_pending s =
    if id == w.runtime_id
    then settle_running w saved saved_pending s
    else (pend w true saved_pending s, some (pending w true))

abbrev pub after_settling : Result (Unit {0}) → Service × Option StoredWorkload → Service
after_settling cleaned (s, none) = s
after_settling cleaned (s, some w) = after_cleanup w.grant.workload_id cleaned s

-- The mark of a deletion, and whether it could be saved.
unfoldable pub mark_deleting : StoredWorkload → Result (Unit {0}) → Service → Service × Bool
mark_deleting w saved s =
    let deleting = record w { deleting = true } in
    elim saved [
      | err e ↦ (put (record deleting { deleting = false }) s, false)
      | ok _ ↦
          (record (put deleting s) { store = insert s.store w.grant.workload_id deleting }, true)
    ]

-- The end of a deletion that was marked.
unfoldable pub end_delete : StoredWorkload → DeleteAnswers → Service → Service
end_delete w a s =
    let id = w.grant.workload_id in
    elim (if w.runtime_id == "" then ok tt else a.runtime) [
      | ok _ ↦ elim a.removed [
        | err e ↦ s
        | ok _ ↦ record (forget id s) { store = remove s.store id }
      ]
      | err e ↦ elim a.saved_back [
        | err f ↦ s
        | ok _ ↦ record (put w s) { store = insert s.store id w }
      ]
    ]

-- The end of a deployment is the runtime's answer and, where one is needed, the cleanup.
pub finish_deploy-settle_deploy :
    (w : StoredWorkload) (a : Answers) (s : Service)
    → (finish_deploy w a s).0
      ≡ after_settling a.cleaned (settle_deploy w a.outcome a.saved a.saved_pending s)
unfolding finish_deploy settle_deploy
finish_deploy-settle_deploy w a s = by_outcome a.outcome refl
  where
    by_outcome :
        (o : RuntimeOutcome)
        → a.outcome ≡ o
        → (finish_deploy w a s).0
          ≡ after_settling a.cleaned (settle_deploy w a.outcome a.saved a.saved_pending s)
    by_outcome (failed uncertain message) o =
        rw (o, finish_deploy, failed_deploy, settle_deploy) refl
    by_outcome (done id) o = elim (Bool-cases (id == w.runtime_id)) [
      | inr other ↦ rw (o, finish_deploy, settle_deploy, other, failed_deploy) refl
      | inl same ↦ elim (Result-cases a.saved) [
        | inl (_, saved) ↦
            rw (o, finish_deploy, settle_deploy, same, deployed, settle_running, saved) refl
        | inr (m, unsaved) ↦
            rw
              (
                o, finish_deploy, settle_deploy, same, deployed, settle_running, unsaved,
                failed_deploy,
              )
              refl
      ]
    ]

mark_saved :
    (w : StoredWorkload) (s : Service) (saved : Result (Unit {0})) (z : Unit {0})
    → saved ≡ ok z
    → mark_deleting w saved s ≡ (
      record (put (record w { deleting = true }) s) {
        store = insert s.store w.grant.workload_id (record w { deleting = true });
      },
      true,
    )
unfolding mark_deleting
mark_saved w s saved z e = rw e refl

-- A deletion of a running workload is its mark and, where that was saved, its end.
pub delete_running-end_delete :
    (w : StoredWorkload) (a : DeleteAnswers) (s : Service)
    → (delete_running w a s).0 ≡ (
        let (service, marked) = mark_deleting w a.saved_mark s in
        if marked then end_delete w a service else service)
unfolding delete_running end_delete
delete_running-end_delete w a s = elim (Result-cases a.saved_mark) [
  | inr (m, unsaved) ↦ unfold mark_deleting in rw (unsaved, delete_running) refl
  | inl (z, saved) ↦ elim (Result-cases (if w.runtime_id == "" then ok tt else a.runtime)) [
    | inl (x, stopped) ↦ elim (Result-cases a.removed) [
      | inr (m, kept) ↦
          rw
            (
              mark_saved w s a.saved_mark z saved,
              saved,
              delete_running,
              end_delete,
              stopped,
              kept,
              mark_saved w s a.saved_mark z saved,
            )
            refl
      | inl (y, gone) ↦
          rw
            (
              mark_saved w s a.saved_mark z saved,
              saved,
              delete_running,
              end_delete,
              stopped,
              gone,
              mark_saved w s a.saved_mark z saved,
            )
            refl
    ]
    | inr (m, running) ↦ elim (Result-cases a.saved_back) [
      | inr (o, unsaved) ↦
          rw
            (
              mark_saved w s a.saved_mark z saved,
              saved,
              delete_running,
              end_delete,
              running,
              unsaved,
              mark_saved w s a.saved_mark z saved,
            )
            refl
      | inl (y, back) ↦
          rw
            (
              mark_saved w s a.saved_mark z saved,
              saved,
              delete_running,
              end_delete,
              running,
              back,
              mark_saved w s a.saved_mark z saved,
            )
            refl
    ]
  ]
]
