-- ===== src/Agent/Update/Rollback.antt =====
-- How an update ends, and what the rollback of one that shrank its workload does to the accounting.
use podmesh.Manifest.{ManifestResources}
use podmesh.Prelude.{
  ℕ, ◌+◌, ◌≤◌, ◌<◌, ◌≡◌, refl, String, Bool, true, none, some, string_eq, eq_lem, Result, ok, ◌>>◌,
  arith, Result-cases, inl, inr, ◌∙◌, ap,
}
use podmesh.Map.{get, insert, total, UniqueKeys}
use podmesh.Map.Laws.{get-insert, insert-UniqueKeys}
use podmesh.Map.Totals.{total-insert_old, total-insert_new}
use podmesh.Protocol.Messages.{UpdateRequest, AdmissionRequest, Reservation}
use podmesh.Agent.State.{Config, StoredWorkload, of_workload, of_reservation, drop_expired}
use podmesh.Agent.Admission.{Env, reserve}
use podmesh.Agent.Admission.Outcome.{reserve_answer}
use podmesh.Agent.Capacity.{IsSound, Committed, cpu_promised}
use podmesh.Agent.Capacity.Moves.{NoMore, replace-Committed}
use podmesh.Agent.Deploy.{ExecutionSpec, Service, RuntimeOutcome, done, failed}
use podmesh.Agent.Update.{
  started, begin_update, updated, UpdateAnswers, roll_back, commit_update, finish_update,
}
use podmesh.Agent.Update.Charge.{begin_update-Started, begin_update-Committed}

-- The end of an update, committed or rolled back, keeps a committed state committed, where the
-- state holds the workload with at least what the request asks for and, if the runtime fails, at
-- least what the old record held.
pub finish_update-Committed :
    (c : Config) (w : StoredWorkload) (q : UpdateRequest) (x : ExecutionSpec) (a : UpdateAnswers)
    (s : Service) (t : StoredWorkload)
    → w.grant.workload_id ≡ q.workload_id
    → get s.state.active q.workload_id ≡ some t
    → q.cpu_milli ≤ t.cpu_milli
    → q.memory_bytes ≤ t.memory_bytes
    → q.storage_bytes ≤ t.storage_bytes
    → ((uncertain : Bool) (message : String) → a.outcome ≡ failed uncertain message → NoMore w t)
    → Committed c s.state
    → Committed c (finish_update w q x a s).0.state
unfolding finish_update
finish_update-Committed c w q x a s t id e cpu memory storage less h = by_outcome a.outcome refl
  where
    by_outcome :
        (o : RuntimeOutcome) → a.outcome ≡ o → Committed c (finish_update w q x a s).0.state
    by_outcome (done i) o = elim (Result-cases a.saved) [
      | inr (m, unsaved) ↦ rw (o, finish_update, unsaved, commit_update) h
      | inl (_, saved) ↦
          rw (o, finish_update, commit_update, saved)
            (replace-Committed c s.state h q.workload_id (updated q x i) t e
              (unfold updated in record { cpu = cpu; memory = memory; storage = storage }))
    ]
    by_outcome (failed u m) o = elim (Result-cases (do a.redeployed; a.saved_back)) [
      | inr (n, stuck) ↦ rw (o, finish_update, roll_back, stuck) h
      | inl (_, back) ↦
          rw (o, finish_update, roll_back, back)
            (replace-Committed c s.state h w.grant.workload_id w t (rw id e) (less u m o))
    ]

module _ (env : Env) (c : Config) (q : UpdateRequest) (x : ExecutionSpec)
    (measured : Result ManifestResources) (saved : Result (Unit {0})) (s : Service) where
  abbrev begun : Service
  begun = (begin_update c q x measured saved s).0

  -- What is promised after the rollback, when a reservation came in between: everything that was
  -- promised before the update, and the reservation.
  rolled_back :
      (w t : StoredWorkload) (fresh_id : String) (r : Reservation)
      → UniqueKeys s.state.active
      → get s.state.active q.workload_id ≡ some w
      → get s.state.reservations fresh_id ≡ none
      → w.grant.workload_id ≡ q.workload_id
      → cpu_promised (record s.state {
        active = insert (insert s.state.active q.workload_id t) w.grant.workload_id w;
        reservations = insert s.state.reservations fresh_id r;
      })
        ≡ cpu_promised s.state + r.cpu_milli
  rolled_back w t fresh_id r u e new id = omega (
    arith,
    total-insert_new of_reservation.cpu s.state.reservations fresh_id r new,
    total-insert_old of_workload.cpu s.state.active q.workload_id w t u e,
    ap (λ k. total of_workload.cpu (insert (insert s.state.active q.workload_id t) k w)) id,
    total-insert_old of_workload.cpu (insert s.state.active q.workload_id t) q.workload_id t w
        (insert-UniqueKeys s.state.active q.workload_id t u)
        (ground (
          arith,
          get-insert s.state.active q.workload_id q.workload_id t,
          eq_lem q.workload_id q.workload_id,
        )),
  )

  -- On a committed state under a sound configuration: if an update starts, no reservation expires
  -- meanwhile, a reservation under a fresh identifier is accepted, and the runtime then fails and
  -- the update is rolled back, then the agent has promised more processor time than it has,
  -- whenever what was promised before the update and the reservation together exceed it.
  pub update_rollback_overcommits :
      (w t : StoredWorkload) (fresh_id : String) (n : AdmissionRequest) (now : ℕ) (r : Reservation)
      (a : UpdateAnswers) (uncertain : Bool) (message : String)
      → IsSound c
      → Committed c s.state
      → (begin_update c q x measured saved s).1 ≡ ok (started w t)
      → w.grant.workload_id ≡ q.workload_id
      → drop_expired now begun.state ≡ begun.state
      → get s.state.reservations fresh_id ≡ none
      → (reserve env c fresh_id n now begun.state).1 ≡ ok r
      → r.accepted ≡ true
      → a.outcome ≡ failed uncertain message
      → a.redeployed ≡ ok tt
      → a.saved_back ≡ ok tt
      → c.capacity_cpu_milli < cpu_promised s.state + r.cpu_milli
      → c.capacity_cpu_milli
        < cpu_promised
            (finish_update w q x a
              (record begun { state = (reserve env c fresh_id n now begun.state).0 })).0.state
  unfolding finish_update roll_back
  update_rollback_overcommits w t fresh_id n now r a uncertain message sound h e id live new answer
        accepted o redeployed back over =
      let (u, begun_state) = begin_update-Started c q x measured saved s w t e in
      let kept : Committed c begun.state = begin_update-Committed c q x measured saved s sound h in
      let taken : (reserve env c fresh_id n now begun.state).0
          ≡ record begun.state { reservations = insert begun.state.reservations fresh_id r } =
        (reserve_answer env c fresh_id n now begun.state r sound kept answer).3
        ∙ rw (accepted, live) refl in
      rw (o, finish_update, roll_back, redeployed, back, taken, begun_state)
        (omega (arith, rolled_back w t fresh_id r h.unique_active u.found new id))
