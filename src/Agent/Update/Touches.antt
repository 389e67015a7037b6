-- ===== src/Agent/Update/Touches.antt =====
-- The sections of an update touch the records of its workload only.
use podmesh.Manifest.{ManifestResources}
use podmesh.Agent.Update.{transitioning, already_active, conflict}
use podmesh.Agent.Update.Charge.{find_update-Started, Started}
use podmesh.Prelude.{Bool, ◌∙◌, sym, ap, refl, string_eq, Option, subst, ◌>>◌}
use podmesh.Map.{get, contains_key, insert}
use podmesh.Protocol.Messages.{UpdateRequest}
use podmesh.Agent.State.{Config, StoredWorkload}
use podmesh.Agent.Update.{
  updated, commit_update, roll_back, started, record_start, find_update, UpdateStart, UpdateAnswers,
  begin_update, finish_update,
}
use podmesh.Agent.Deploy.Local.{Kept, stay-Touches, write-Touches, Touches, KeptAt}
use podmesh.Prelude.{inl, inr, ok, Result-cases, err, ◌≡◌, Result, String}
use podmesh.Agent.Deploy.{done, failed, RuntimeOutcome, put, ExecutionSpec, Service}

module _ {d : Bool} (id : String) (s : Service) (h : KeptAt d id s) where
  pub begin_update-Touches :
      (c : Config) (q : UpdateRequest) (x : ExecutionSpec) (measured : Result ManifestResources)
      (saved : Result (Unit {0}))
      → q.workload_id ≡ id
      → Touches d id s (begin_update c q x measured saved s).0
  unfolding begin_update transitioning
  begin_update-Touches c q x measured saved named =
      by_start (find_update c q x measured s.state) refl
    where
      by_start :
          (r : Result UpdateStart)
          → find_update c q x measured s.state ≡ r
          → Touches d id s (record_start q saved s r).0
      by_start (err m) e = unfold record_start in stay-Touches id s h
      by_start (ok already_active) e = unfold record_start in stay-Touches id s h
      by_start (ok conflict) e = unfold record_start in stay-Touches id s h
      by_start (ok (started w t)) e = elim (Result-cases saved) [
        | inr (m, unsaved) ↦
            unfold record_start in (rw (unsaved, record_start) (stay-Touches id s h))
        | inl (_, written) ↦
            let found : Started c q x s.state w t =
              find_update-Started c q x measured s.state w t e in
            let held : KeptAt d id s = h in
            unfold record_start in
            (rw (written, record_start, named)
              (write-Touches id t s (
                rw found.target
                  (subst (λ (z : Option StoredWorkload). Kept d id z (contains_key s.store id))
                    (ap (get s.state.active) (sym named) ∙ found.found) h).0)))
      ]

  pub finish_update-Touches :
      (w : StoredWorkload) (q : UpdateRequest) (x : ExecutionSpec) (a : UpdateAnswers)
      → w.grant.workload_id ≡ id
      → q.workload_id ≡ id
      → q.grant.workload_id ≡ id
      → Touches d id s (finish_update w q x a s).0
  unfolding finish_update
  finish_update-Touches w q x a named asked granted = by_outcome a.outcome refl
    where
      back : Touches d id s (record (put w s) { store = insert s.store w.grant.workload_id w })
      back = rw (← named) (write-Touches w.grant.workload_id w s refl)

      by_outcome : (o : RuntimeOutcome) → a.outcome ≡ o → Touches d id s (finish_update w q x a s).0
      by_outcome (failed uncertain e) o = elim (Result-cases (do a.redeployed; a.saved_back)) [
        | inr (message, stuck) ↦
            unfold roll_back in (rw (o, finish_update, roll_back, stuck) (stay-Touches id s h))
        | inl (_, done_back) ↦
            unfold roll_back in (rw (o, finish_update, roll_back, done_back) back)
      ]
      by_outcome (done r) o = elim (Result-cases a.saved) [
        | inr (message, unsaved) ↦
            unfold commit_update in
            (rw (o, finish_update, commit_update, unsaved) (stay-Touches id s h))
        | inl (_, saved) ↦
            unfold commit_update in
            (rw (o, finish_update, commit_update, saved, asked)
              (write-Touches id (updated q x r) s granted))
      ]
