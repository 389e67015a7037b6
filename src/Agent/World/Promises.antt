-- ===== src/Agent/World/Promises.antt =====
-- What the agent has promised stays within its limits, however requests interleave.
use podmesh.Agent.Deploy.Completion.{mark-Committed}
use podmesh.Agent.Deploy.{put}
use podmesh.Prelude.{true, false, refl}
use podmesh.Agent.World.{cleanup_flight, drops_at_lock, drops_mark}
use podmesh.Agent.World.Coherence.{found_at}
use podmesh.Agent.Update.Rollback.{finish_update-Committed}
use podmesh.Protocol.Messages.{UpdateRequest}
use podmesh.Agent.World.{UpdateRequest, cleaned}
use podmesh.Agent.Update.Charge.{begin_update-Committed}
use podmesh.Agent.Deploy.Completion.{after_cleanup-Committed}
use podmesh.Agent.Deploy.WaitCharge.{
  end_delete-Committed, settle_deploy-Committed, mark_deleting-Committed,
}
use podmesh.Agent.Deploy.Waits.{end_delete, settle_deploy, mark_deleting}
use podmesh.Agent.Deploy.Charge.{begin_deploy-Committed}
use podmesh.Agent.Admission.Commitment.{reserve-Committed}
use podmesh.Agent.Capacity.Moves.{NoMore}
use podmesh.Map.{get}
use podmesh.Agent.Deploy.{ExecutionSpec, after_cleanup, is_updating, begin_deploy, failed, Service}
use podmesh.Agent.World.Coherence.{CoherentAt, Inv}
use podmesh.Agent.World.Reachable.{Reach-Ordered, BindsGrant}
use podmesh.Agent.Update.{finish_update, UpdateAnswers, begin_update, transitioning}
use podmesh.Agent.Capacity.{Committed, IsSound}
use podmesh.Agent.State.{needs_cleanup, StoredWorkload, Config}
use podmesh.Agent.Admission.{Env}
use podmesh.Prelude.{
  sym, ◌∙◌, string_eq, ap, if◌then◌else◌, inr, inl, none, Bool-cases, some, ◌≡◌, Result, Bool,
  Option, String, arith,
}
use podmesh.Agent.World.{
  update_flight, settle_deploy, mark_deleting, deploy_flight, delete_answered, update_begins,
  Service, get, cleaned, deploy_answered, Flight, deploy_begins, Reach, Step, update_answered,
  World, delete_begins, settle, Config, Env, enrolling, deploying, cleaning, updating_from,
  deleting_from,
}
use podmesh.Agent.World.{
  admits, begins_deploy, answers_deploy, cleans, begins_update, answers_update, begins_delete,
  answers_delete, begins_enrollment, drops, here, next,
}

-- An update that fails in the runtime had not asked for less than the workload held before.
abbrev pub IsGentle : {env : Env} {c : Config} {s t : World} → Step env c s t → Type 0
IsGentle (admits fresh_id q now) = Unit {0}
IsGentle (begins_deploy g p now free) = Unit {0}
IsGentle (answers_deploy id w o saved saved_pending waits) = Unit {0}
IsGentle (cleans id w answer waits) = Unit {0}
IsGentle (begins_update q x measured saved now verified free) = Unit {0}
IsGentle (answers_update id w t q x a waits) =
    (uncertain : Bool) (message : String) → a.outcome ≡ failed uncertain message → NoMore w t
IsGentle (begins_delete id w saved found free) = Unit {0}
IsGentle (answers_delete id w a waits) = Unit {0}
IsGentle (begins_enrollment id free) = Unit {0}
IsGentle (drops_at_lock id f t waits ends) = Unit {0}
IsGentle (drops_mark id w found free clean idle) = Unit {0}
IsGentle (drops id f waits) = Unit {0}

abbrev pub AreGentle : {env : Env} {c : Config} {s t : World} → Reach env c s t → Type 0
AreGentle here = Unit {0}
AreGentle (next r p) = AreGentle r × IsGentle p

abbrev pub CommittedAt : Config → World → Type 0
CommittedAt c s = Committed c s.service.state

settle-Committed :
    (c : Config) (id : String) (f : Option Flight) (t : Service) (s : World)
    → Committed c t.state
    → CommittedAt c (settle id f t s)
unfolding settle
settle-Committed c id none t s h = h
settle-Committed c id (some f) t s h = h

module _ (c : Config) where
  update_answered-Committed :
      (id : String) (w t : StoredWorkload) (q : UpdateRequest) (x : ExecutionSpec)
      (a : UpdateAnswers) (s : World)
      → CoherentAt false id (updating_from w t q x) s.service
      → ((uncertain : Bool) (message : String) → a.outcome ≡ failed uncertain message → NoMore w t)
      → CommittedAt c s
      → CommittedAt c (update_answered id w q x a s)
  unfolding update_answered transitioning
  update_answered-Committed id w t q x a s (named, asked, granted, target, held) gentle h =
      settle-Committed c id none (finish_update w q x a s.service).0 s (
        finish_update-Committed c w q x a s.service t (named ∙ sym asked)
          (ap (get s.service.state.active) asked ∙ held) (rw target (omega arith))
          (rw target (omega arith)) (rw target (omega arith)) gentle h)

  delete_begins-Committed :
      (w : StoredWorkload) (saved : Result (Unit {0})) (s : World)
      → get s.service.state.active w.grant.workload_id ≡ some w
      → CommittedAt c s
      → CommittedAt c (delete_begins w saved s)
  unfolding delete_begins
  delete_begins-Committed w saved s found h = elim (Bool-cases (needs_cleanup w)) [
    | inl unclean ↦
        rw (unclean, delete_begins)
          (settle-Committed c w.grant.workload_id (some (cleaning w)) s.service s h)
    | inr clean ↦ elim (Bool-cases (is_updating w.phase)) [
      | inl busy ↦
          rw (clean, delete_begins, busy)
            (settle-Committed c w.grant.workload_id none s.service s h)
      | inr idle ↦
          rw (clean, delete_begins, idle)
            (settle-Committed c w.grant.workload_id
              (if (mark_deleting w saved s.service).1 then some (deleting_from w) else none)
              (mark_deleting w saved s.service).0 s
              (mark_deleting-Committed c w saved s.service found h))
    ]
  ]

module _ (env : Env) (c : Config) (sound : IsSound c) where
  Step-Committed :
      {s t : World} (p : Step env c s t)
      → IsGentle p
      → Inv false s
      → CommittedAt c s
      → CommittedAt c t
  unfolding deploy_begins deploy_answered cleaned update_begins delete_answered
  Step-Committed {s} (admits fresh_id q now) gentle i h =
      reserve-Committed env c fresh_id q now s.service.state sound h
  Step-Committed {s} (begins_deploy g p now free) gentle i h =
      settle-Committed c g.workload_id (deploy_flight (begin_deploy env g p now s.service).1)
        (begin_deploy env g p now s.service).0 s (begin_deploy-Committed env c g p now s.service h)
  Step-Committed {s} (answers_deploy id w o saved saved_pending waits) gentle i h =
      let (named, held, recorded) = i.flying id (deploying w) waits in
      settle-Committed c id (cleanup_flight (settle_deploy w o saved saved_pending s.service).1)
        (settle_deploy w o saved saved_pending s.service).0 s
        (settle_deploy-Committed c w o saved saved_pending s.service
          (ap (get s.service.state.active) named ∙ held) h)
  Step-Committed {s} (cleans id w answer waits) gentle i h =
      settle-Committed c id none (after_cleanup w.grant.workload_id answer s.service) s
        (after_cleanup-Committed c w w.grant.workload_id answer s.service h)
  Step-Committed {s} (begins_update q x measured saved now verified free) gentle i h =
      settle-Committed c q.workload_id
        (update_flight q x (begin_update c q x measured saved s.service).1)
        (begin_update c q x measured saved s.service).0 s
        (begin_update-Committed c q x measured saved s.service sound h)
  Step-Committed {s} (answers_update id w t q x a waits) gentle i h =
      update_answered-Committed c id w t q x a s (i.flying id (updating_from w t q x) waits) gentle
        h
  Step-Committed {s} (begins_delete id w saved found free) gentle i h =
      delete_begins-Committed c w saved s
        (ap (get s.service.state.active) (found_at s w found i).0 ∙ found) h
  Step-Committed {s} (answers_delete id w a waits) gentle i h =
      let (named, held, recorded) = i.flying id (deleting_from w) waits in
      settle-Committed c id none (end_delete w a s.service) s
        (end_delete-Committed c w a s.service (ap (get s.service.state.active) named ∙ held) h)
  Step-Committed {s} (begins_enrollment id free) gentle i h =
      settle-Committed c id (some enrolling) s.service s h
  Step-Committed {s} (drops_at_lock id f t waits ends) gentle i h =
      settle-Committed c id none (record s.service { store = t.store }) s h
  Step-Committed {s} (drops_mark id w found free clean idle) gentle i h =
      settle-Committed c id none (put (record w { deleting = true }) s.service) s (
        mark-Committed c w (record w { deleting = true }) s.service refl
          (record { cpu = omega arith; memory = omega arith; storage = omega arith })
          (ap (get s.service.state.active) (found_at s w found i).0 ∙ found) h)
  Step-Committed {s} (drops id f waits) gentle i h = settle-Committed c id none s.service s h

  -- Under a sound configuration, through any interleaving of admissions, deployments, updates,
  -- deletions, enrollments and requests that are dropped, each cut at its waits, a state that was
  -- in order and committed stays committed, if every verified update binds its grant and no update
  -- that asked for less than its workload held fails in the runtime.
  pub Reach-Committed :
      {s t : World} (r : Reach env c s t)
      → BindsGrant env
      → AreGentle r
      → Inv false s
      → CommittedAt c s
      → CommittedAt c t
  Reach-Committed here binds gentle i h = h
  Reach-Committed (next r p) binds (before, last) i h =
      Step-Committed p last (Reach-Ordered env c binds r i) (Reach-Committed r binds before i h)
