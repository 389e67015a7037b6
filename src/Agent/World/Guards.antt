-- ===== src/Agent/World/Guards.antt =====
-- The guards of workloads that change are at most as many as workloads may be configured.
use podmesh.Agent.Deploy.{put}
use podmesh.Agent.World.{cleanup_flight, drops_at_lock, drops_mark}
use podmesh.Agent.World.Coherence.{found_at}
use podmesh.Agent.Update.{finish_update, begin_update}
use podmesh.Agent.Deploy.Waits.{end_delete, mark_deleting, settle_deploy}
use podmesh.Map.Totals.{size-insert_old, size-insert-le, size-remove-le}
use podmesh.Agent.World.Coherence.{Inv}
use podmesh.Map.Laws.{insert-UniqueKeys, remove-UniqueKeys}
use podmesh.Agent.Deploy.{after_cleanup, begin_deploy, is_updating, Service}
use podmesh.Agent.World.Reachable.{Reach-Ordered, BindsGrant}
use podmesh.Map.{get, UniqueKeys, size}
use podmesh.Agent.State.{needs_cleanup, Config, StoredWorkload}
use podmesh.Agent.Admission.{Env}
use podmesh.Prelude.{
  true, false, sym, subst, if◌then◌else◌, none, inr, some, inl, ◌⊎◌, ltb, string_eq, Bool-cases,
  ◌<◌, ◌≤◌, ok, Result, Option, ◌≡◌, String, arith,
}
use podmesh.Agent.World.{
  begin_update, update_flight, mark_deleting, settle_deploy, deploy_flight, Step, delete_answered,
  update_answered, get, update_begins, max_configured_workloads, Service, deploy_answered, Reach,
  deploy_begins, Flight, size, Config, StoredWorkload, Env, World, settle, mutation, delete_begins,
  cleaned, enrolling, deploying, cleaning, updating_from, deleting_from,
}
use podmesh.Agent.World.{
  admits, begins_deploy, answers_deploy, cleans, begins_update, answers_update, begins_delete,
  answers_delete, begins_enrollment, drops, here, next,
}

pub record IsBounded (s : World) : Type 0 where
  pub unique : UniqueKeys s.flights
  pub room : size s.flights ≤ max_configured_workloads

-- A guard that is free and within the limit, or that is held already.
abbrev MayHold : String → World → Type 0
MayHold id s =
    (size s.flights < max_configured_workloads) ⊎ ((f : Flight) × (get s.flights id ≡ some f))

mutation-MayHold : (id : String) (s : World) → mutation id s ≡ ok tt → MayHold id s
unfolding mutation
mutation-MayHold id s free = elim (Bool-cases (ltb (size s.flights) max_configured_workloads)) [
  | inl small ↦ inl (ground arith)
  | inr large ↦ absurd (ground arith)
]

settle-IsBounded :
    (id : String) (f : Option Flight) (t : Service) (s : World)
    → MayHold id s
    → IsBounded s
    → IsBounded (settle id f t s)
unfolding settle
settle-IsBounded id none t s may h = record {
  unique = remove-UniqueKeys s.flights id h.unique;
  room = omega (arith, h.room, size-remove-le s.flights id);
}
settle-IsBounded id (some f) t s (inl small) h = record {
  unique = insert-UniqueKeys s.flights id f h.unique;
  room = omega (arith, small, size-insert-le s.flights id f);
}
settle-IsBounded id (some f) t s (inr (g, held)) h = record {
  unique = insert-UniqueKeys s.flights id f h.unique;
  room = omega (arith, h.room, size-insert_old s.flights id g f h.unique held);
}

delete_begins-IsBounded :
    (w : StoredWorkload) (saved : Result (Unit {0})) (s : World)
    → MayHold w.grant.workload_id s
    → IsBounded s
    → IsBounded (delete_begins w saved s)
unfolding delete_begins
delete_begins-IsBounded w saved s may h = elim (Bool-cases (needs_cleanup w)) [
  | inl unclean ↦
      rw (unclean, delete_begins)
        (settle-IsBounded w.grant.workload_id (some (cleaning w)) s.service s may h)
  | inr clean ↦ elim (Bool-cases (is_updating w.phase)) [
    | inl busy ↦
        rw (clean, delete_begins, busy)
          (settle-IsBounded w.grant.workload_id none s.service s may h)
    | inr idle ↦
        rw (clean, delete_begins, idle)
          (settle-IsBounded w.grant.workload_id
            (if (mark_deleting w saved s.service).1 then some (deleting_from w) else none)
            (mark_deleting w saved s.service).0 s may h)
  ]
]

module _ {env : Env} {c : Config} where
  Step-IsBounded : {s t : World} → Step env c s t → Inv false s → IsBounded s → IsBounded t
  unfolding deploy_begins deploy_answered cleaned update_begins update_answered delete_answered
  Step-IsBounded {s} (admits fresh_id q now) i h = record { unique = h.unique; room = h.room }
  Step-IsBounded {s} (begins_deploy g p now free) i h =
      settle-IsBounded g.workload_id (deploy_flight (begin_deploy env g p now s.service).1)
        (begin_deploy env g p now s.service).0 s (mutation-MayHold g.workload_id s free) h
  Step-IsBounded {s} (answers_deploy id w o saved saved_pending waits) i h =
      settle-IsBounded id (cleanup_flight (settle_deploy w o saved saved_pending s.service).1)
        (settle_deploy w o saved saved_pending s.service).0 s (inr (deploying w, waits)) h
  Step-IsBounded {s} (cleans id w answer waits) i h =
      settle-IsBounded id none (after_cleanup w.grant.workload_id answer s.service) s
        (inr (cleaning w, waits)) h
  Step-IsBounded {s} (begins_update q x measured saved now verified free) i h =
      settle-IsBounded q.workload_id
        (update_flight q x (begin_update c q x measured saved s.service).1)
        (begin_update c q x measured saved s.service).0 s (mutation-MayHold q.workload_id s free) h
  Step-IsBounded {s} (answers_update id w t q x a waits) i h =
      settle-IsBounded id none (finish_update w q x a s.service).0 s
        (inr (updating_from w t q x, waits)) h
  Step-IsBounded {s} (begins_delete id w saved found free) i h =
      delete_begins-IsBounded w saved s
        (subst (λ (z : String). MayHold z s) (sym (found_at s w found i).0)
          (mutation-MayHold id s free))
        h
  Step-IsBounded {s} (answers_delete id w a waits) i h =
      settle-IsBounded id none (end_delete w a s.service) s (inr (deleting_from w, waits)) h
  Step-IsBounded {s} (begins_enrollment id free) i h =
      settle-IsBounded id (some enrolling) s.service s (mutation-MayHold id s free) h
  Step-IsBounded {s} (drops_at_lock id f t waits ends) i h =
      settle-IsBounded id none (record s.service { store = t.store }) s (inr (f, waits)) h
  Step-IsBounded {s} (drops_mark id w found free clean idle) i h =
      settle-IsBounded id none (put (record w { deleting = true }) s.service) s
        (mutation-MayHold id s free) h
  Step-IsBounded {s} (drops id f waits) i h =
      settle-IsBounded id none s.service s (inr (f, waits)) h

-- Through any interleaving, if every verified update binds its grant and it was so at first, the
-- guards that are held are of different workloads, and there are at most ten thousand.
pub Reach-IsBounded :
    {env : Env} {c : Config} {s t : World}
    → Reach env c s t
    → BindsGrant env
    → Inv false s
    → IsBounded s
    → IsBounded t
Reach-IsBounded here binds i h = h
Reach-IsBounded {env} {c} (next r p) binds i h =
    Step-IsBounded p (Reach-Ordered env c binds r i) (Reach-IsBounded r binds i h)
