-- ===== src/Agent/World/Reachable.antt =====
-- What every interleaving of requests keeps.
use podmesh.Agent.World.Cuts.{drops_at_lock-Inv, drops_mark-Inv}
use podmesh.Map.{contains_key}
use podmesh.Agent.World.{drops_at_lock, drops_mark}
use mathlib.Core.Option.{some-injective}
use podmesh.Agent.World.Deletions.{delete_begins-Inv}
use podmesh.Agent.World.Coherence.{found_at}
use podmesh.Map.{get}
use podmesh.Agent.Deploy.Local.{stay-Touches}
use podmesh.Agent.World.Interleaving.{
  delete_answered-Inv, update_answered-Inv, update_begins-Inv, cleaned-Inv, deploy_answered-Inv,
  deploy_begins-Inv,
}
use podmesh.Agent.Admission.Commitment.{reserve-active}
use podmesh.Agent.World.Coherence.{settle-Inv, CoherentAt, Inv}
use podmesh.Protocol.Messages.{UpdateRequest}
use podmesh.Agent.State.{WorkloadState, Config}
use podmesh.Agent.Admission.{Env}
use podmesh.Prelude.{
  false, Bool, true, string_eq, none, subst, ◌∙◌, ap, some, ok, Option, ◌≡◌, String, ℕ,
}
use podmesh.Agent.World.{
  get, settle, Flight, Step, Reach, World, Config, UpdateRequest, Env, enrolling,
}
use podmesh.Agent.World.{
  admits, begins_deploy, answers_deploy, cleans, begins_update, answers_update, begins_delete,
  answers_delete, begins_enrollment, drops, here, next,
}

-- A verified update carries a grant for the workload that it names (`UpdateRequest::verify`).
abbrev pub BindsGrant : Env → Type 0
BindsGrant env =
    (q : UpdateRequest) (now : ℕ)
    → env.verify_update q now ≡ ok tt
    → q.grant.workload_id ≡ q.workload_id

-- No request is dropped, at the lock on the state, once it has removed its durable record.
abbrev pub IsKept : {env : Env} {c : Config} {s t : World} → Step env c s t → Type 0
IsKept (drops_at_lock id f t waits ends) = contains_key t.store id ≡ true
IsKept (admits fresh_id q now) = Unit {0}
IsKept (begins_deploy g p now free) = Unit {0}
IsKept (answers_deploy id w o saved saved_pending waits) = Unit {0}
IsKept (cleans id w answer waits) = Unit {0}
IsKept (begins_update q x measured saved now verified free) = Unit {0}
IsKept (answers_update id w t q x a waits) = Unit {0}
IsKept (begins_delete id w saved found free) = Unit {0}
IsKept (answers_delete id w a waits) = Unit {0}
IsKept (begins_enrollment id free) = Unit {0}
IsKept (drops_mark id w found free clean idle) = Unit {0}
IsKept (drops id f waits) = Unit {0}

abbrev pub AreKept : {env : Env} {c : Config} {s t : World} → Reach env c s t → Type 0
AreKept here = Unit {0}
AreKept (next r p) = AreKept r × IsKept p

module _ (env : Env) (c : Config) (binds : BindsGrant env) (d : Bool) where
  admits-Inv :
      (s : World) (t : WorkloadState)
      → t.active ≡ s.service.state.active
      → Inv d s
      → Inv d (record s { service = record s.service { state = t } })
  admits-Inv s t same h = record {
    kept = λ id. rw same (h.kept id);
    flying = λ id f e. rw same (h.flying id f e);
  }

  drops-Inv :
      (id : String) (f : Option Flight) (s : World)
      → ((g : Flight) → f ≡ some g → CoherentAt d id g s.service)
      → Inv d s
      → Inv d (settle id f s.service s)
  drops-Inv id f s ready h =
      settle-Inv id f s.service s h (stay-Touches id s.service (h.kept id)) ready

  Step-Inv : {s t : World} (p : Step env c s t) → (d ≡ true → IsKept p) → Inv d s → Inv d t
  Step-Inv {s} (admits fresh_id q now) keeps h =
      admits-Inv s _ (reserve-active env c fresh_id q now s.service.state) h
  Step-Inv {s} (begins_deploy g p now free) keeps h = deploy_begins-Inv env c g p now s h
  Step-Inv {s} (answers_deploy id w o saved saved_pending waits) keeps h =
      deploy_answered-Inv env c id w o saved saved_pending s waits h
  Step-Inv {s} (cleans id w answer waits) keeps h = cleaned-Inv env c id w answer s waits h
  Step-Inv {s} (begins_update q x measured saved now verified free) keeps h =
      update_begins-Inv env c q x measured saved s (binds q now verified) h
  Step-Inv {s} (answers_update id w t q x a waits) keeps h =
      update_answered-Inv env c id w t q x a s waits h
  Step-Inv {s} (begins_delete id w saved found free) keeps h =
      delete_begins-Inv w saved s (ap (get s.service.state.active) (found_at s w found h).0 ∙ found)
        h
  Step-Inv {s} (answers_delete id w a waits) keeps h = delete_answered-Inv env c id w a s waits h
  Step-Inv {s} (begins_enrollment id free) keeps h =
      drops-Inv id (some enrolling) s
        (λ g e.
          subst (λ (z : Flight). CoherentAt d id z s.service) (some-injective enrolling g e) tt)
        h
  Step-Inv {s} (drops id f waits) keeps h = drops-Inv id none s (λ g e. absurd (cc)) h
  Step-Inv {s} (drops_at_lock id f t waits ends) keeps h =
      drops_at_lock-Inv d id f t s waits ends keeps h
  Step-Inv {s} (drops_mark id w found free clean idle) keeps h = drops_mark-Inv d id w s found h

  -- Between the steps of any interleaving in which every verified update binds its grant, if it
  -- was so at first: every workload in the state stands under its own identifier, and every request
  -- that waits to go on with a workload finds it in the state as it left it. With `d` true, if no
  -- request is dropped at the lock on the state once it has removed its durable record: every
  -- workload in the state has a durable record as well.
  pub Reach-Inv : {s t : World} (r : Reach env c s t) → (d ≡ true → AreKept r) → Inv d s → Inv d t
  Reach-Inv here keeps h = h
  Reach-Inv (next r p) keeps h =
      Step-Inv p (λ asked. (keeps asked).1) (Reach-Inv r (λ asked. (keeps asked).0) h)

never_asked :
    {env : Env} {c : Config} {s t : World} (r : Reach env c s t) → false ≡ true → AreKept r
never_asked r e = absurd (cc)

pub Reach-Ordered :
    (env : Env) (c : Config)
    → BindsGrant env
    → {s t : World} (r : Reach env c s t) → Inv false s
    → Inv false t
Reach-Ordered env c binds r h = Reach-Inv env c binds false r (never_asked r) h
