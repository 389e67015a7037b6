-- ===== src/Agent/World/Tests.antt =====
-- Interleavings that run, and the theorems on them.
use podmesh.Agent.World.{delete_begins}
use podmesh.Agent.Deploy.{DeleteAnswers}
use podmesh.Prelude.{false, true}
use podmesh.Agent.Usage.{add_all, plus, fits_within}
use podmesh.Agent.World.Guards.{IsBounded, Reach-IsBounded}
use podmesh.Protocol.Messages.{AdmissionRequest}
use podmesh.Agent.World.Promises.{Reach-Committed, CommittedAt}
use podmesh.Agent.State.{usage_without, StoredWorkload}
use podmesh.Agent.Admission.{reserve, Env}
use podmesh.Agent.World.Coherence.{Inv}
use podmesh.Map.{insert, retain_entries, get}
use podmesh.Agent.World.Reachable.{Reach-Inv, BindsGrant}
use podmesh.Agent.Update.{
  update_fits, check_update, find_update, begin_update, transitioning, UpdateAnswers,
}
use podmesh.Prelude.{
  false, true, Bool, arith, refl, [], ◌==◌, string_eq, ensure, eq_lem, inl, inr, Bool-cases, ok,
}
use podmesh.Agent.Fixtures.{
  config, config-IsSound, request, update, workload, execution, measured, running_state, env,
  service, running_state-Committed,
}
use podmesh.Agent.World.{
  insert, done, Env, reserve, get, StoredWorkload, UpdateAnswers, AdmissionRequest, admits,
  begins_update, answers_update, here, next, mutation, update_begins, update_answered, Reach, World,
}

-- The signatures are good if the grant is bound.
abbrev strict : Env
strict = record env {
  verify_update =
      λ q now. ensure (q.grant.workload_id == q.workload_id) "update grant binding mismatch";
}

strict-BindsGrant : BindsGrant strict
strict-BindsGrant q now e = ground (arith, eq_lem q.grant.workload_id q.workload_id)

abbrev start : World
start = record { service = service running_state; flights = [] }

abbrev second : AdmissionRequest
second = record request { workload_id = "db"; cpu_milli = 100 }

abbrev target : StoredWorkload
target = transitioning update workload

abbrev update_answers : UpdateAnswers
update_answers = record {
  outcome = done "vm2";
  saved = ok tt;
  redeployed = ok tt;
  saved_back = ok tt;
}

abbrev begun : World
begun = update_begins config update execution (ok measured) (ok tt) start

abbrev admitted : World
admitted = record begun {
  service = record begun.service {
    state = (reserve strict config "r2" second 100 begun.service.state).0;
  };
}

abbrev ended : World
ended = update_answered "web" workload update execution update_answers admitted

-- An update starts, a request for another workload is admitted, the update ends.
interleaved : Reach strict config start ended
unfolding mutation get update_begins begin_update find_update check_update update_fits fits_within
    plus usage_without add_all retain_entries insert
interleaved =
    next
      (next (next here (begins_update update execution (ok measured) (ok tt) 100 refl refl))
        (admits "r2" second 100))
      (answers_update "web" workload target update execution update_answers refl)

start-Inv : (d : Bool) → Inv d start
unfolding get
start-Inv d = record {
  kept = λ id. elim (Bool-cases ("web" == id)) [
    | inl same ↦ rw (same, get) ((eq_lem "web" id).0 same, λ asked. refl)
    | inr other ↦ rw (other, get) tt
  ];
  flying = λ id f e. absurd (cc);
}

Reach-Inv_example : Inv true ended
unfolding interleaved
Reach-Inv_example =
    Reach-Inv strict config strict-BindsGrant true interleaved (λ asked. (((tt, tt), tt), tt))
      (start-Inv true)

Reach-Committed_example : CommittedAt config ended
unfolding interleaved
Reach-Committed_example =
    Reach-Committed strict config config-IsSound interleaved strict-BindsGrant
      (((tt, tt), tt), λ u m e. absurd (cc)) (start-Inv false) running_state-Committed

Reach-IsBounded_example : IsBounded ended
Reach-IsBounded_example =
    Reach-IsBounded interleaved strict-BindsGrant (start-Inv false)
      (record { unique = tt; room = omega arith })

abbrev deleting_world : World
deleting_world = delete_begins workload (ok tt) start

abbrev delete_answers : DeleteAnswers
delete_answers = record {
  saved_mark = ok tt;
  runtime = ok tt;
  removed = ok tt;
  saved_back = ok tt;
  cleaned = ok tt;
}
