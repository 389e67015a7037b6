-- ===== src/Agent/Deploy/Tests.antt =====
-- Tests of deployments and deletions, and the theorems on them at concrete services.
use podmesh.Agent.ReplayCache.{Call}
use podmesh.Fifo.{prune}
use podmesh.Agent.ReplayCache.{run, record_key}
use podmesh.Prelude.{◌∷◌, List, ◌≡◌, refl, true, none, some, [], Result, ok, err, arith, string_eq}
use podmesh.Map.{get, insert}
use podmesh.Protocol.Messages.{Reservation}
use podmesh.Agent.State.{StoredWorkload, needs_cleanup}
use podmesh.Agent.Capacity.{Committed}
use podmesh.Agent.Deploy.{
  Plan, stored_for, begin_deploy, failed, Answers, DeleteAnswers, delete_workload,
  check_reservation,
}
use podmesh.Agent.Deploy.Charge.{Checked, begin_deploy-Committed, begin_deploy_started}
use podmesh.Agent.Deploy.Durable.{IsDurable}
use podmesh.Fifo.Consistent.{empty-IsConsistent}
use podmesh.Agent.Deploy.Arrival.{Node, Arrival, start_deploy, start_deploy_twice}
use podmesh.Agent.Fixtures.{
  config, grant, reservation, workload, execution, measured, reserved_state, running_state, env,
  service, reserved_state-Committed,
}

abbrev plan : Plan
plan = record { execution = execution; measured = ok measured; target = ok "vm1"; saved = ok tt }

abbrev planned : StoredWorkload
planned = stored_for grant reservation execution "vm1"

-- The runtime fails without a certain outcome, and the cleanup fails as well.
abbrev uncertain_answers : Answers
uncertain_answers = record {
  outcome = failed true "timed out";
  saved = ok tt;
  saved_pending = ok tt;
  cleaned = err "runtime is down";
}

-- The runtime refuses to stop the workload.
abbrev refused_delete : DeleteAnswers
refused_delete = record {
  saved_mark = ok tt;
  runtime = err "busy";
  removed = ok tt;
  saved_back = ok tt;
  cleaned = ok tt;
}

abbrev down : Result (Unit {0})
down = err "down"

running_state-IsDurable : IsDurable (service running_state)
running_state-IsDurable = record { at = λ id h. h }

deploy_starts : (begin_deploy env grant plan 110 (service reserved_state)).1 ≡ ok planned
unfolding begin_deploy get check_reservation
deploy_starts = refl

deletion_restores :
    get (delete_workload workload refused_delete (service running_state)).0.state.active "web"
    ≡ some workload
unfolding delete_workload get needs_cleanup insert
deletion_restores = refl

begin_deploy-Committed_example :
    Committed config (begin_deploy env grant plan 110 (service reserved_state)).0.state
begin_deploy-Committed_example =
    begin_deploy-Committed env config grant plan 110 (service reserved_state)
      reserved_state-Committed

begin_deploy_started_example :
    (r : Reservation) × (get reserved_state.reservations "r1" ≡ some r)
    × Checked grant plan r [] planned
    × (get (begin_deploy env grant plan 110 (service reserved_state)).0.state.active "web"
        ≡ some planned)
    × (get (begin_deploy env grant plan 110 (service reserved_state)).0.store "web" ≡ some planned)
    × (get (begin_deploy env grant plan 110 (service reserved_state)).0.state.reservations "r1"
        ≡ none)
begin_deploy_started_example =
    begin_deploy_started env grant plan 110 (service reserved_state) planned deploy_starts

abbrev node : Node
node = record { service = service reserved_state; replay = record { seen = []; order = [] } }

abbrev arrival : Arrival
arrival = record { decoded = ok execution; manifest = ok tt; guard = ok tt }

arrival_starts : (start_deploy env grant arrival plan 110 111 node).1 ≡ ok planned
unfolding start_deploy record_key get prune begin_deploy check_reservation
arrival_starts = refl

-- Another message is recorded, and the reservation is back, when the grant comes again.
abbrev others : List Call
others = record { key = "admission:ns1:n9"; expires_at = 400; now = 120 } ∷ []

abbrev node_later : Node
node_later = record {
  service = node.service;
  replay = run others (start_deploy env grant arrival plan 110 111 node).0.replay;
}

start_deploy_twice_example :
    (start_deploy env grant arrival plan 150 151 node_later).0.service ≡ node_later.service
start_deploy_twice_example =
    start_deploy_twice env grant arrival arrival plan plan 110 111 150 151 node node_later planned
      others (record { consistent = empty-IsConsistent; bounded = omega arith }) arrival_starts refl
      ((omega arith, tt), omega arith) (omega arith)
