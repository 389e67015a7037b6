-- ===== src/Agent/Update/Tests.antt =====
-- Tests of updates, and the theorems on them at concrete services.
use podmesh.Fifo.Consistent.{empty-IsConsistent}
use podmesh.Agent.ReplayCache.{run, Call}
use podmesh.Agent.Usage.{fits_within, plus, add_all}
use podmesh.Prelude.{◌∷◌, List, [], ◌+◌, ◌≤◌, ◌<◌, ◌≡◌, refl, true, false, ok, arith, string_eq}
use podmesh.Map.{retain_entries, get, insert, remove, total, retain_entries}
use podmesh.Protocol.Messages.{Reservation, AdmissionRequest}
use podmesh.Agent.State.{
  reserved_capacity_ceiling, usage, reservations_for, contains_workload, StoredWorkload,
  of_workload, of_reservation, drop_expired, usage_without,
}
use podmesh.Agent.Capacity.{Committed, cpu_promised}
use podmesh.Agent.Admission.{checks, reservation_for, sign, reserve}
use podmesh.Agent.Deploy.{done, failed}
use podmesh.Agent.Update.{
  started, transitioning, update_fits, begin_update, UpdateAnswers, finish_update, find_update,
  check_update,
}
use podmesh.Agent.Deploy.Arrival.{Arrival, Node}
use podmesh.Agent.Update.Arrival.{Entered, arrive_update, arrive_update_started}
use podmesh.Agent.Update.Charge.{begin_update-Committed, fits_exact}
use podmesh.Agent.Update.Rollback.{update_rollback_overcommits}
use podmesh.Agent.Fixtures.{
  config, config-IsSound, request, update, reservation, workload, execution, measured,
  running_state, env, service, running_state-Committed,
}

abbrev target : StoredWorkload
target = transitioning update workload

abbrev committed_answers : UpdateAnswers
committed_answers = record {
  outcome = done "vm2";
  saved = ok tt;
  redeployed = ok tt;
  saved_back = ok tt;
}

abbrev rolled_back_answers : UpdateAnswers
rolled_back_answers = record committed_answers { outcome = failed false "no image" }

-- A second workload of the same owner, for which there is room only once the update has started.
abbrev second : AdmissionRequest
second = record request { workload_id = "db"; cpu_milli = 500 }

abbrev second_reservation : Reservation
second_reservation = record reservation {
  reservation_id = "r2";
  workload_id = "db";
  cpu_milli = 500;
}

update_starts :
    (begin_update config update execution (ok measured) (ok tt) (service running_state)).1
    ≡ ok (started workload target)
unfolding begin_update find_update get check_update update_fits fits_within plus usage_without
    add_all retain_entries
update_starts = refl

second_accepted :
    (reserve env config "r2" second 100
      (begin_update config update execution
        (ok measured)
        (ok tt)
        (service running_state)).0.state).1
    ≡ ok second_reservation
unfolding begin_update reserve sign reservation_for checks drop_expired contains_workload get remove
    insert retain_entries reservations_for fits_within plus usage add_all reserved_capacity_ceiling
    total find_update check_update update_fits usage_without
second_accepted = refl

nothing_expires :
    drop_expired 100
      (begin_update config update execution (ok measured) (ok tt) (service running_state)).0.state
    ≡ (begin_update config update execution (ok measured) (ok tt) (service running_state)).0.state
unfolding begin_update drop_expired retain_entries get remove insert find_update check_update
    update_fits fits_within plus usage_without add_all
nothing_expires = refl

begin_update-Committed_example :
    Committed config
      (begin_update config update execution (ok measured) (ok tt) (service running_state)).0.state
begin_update-Committed_example =
    begin_update-Committed config update execution (ok measured) (ok tt) (service running_state)
      config-IsSound running_state-Committed

update_fits_now : update_fits config running_state update ≡ true
unfolding update_fits fits_within plus usage_without add_all retain_entries
update_fits_now = refl

fits_exact_example :
    (total of_workload.cpu (remove running_state.active "web")
        + total of_reservation.cpu running_state.reservations
        + 100
      ≤ 1000)
    × (total of_workload.memory (remove running_state.active "web")
          + total of_reservation.memory running_state.reservations
          + 512
        ≤ 4096)
    × (total of_workload.storage (remove running_state.active "web")
          + total of_reservation.storage running_state.reservations
          + 1024
        ≤ 8192)
fits_exact_example =
    fits_exact config update execution running_state workload target config-IsSound update_fits_now

update_rollback_overcommits_example :
    1000
    < cpu_promised
        (finish_update workload update execution rolled_back_answers
          (record (begin_update config update execution
            (ok measured)
            (ok tt)
            (service running_state)).0 {
              state =
                  (reserve env config "r2" second 100
                    (begin_update config update execution
                      (ok measured)
                      (ok tt)
                      (service running_state)).0.state).0;
            })).0.state
unfolding get total
update_rollback_overcommits_example =
    update_rollback_overcommits env config update execution (ok measured) (ok tt)
      (service running_state) workload target "r2" second 100 second_reservation rolled_back_answers
      false "no image" config-IsSound running_state-Committed update_starts refl nothing_expires
      refl second_accepted refl refl refl refl (omega arith)

abbrev running_node : Node
running_node = record { service = service running_state; replay = record { seen = []; order = [] } }

abbrev arrival : Arrival
arrival = record { decoded = ok execution; manifest = ok tt; guard = ok tt }

-- Another message is recorded before the request comes again.
abbrev others : List Call
others = record { key = "deploy:ns1:n9"; expires_at = 150; now = 120 } ∷ []

abbrev node_later : Node
node_later =
    let first : Node =
      (arrive_update env config update arrival (ok measured) (ok tt) 110 111 running_node).0 in
    record { service = running_node.service; replay = run others first.replay }

arrival_starts :
    (arrive_update env config update arrival (ok measured) (ok tt) 110 111 running_node).1
    ≡ ok (started workload target)
unfolding arrive_update podmesh.Agent.ReplayCache.record_key transitioning get podmesh.Fifo.prune
arrival_starts = rw update_starts refl

arrive_update_started_example :
    Entered env update arrival 110 111 running_node.replay
    × ((arrive_update env config update arrival (ok measured) (ok tt) 120 121 node_later).0.service
        ≡ node_later.service)
arrive_update_started_example =
    arrive_update_started env config update arrival arrival (ok measured) (ok measured) (ok tt)
      (ok tt) 110 111 120 121 running_node node_later (started workload target) others
      (record { consistent = empty-IsConsistent; bounded = omega arith }) arrival_starts refl
      (omega arith, tt) (omega arith) (omega arith)
