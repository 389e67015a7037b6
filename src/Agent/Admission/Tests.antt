-- ===== src/Agent/Admission/Tests.antt =====
-- Tests of the admission, and the theorems on it at concrete agents.
use podmesh.Agent.ReplayCache.{Call}
use podmesh.Fifo.{prune}
use podmesh.Agent.Usage.{fits_within, plus, add_all}
use podmesh.Prelude.{List, string_eq, ◌+◌, ◌≡◌, ◌↔◌, refl, true, [], ◌∷◌, ok, arith}
use podmesh.Map.{insert, get, retain_entries}
use podmesh.Fifo.Consistent.{empty-IsConsistent}
use podmesh.Agent.State.{
  drop_expired, contains_workload, reservations_for, usage, reserved_capacity_ceiling,
}
use podmesh.Agent.ReplayCache.{run, record_key}
use podmesh.Agent.Capacity.{Committed}
use podmesh.Agent.Admission.{Agent, checks, is_accepted, reserve, admit, sign, reservation_for}
use podmesh.Agent.Admission.Exact.{Admissible, accepted-Admissible}
use podmesh.Agent.Admission.Commitment.{admit-Committed}
use podmesh.Agent.Admission.Outcome.{reserve_answer, admit_twice}
use podmesh.Agent.Fixtures.{
  config, config-IsSound, request, reservation, env, idle_agent, empty_state, empty_state-Committed,
  running_state, running_state-Committed,
}

accepted_answer : (reserve env config "r1" request 100 empty_state).1 ≡ ok reservation
unfolding reserve sign reservation_for checks drop_expired contains_workload get retain_entries
    reservations_for fits_within plus usage add_all reserved_capacity_ceiling
accepted_answer = refl

admitted : (admit env "r1" request 100 idle_agent).1 ≡ ok (7 ∷ [])
unfolding admit record_key get prune reserve sign
admitted = refl

running_agent : Agent
running_agent = record idle_agent { state = running_state }

admit-Committed_example : Committed config (admit env "r1" request 100 idle_agent).0.state
admit-Committed_example =
    admit-Committed env "r1" request 100 idle_agent config-IsSound empty_state-Committed

accepted-Admissible_example :
    (is_accepted (checks config running_state request) ≡ true)
    ↔ Admissible config running_state request
accepted-Admissible_example =
    accepted-Admissible config running_state request config-IsSound running_state-Committed

reserve_answer_example :
    ((true ≡ true) ↔ Admissible config (drop_expired 100 empty_state) request)
    × ((reservation.reason ≡ "") ↔ (true ≡ true))
    × (reservation.expires_at_secs ≡ 100 + 30)
    × ((reserve env config "r1" request 100 empty_state).0
        ≡ record empty_state { reservations = insert [] "r1" reservation })
unfolding drop_expired retain_entries
reserve_answer_example =
    reserve_answer env config "r1" request 100 empty_state reservation config-IsSound
      empty_state-Committed accepted_answer

-- Another message is recorded before the request comes again.
abbrev others : List Call
others = record { key = "deploy:ns1:n9"; expires_at = 400; now = 120 } ∷ []

abbrev agent_later : Agent
agent_later = record {
  config = idle_agent.config;
  state = idle_agent.state;
  replay = run others (admit env "r1" request 100 idle_agent).0.replay;
}

admit_twice_example : (admit env "r2" request 150 agent_later).0.state ≡ agent_later.state
admit_twice_example =
    admit_twice env "r1" "r2" request 100 150 idle_agent agent_later (7 ∷ []) others
      (record { consistent = empty-IsConsistent; bounded = omega arith }) admitted refl
      (omega arith, tt) (omega arith) (omega arith)
