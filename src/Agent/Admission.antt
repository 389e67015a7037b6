-- ===== src/Agent/Admission.antt =====
-- `AgentService::admit` of podmesh-agent/src/service.rs. Metrics are left out. The clock is an
-- argument, the identifier that `uuid` makes is an argument, and the cryptography is `Env`.
pub mod Commitment
pub mod Exact
pub mod Outcome
pub mod Tests
use Prim.Native.String.{◌++◌ as text_append}
use podmesh.Prelude.{
  ℕ, ◌+◌, ◌≡◌, String, Bool, true, false, not, ◌&&◌, Option, none, some, List, [], ◌∷◌, ◌==◌,
  string_eq, if◌then◌else◌, leb, ltb, length, saturating_add, Result, ok, err, ensure, ◌>>=◌, ◌>>◌,
  is_none,
}
use podmesh.Map.{Map, size, insert}
use podmesh.Protocol.Messages.{
  AdmissionRequest, Reservation, AdmissionRefusal, state_requires_repair, already_active,
  workload_limit, reservation_limit, insufficient_capacity, pending_capacity_limit, as_str,
  agent_protocol_version, DeploymentGrant, UpdateRequest,
}
use podmesh.Agent.ReplayCache.{ReplayCache, record_key}
use podmesh.Agent.Usage.{ResourceUsage, plus, fits_within}
use podmesh.Agent.State.{
  Config, WorkloadState, usage, reserved_usage, reservations_for, contains_workload, drop_expired,
  reserved_capacity_ceiling,
}

abbrev pub reservation_ttl_secs : ℕ
reservation_ttl_secs = 30

abbrev pub max_reservations_per_namespace : ℕ
max_reservations_per_namespace = 16

abbrev pub max_reservations : ℕ
max_reservations = 1024

-- The agent's key in base64, the signature checks of the messages, the signature over a
-- reservation, and the encryption of an answer to its recipient.
pub record Env : Type 0 where
  pub node_id : String
  pub verify_admission : AdmissionRequest → ℕ → Result (Unit {0})
  pub verify_reservation : Reservation → ℕ → Result (Unit {0})
  pub verify_grant : DeploymentGrant → ℕ → Result (Unit {0})
  pub verify_update : UpdateRequest → ℕ → Result (Unit {0})
  pub sign_reservation : Reservation → Result String
  pub encrypt_reservation : Reservation → String → Result (List ℕ)

-- What the mutexes of the service guard, with its configuration.
pub record Agent : Type 0 where
  pub config : Config
  pub state : WorkloadState
  pub replay : ReplayCache

-- The six tests of an admission, in the order of the code.
pub record Checks : Type 0 where
  pub state_reliable : Bool
  pub duplicate : Bool
  pub count_available : Bool
  pub reservation_available : Bool
  pub capacity_ok : Bool
  pub reservation_capacity_ok : Bool

abbrev pub is_empty {ℓ} : {A : Type ℓ} → List A → Bool
is_empty [] = true
is_empty (x ∷ xs) = false

unfoldable pub checks : Config → WorkloadState → AdmissionRequest → Checks
checks c s q = record {
  state_reliable = is_empty s.quarantined;
  duplicate = contains_workload s q.workload_id;
  count_available =
      ltb
        (saturating_add (saturating_add (size s.active) (size s.reservations))
          (length s.quarantined))
        c.max_workloads;
  reservation_available =
      ltb (size s.reservations) max_reservations
      && ltb (reservations_for s q.namespace_id) max_reservations_per_namespace;
  capacity_ok =
      fits_within (plus (usage s) q.cpu_milli q.memory_bytes q.storage_bytes) c.capacity_cpu_milli
        c.capacity_memory_bytes c.capacity_storage_bytes;
  reservation_capacity_ok =
      let ceiling = reserved_capacity_ceiling c in
      fits_within (plus (reserved_usage s) q.cpu_milli q.memory_bytes q.storage_bytes)
        ceiling.cpu_milli ceiling.memory_bytes ceiling.storage_bytes;
}

pub is_accepted : Checks → Bool
is_accepted k =
    k.state_reliable
    && not k.duplicate
    && k.count_available
    && k.reservation_available
    && k.capacity_ok
    && k.reservation_capacity_ok

-- The reason that is sent, by the first test that fails.
pub refusal : Checks → Option AdmissionRefusal
refusal k =
    if not k.state_reliable
    then some state_requires_repair
    else if k.duplicate
    then some already_active
    else if not k.count_available
    then some workload_limit
    else if not k.reservation_available
    then some reservation_limit
    else if not k.capacity_ok
    then some insufficient_capacity
    else if not k.reservation_capacity_ok
    then some pending_capacity_limit
    else none

pub reason : Option AdmissionRefusal → String
reason none = ""
reason (some r) = as_str r

unfoldable pub reservation_for : String → AdmissionRequest → Checks → ℕ → Reservation
unfolding is_accepted refusal reason
reservation_for fresh_id q k now = record {
  version = agent_protocol_version;
  reservation_id = fresh_id;
  request_id = q.request_id;
  namespace_id = q.namespace_id;
  workload_id = q.workload_id;
  agent_node_id = "";
  cpu_milli = q.cpu_milli;
  memory_bytes = q.memory_bytes;
  storage_bytes = q.storage_bytes;
  accepted = is_accepted k;
  reason = reason (refusal k);
  expires_at_secs = now + reservation_ttl_secs;
  signature = "";
}

-- A signed reservation is held if all tests pass, and is sent in any case.
hold : WorkloadState → Checks → Result Reservation → WorkloadState × Result Reservation
hold kept k (err e) = (kept, err e)
hold kept k (ok r) = (
  if is_accepted k
      then record kept { reservations = insert kept.reservations r.reservation_id r }
      else kept,
  ok r,
)

-- The key under which a message is remembered.
pub replay_key : String → String → String → String
replay_key operation namespace nonce =
    text_append operation (text_append ":" (text_append namespace (text_append ":" nonce)))

module _ (env : Env) where
  -- `Reservation::sign` of shared/protocol/src/agent.rs
  unfoldable pub sign : Reservation → Result Reservation
  sign r = do
    let unsigned = record r { agent_node_id = env.node_id; signature = "" }
    signature ← env.sign_reservation unsigned
    ok (record unsigned { signature = signature })

  -- What happens under the lock of the workload state.
  unfoldable pub reserve :
      Config → String → AdmissionRequest → ℕ → WorkloadState → WorkloadState × Result Reservation
  unfolding hold
  reserve c fresh_id q now s =
      let kept = drop_expired now s in
      let k = checks c kept q in hold kept k (sign (reservation_for fresh_id q k now))

  admit_fresh : String → AdmissionRequest → ℕ → Agent → Agent × Result (List ℕ)
  admit_fresh fresh_id q now a =
      let (state, outcome) = reserve a.config fresh_id q now a.state in
      (
        record a { state = state },
        (do r ← outcome; env.encrypt_reservation r q.response_kem_pubkey),
      )

  check_request : AdmissionRequest → ℕ → Result (Unit {0})
  check_request q now = do
    env.verify_admission q now
    ensure (q.target_node_id == env.node_id) "admission target mismatch"

  admit_once : String → AdmissionRequest → ℕ → Agent → Agent × Result (List ℕ)
  unfolding admit_fresh replay_key
  admit_once fresh_id q now a =
      let (cache, outcome) =
        record_key (replay_key "admission" q.namespace_id q.nonce) q.expires_at_secs now a.replay in
      elim outcome [
        | err e ↦ (record a { replay = cache }, err e)
        | ok _ ↦ admit_fresh fresh_id q now (record a { replay = cache })
      ]

  pub admit : String → AdmissionRequest → ℕ → Agent → Agent × Result (List ℕ)
  unfolding check_request admit_once
  admit fresh_id q now a = elim (check_request q now) [
    | err e ↦ (a, err e)
    | ok _ ↦ admit_once fresh_id q now a
  ]
