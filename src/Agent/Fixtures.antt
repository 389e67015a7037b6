-- ===== src/Agent/Fixtures.antt =====
-- Test data: a small agent, one running workload, one reservation, and messages for them.
use podmesh.Manifest.{ManifestResources}
use podmesh.Prelude.{refl, String, true, false, [], ◌∷◌, ok, arith, string_eq, ◌==◌}
use podmesh.Map.{get, total, retain_entries}
use podmesh.Map.Totals.{size-retain_entries-le}
use podmesh.Protocol.Messages.{
  AdmissionRequest, Reservation, DeploymentGrant, UpdateRequest, EncryptedWorkloadCapsule,
}
use podmesh.Agent.State.{
  Config, StoredWorkload, WorkloadState, active, reserved_capacity_ceiling, reservations_for,
}
use podmesh.Agent.Capacity.{IsSound, Committed}
use podmesh.Agent.Admission.{Env, Agent}
use podmesh.Agent.Deploy.{Service, ExecutionSpec}

abbrev pub config : Config
config = record {
  capacity_cpu_milli = 1000;
  capacity_memory_bytes = 4096;
  capacity_storage_bytes = 8192;
  max_workloads = 8;
  max_reserved_capacity_percent = 50;
}

pub config-IsSound : IsSound config
config-IsSound = record {
  cpu = omega arith;
  memory = omega arith;
  storage = omega arith;
  slots = omega arith;
}

abbrev pub request : AdmissionRequest
request = record {
  version = 1;
  request_id = "q1";
  namespace_id = "ns";
  workload_id = "web";
  target_node_id = "node";
  response_kem_pubkey = "kem";
  cpu_milli = 200;
  memory_bytes = 512;
  storage_bytes = 1024;
  issued_at_secs = 90;
  expires_at_secs = 200;
  nonce = "n1";
  owner_signature = "sig";
}

abbrev pub capsule : EncryptedWorkloadCapsule
capsule = record { ciphertext = 1 ∷ []; nonce = 2 ∷ []; wrapped_dek = 3 ∷ [] }

abbrev pub grant : DeploymentGrant
grant = record {
  version = 1;
  namespace_id = "ns";
  workload_id = "web";
  revision_id = "rev1";
  target_node_id = "node";
  response_kem_pubkey = "kem";
  reservation_id = "r1";
  capsule = capsule;
  issued_at_secs = 90;
  expires_at_secs = 200;
  nonce = "n2";
  owner_signature = "sig";
}

-- The update halves the processor share of the workload.
abbrev pub update : UpdateRequest
update = record {
  version = 1;
  request_id = "q2";
  namespace_id = "ns";
  workload_id = "web";
  target_node_id = "node";
  response_kem_pubkey = "kem";
  expected_revision_id = "rev1";
  requested_revision_id = "rev2";
  refresh_service_mesh = false;
  cpu_milli = 100;
  memory_bytes = 512;
  storage_bytes = 1024;
  grant = record grant { revision_id = "rev2" };
  issued_at_secs = 90;
  expires_at_secs = 200;
  nonce = "n3";
  owner_signature = "sig";
}

abbrev pub reservation : Reservation
reservation = record {
  version = 1;
  reservation_id = "r1";
  request_id = "q1";
  namespace_id = "ns";
  workload_id = "web";
  agent_node_id = "node";
  cpu_milli = 200;
  memory_bytes = 512;
  storage_bytes = 1024;
  accepted = true;
  reason = "";
  expires_at_secs = 130;
  signature = "signed";
}

abbrev pub workload : StoredWorkload
workload = record {
  version = 1;
  phase = active;
  grant = grant;
  runtime_id = "vm1";
  deleting = false;
  cpu_milli = 700;
  memory_bytes = 512;
  storage_bytes = 1024;
  workload_name = "web";
  replica_index = 0;
  replica_count = 1;
}

abbrev pub execution : ExecutionSpec
execution = record { workload_name = "web"; replica_index = 0; replica_count = 1 }

abbrev pub measured : ManifestResources
measured = record { cpu_milli = 100; memory_bytes = 256; storage_bytes = 512 }

abbrev pub empty_state : WorkloadState
empty_state = record { active = []; reservations = []; quarantined = [] }

abbrev pub reserved_state : WorkloadState
reserved_state = record { active = []; reservations = ("r1", reservation) ∷ []; quarantined = [] }

abbrev pub running_state : WorkloadState
running_state = record { active = ("web", workload) ∷ []; reservations = []; quarantined = [] }

-- Every signature is good, and the encryption of an answer is one byte.
abbrev pub env : Env
env = record {
  node_id = "node";
  verify_admission = λ q now. ok tt;
  verify_reservation = λ r now. ok tt;
  verify_grant = λ g now. ok tt;
  verify_update = λ u now. ok tt;
  sign_reservation = λ r. ok "signed";
  encrypt_reservation = λ r key. ok (7 ∷ []);
}

abbrev pub idle_agent : Agent
idle_agent = record {
  config = config;
  state = empty_state;
  replay = record { seen = []; order = [] };
}

abbrev pub service : WorkloadState → Service
service s = record { state = s; store = s.active }

pub empty_state-Committed : Committed config empty_state
unfolding total reserved_capacity_ceiling reservations_for retain_entries
empty_state-Committed = record {
  unique_active = tt;
  unique_reservations = tt;
  cpu = omega arith;
  memory = omega arith;
  storage = omega arith;
  reserved_cpu = omega arith;
  reserved_memory = omega arith;
  reserved_storage = omega arith;
  slots = omega arith;
  reservation_count = omega arith;
  per_namespace = λ n. omega arith;
}

pub reserved_state-Committed : Committed config reserved_state
unfolding total reserved_capacity_ceiling reservations_for get
reserved_state-Committed = record {
  unique_active = tt;
  unique_reservations = (refl, tt);
  cpu = omega arith;
  memory = omega arith;
  storage = omega arith;
  reserved_cpu = omega arith;
  reserved_memory = omega arith;
  reserved_storage = omega arith;
  slots = omega arith;
  reservation_count = omega arith;
  per_namespace = λ n. omega (
    arith,
    size-retain_entries-le (λ (id : String) (r : Reservation). r.namespace_id == n)
        reserved_state.reservations,
  );
}

pub running_state-Committed : Committed config running_state
unfolding total reserved_capacity_ceiling reservations_for retain_entries get
running_state-Committed = record {
  unique_active = (refl, tt);
  unique_reservations = tt;
  cpu = omega arith;
  memory = omega arith;
  storage = omega arith;
  reserved_cpu = omega arith;
  reserved_memory = omega arith;
  reserved_storage = omega arith;
  slots = omega arith;
  reservation_count = omega arith;
  per_namespace = λ n. omega arith;
}
