-- ===== src/Protocol/Messages.antt =====
-- The owner-signed messages of the agent protocol (shared/protocol/src/agent.rs), and the refusals
-- of an admission. Base64 and hex strings are texts; byte vectors are lists of numbers.
use podmesh.Prelude.{
  ℕ, ◌≡◌, refl, String, Bool, true, false, Option, none, some, List, [], ◌∷◌, ◌==◌, if◌then◌else◌,
  string_eq,
}

abbrev pub agent_protocol_version : ℕ
agent_protocol_version = 1

pub record AdmissionRequest : Type 0 where
  pub version : ℕ
  pub request_id : String
  pub namespace_id : String
  pub workload_id : String
  pub target_node_id : String
  pub response_kem_pubkey : String
  pub cpu_milli : ℕ
  pub memory_bytes : ℕ
  pub storage_bytes : ℕ
  pub issued_at_secs : ℕ
  pub expires_at_secs : ℕ
  pub nonce : String
  pub owner_signature : String

pub record Reservation : Type 0 where
  pub version : ℕ
  pub reservation_id : String
  pub request_id : String
  pub namespace_id : String
  pub workload_id : String
  pub agent_node_id : String
  pub cpu_milli : ℕ
  pub memory_bytes : ℕ
  pub storage_bytes : ℕ
  pub accepted : Bool
  pub reason : String
  pub expires_at_secs : ℕ
  pub signature : String

pub data AdmissionRefusal : Type 0 where
  state_requires_repair already_active workload_limit : AdmissionRefusal
  reservation_limit insufficient_capacity pending_capacity_limit : AdmissionRefusal

unfoldable pub as_str : AdmissionRefusal → String
as_str state_requires_repair = "agent workload state requires repair"
as_str already_active = "workload is already active or reserved"
as_str workload_limit = "agent workload limit reached"
as_str reservation_limit = "agent reservation limit reached"
as_str insufficient_capacity = "insufficient capacity"
as_str pending_capacity_limit = "pending reservation limit reached; retry once admissions settle"

abbrev pub all_refusals : List AdmissionRefusal
all_refusals =
    state_requires_repair ∷ already_active ∷ workload_limit ∷ reservation_limit
    ∷ insufficient_capacity ∷ pending_capacity_limit ∷ []

find_reason : String → List AdmissionRefusal → Option AdmissionRefusal
find_reason reason [] = none
find_reason reason (r ∷ rs) = if as_str r == reason then some r else find_reason reason rs

pub from_reason : String → Option AdmissionRefusal
unfolding as_str find_reason
from_reason reason = find_reason reason all_refusals

pub is_capacity : AdmissionRefusal → Bool
is_capacity workload_limit = true
is_capacity reservation_limit = true
is_capacity insufficient_capacity = true
is_capacity pending_capacity_limit = true
is_capacity _ = false

pub record EncryptedWorkloadCapsule : Type 0 where
  pub ciphertext : List ℕ
  pub nonce : List ℕ
  pub wrapped_dek : List ℕ

pub record DeploymentGrant : Type 0 where
  pub version : ℕ
  pub namespace_id : String
  pub workload_id : String
  pub revision_id : String
  pub target_node_id : String
  pub response_kem_pubkey : String
  pub reservation_id : String
  pub capsule : EncryptedWorkloadCapsule
  pub issued_at_secs : ℕ
  pub expires_at_secs : ℕ
  pub nonce : String
  pub owner_signature : String

pub record UpdateRequest : Type 0 where
  pub version : ℕ
  pub request_id : String
  pub namespace_id : String
  pub workload_id : String
  pub target_node_id : String
  pub response_kem_pubkey : String
  pub expected_revision_id : String
  pub requested_revision_id : String
  pub refresh_service_mesh : Bool
  pub cpu_milli : ℕ
  pub memory_bytes : ℕ
  pub storage_bytes : ℕ
  pub grant : DeploymentGrant
  pub issued_at_secs : ℕ
  pub expires_at_secs : ℕ
  pub nonce : String
  pub owner_signature : String

-- Every reason that an agent writes reads back as the refusal that it stands for.
pub from_reason-as_str : (r : AdmissionRefusal) → from_reason (as_str r) ≡ some r
unfolding from_reason
from_reason-as_str state_requires_repair = refl
from_reason-as_str already_active = refl
from_reason-as_str workload_limit = refl
from_reason-as_str reservation_limit = refl
from_reason-as_str insufficient_capacity = refl
from_reason-as_str pending_capacity_limit = refl
