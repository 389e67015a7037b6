-- ===== src/Crypto/Domain.antt =====
-- `SignatureDomain` of shared/crypto/src/domain.rs.
pub mod Unambiguous
use Prim.Native.Char.{code}
use podmesh.Prelude.{ℕ, ◌/◌, ◌%◌, String, List, [], ◌∷◌, ◌++◌, length}
use podmesh.Manifest.Text.{Bytes}

pub data SignatureDomain : Type 0 where
  admission_request reservation deployment_grant : SignatureDomain
  deployment_receipt update_request update_response : SignatureDomain
  workload_command workload_command_response workload_list_request : SignatureDomain
  workload_list_response agent_location_query scheduler_reconciliation_query : SignatureDomain
  scheduler_reconciliation_response capacity_query capacity_offer : SignatureDomain
  endpoint_record connector_identity service_catalog : SignatureDomain
  replica_service_record machine_relay_grant agent_attachment_hello : SignatureDomain
  workload_envelope sidecar_registration : SignatureDomain

unfoldable pub label : SignatureDomain → String
label admission_request = "podmesh/sig/v1/admission-request"
label reservation = "podmesh/sig/v1/reservation"
label deployment_grant = "podmesh/sig/v1/deployment-grant"
label deployment_receipt = "podmesh/sig/v1/deployment-receipt"
label update_request = "podmesh/sig/v1/update-request"
label update_response = "podmesh/sig/v1/update-response"
label workload_command = "podmesh/sig/v1/workload-command"
label workload_command_response = "podmesh/sig/v1/workload-command-response"
label workload_list_request = "podmesh/sig/v1/workload-list-request"
label workload_list_response = "podmesh/sig/v1/workload-list-response"
label agent_location_query = "podmesh/sig/v1/agent-location-query"
label scheduler_reconciliation_query = "podmesh/sig/v1/scheduler-reconciliation-query"
label scheduler_reconciliation_response = "podmesh/sig/v1/scheduler-reconciliation-response"
label capacity_query = "podmesh/sig/v1/capacity-query"
label capacity_offer = "podmesh/sig/v1/capacity-offer"
label endpoint_record = "podmesh/sig/v1/endpoint-record"
label connector_identity = "podmesh/sig/v1/connector-identity"
label service_catalog = "podmesh/sig/v1/service-catalog"
label replica_service_record = "podmesh/sig/v1/replica-service-record"
label machine_relay_grant = "podmesh/sig/v1/machine-relay-grant"
label agent_attachment_hello = "podmesh/sig/v1/agent-attachment-hello"
label workload_envelope = "podmesh/sig/v1/workload-envelope"
label sidecar_registration = "podmesh/sig/v1/sidecar-registration"

-- The labels are ASCII, so that a character is a byte.
unfoldable pub as_bytes : String → Bytes
as_bytes String.[] = []
as_bytes (String.◌∷◌ c s) = code c ∷ as_bytes s

-- `(length as u16).to_le_bytes()`
abbrev pub u16_le : ℕ → Bytes
u16_le n = (n % 256) ∷ (n / 256 % 256) ∷ []

unfoldable pub bind : SignatureDomain → Bytes → Bytes
unfolding label as_bytes
bind domain message =
    let text = as_bytes (label domain) in u16_le (length text) ++ (text ++ message)
