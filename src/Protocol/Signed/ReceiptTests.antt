-- ===== src/Protocol/Signed/ReceiptTests.antt =====
-- A list of one workload, with toy primitives.
use podmesh.Crypto.Signing.{verify_domain}
use podmesh.Crypto.Domain.{as_bytes}
use podmesh.Protocol.Signed.{decode_fixed, validate_hex_id, check_signature}
use podmesh.Protocol.Signed.Receipts.{
  verify_list-AllPlaced, max_listed_workloads, WorkloadSummary, AnswerCodec, WorkloadListResponse,
  DeploymentReceipt, verify_list, AllPlaced, verify_summary, verify_receipt,
}
use podmesh.Prelude.{◌≤◌, ◌≡◌, ok, refl, [], ◌∷◌, none}
use podmesh.Protocol.Signed.Tests.{
  toy_codec, toy_signature, owner_key, hex_id, repeated, encode, decode,
}

abbrev toy_answers : AnswerCodec
toy_answers = record {
  receipt_bytes = λ r. ok (5 ∷ []);
  response_bytes = λ r. ok (6 ∷ []);
  list_bytes = λ r. ok (7 ∷ []);
  verify_endpoint = λ e now. ok tt;
}

abbrev receipt : DeploymentReceipt
receipt = record {
  version = 1;
  namespace_id = owner_key;
  workload_id = hex_id;
  revision_id = hex_id;
  agent_node_id = owner_key;
  runtime_id = "vm1";
  accepted_at_secs = 100;
  signature = encode (repeated 64 1);
}

abbrev summary : WorkloadSummary
summary = record {
  workload_id = hex_id;
  workload_name = "web";
  revision_id = hex_id;
  replica_index = 0;
  replica_count = 1;
  state = "running";
  deploying_since_secs = 0;
  receipt = receipt;
}

abbrev listed : WorkloadListResponse
listed = record {
  version = 1;
  request_id = "q1";
  agent_node_id = owner_key;
  agent_endpoint = record {
    version = 1;
    endpoint_id = [];
    relay_url = none;
    direct_addresses = [];
    signing_pubkey = owner_key;
    issued_at_secs = 90;
    expires_at_secs = 200;
    signature = "sig";
  };
  agent_kem_pubkey = owner_key;
  workloads = summary ∷ [];
  responded_at_secs = 100;
  signature = encode (repeated 64 1);
}

list_accepted : verify_list toy_signature toy_codec toy_answers listed ≡ ok tt
unfolding verify_list decode_fixed decode encode repeated verify_summary validate_hex_id as_bytes
    verify_receipt check_signature verify_domain
list_accepted = refl

verify_list-AllPlaced_example :
    AllPlaced toy_signature toy_codec toy_answers owner_key (summary ∷ [])
    × (1 ≤ max_listed_workloads)
    × (owner_key ≡ owner_key)
verify_list-AllPlaced_example =
    verify_list-AllPlaced toy_signature toy_codec toy_answers listed list_accepted
