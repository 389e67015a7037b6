-- ===== src/Protocol/Signed/Receipts.antt =====
-- What agents sign for owners: the receipt of a deployment, the answer to an update and the list of
-- an owner's workloads (shared/protocol/src/agent.rs). The check of an endpoint record is a parameter.
use podmesh.Protocol.Freshness.{max_agent_clock_skew_secs}
use podmesh.Protocol.Messages.{agent_protocol_version}
use podmesh.Protocol.Signed.{
  is_short, decode_fixed, validate_hex_id, check_signature, agent_protocol_version, signature_of,
  Codec,
}
use podmesh.Manifest.Text.{Bytes}
use podmesh.Protocol.Capacity.{EndpointRecord}
use podmesh.Crypto.Signing.{verify_domain, Ed25519}
use Prim.Native.String.{len}
use podmesh.Prelude.{
  saturating_add, ◌≤◌, eq_lem, >>=-eq-ok, Bool, Result-cases, length, List, Result, ◌≡◌, ◌&&◌, ok,
  arith, inl, inr, String, ℕ, [], ◌∷◌, ◌>>=◌, ◌>>◌, ensure, ◌==◌, nat_eq, string_eq, leb,
}
use podmesh.Crypto.Domain.{deployment_receipt, update_response, workload_list_response}

abbrev pub max_listed_workloads : ℕ
max_listed_workloads = 10000

pub record DeploymentReceipt : Type 0 where
  pub version : ℕ
  pub namespace_id : String
  pub workload_id : String
  pub revision_id : String
  pub agent_node_id : String
  pub runtime_id : String
  pub accepted_at_secs : ℕ
  pub signature : String

pub data UpdateOutcome : Type 0 where
  applied already_active conflict rejected : UpdateOutcome

pub record UpdateResponse : Type 0 where
  pub version : ℕ
  pub request_id : String
  pub expected_revision_id : String
  pub requested_revision_id : String
  pub receipt : DeploymentReceipt
  pub outcome : UpdateOutcome
  pub reason : String
  pub responded_at_secs : ℕ
  pub signature : String

pub record WorkloadSummary : Type 0 where
  pub workload_id : String
  pub workload_name : String
  pub revision_id : String
  pub replica_index : ℕ
  pub replica_count : ℕ
  pub state : String
  pub deploying_since_secs : ℕ
  pub receipt : DeploymentReceipt

pub record WorkloadListResponse : Type 0 where
  pub version : ℕ
  pub request_id : String
  pub agent_node_id : String
  pub agent_endpoint : EndpointRecord
  pub agent_kem_pubkey : String
  pub workloads : List WorkloadSummary
  pub responded_at_secs : ℕ
  pub signature : String

-- The canonical bytes of each, and the check of an endpoint record.
pub record AnswerCodec : Type 0 where
  pub receipt_bytes : DeploymentReceipt → Result Bytes
  pub response_bytes : UpdateResponse → Result Bytes
  pub list_bytes : WorkloadListResponse → Result Bytes
  pub verify_endpoint : EndpointRecord → ℕ → Result (Unit {0})

module _ (k : Ed25519) (codec : Codec) (answers : AnswerCodec) where
  abbrev pub unsigned_receipt : DeploymentReceipt → DeploymentReceipt
  unsigned_receipt r = record r { signature = "" }

  pub sign_receipt : Bytes → Bytes → DeploymentReceipt → Result DeploymentReceipt
  sign_receipt public private r =
      let named = record r { agent_node_id = codec.b64_encode public } in
      do
        signature ←
            signature_of k codec private deployment_receipt
              (answers.receipt_bytes (unsigned_receipt named))
        ok (record named { signature = signature })

  unfoldable pub receipt_agent : DeploymentReceipt → Result Bytes
  receipt_agent r = do
    agent ← decode_fixed k codec r.agent_node_id 32 "agent_node_id"
    namespace ← decode_fixed k codec r.namespace_id 32 "namespace_id"
    validate_hex_id r.workload_id "workload_id"
    validate_hex_id r.revision_id "revision_id"
    ensure (r.version == agent_protocol_version) "unsupported deployment receipt version"
    ok agent

  unfoldable pub verify_receipt : DeploymentReceipt → Result (Unit {0})
  unfolding receipt_agent
  verify_receipt r = do
    agent ← receipt_agent r
    check_signature k codec agent deployment_receipt (answers.receipt_bytes (unsigned_receipt r))
        r.signature "signature"

  abbrev pub unsigned_response : UpdateResponse → UpdateResponse
  unsigned_response r = record r { signature = "" }

  pub sign_response : Bytes → Bytes → UpdateResponse → Result UpdateResponse
  sign_response public private r = do
    ensure (r.receipt.agent_node_id == codec.b64_encode public)
        "update response receipt signer mismatch"
    signature ←
        signature_of k codec private update_response (answers.response_bytes (unsigned_response r))
    ok (record r { signature = signature })

  -- The signature's size is checked before the agent's key is decoded, of whatever size that is.
  pub verify_response : UpdateResponse → ℕ → Result (Unit {0})
  verify_response r now = do
    ensure (r.version == agent_protocol_version) "unsupported update response version"
    validate_hex_id r.expected_revision_id "expected_revision_id"
    validate_hex_id r.requested_revision_id "requested_revision_id"
    verify_receipt r.receipt
    ensure (is_short r.request_id) "invalid request_id"
    ensure (leb (len r.reason) 1024) "update response field length is invalid"
    ensure (leb r.responded_at_secs (saturating_add now max_agent_clock_skew_secs))
        "update response was issued too far in the future"
    signature ← decode_fixed k codec r.signature 64 "signature"
    agent ← codec.b64_decode r.receipt.agent_node_id
    message ← answers.response_bytes (unsigned_response r)
    verify_domain k agent update_response message signature

  -- The receipt is for the workload and the revision that are listed, and from the same agent.
  unfoldable pub matches : String → WorkloadSummary → Bool
  matches agent w =
      (w.receipt.workload_id == w.workload_id)
      && (w.receipt.revision_id == w.revision_id)
      && (w.receipt.agent_node_id == agent)

  unfoldable pub verify_summary : String → WorkloadSummary → Result (Unit {0})
  unfolding matches
  verify_summary agent w = do
    validate_hex_id w.workload_id "workload_id"
    validate_hex_id w.revision_id "revision_id"
    ensure (leb (len w.state) 128 && leb (len w.workload_name) 253)
        "workload summary field exceeds its bound"
    verify_receipt w.receipt
    ensure (matches agent w) "workload summary receipt does not match the reported placement"

  unfoldable pub verify_summaries : String → List WorkloadSummary → Result (Unit {0})
  verify_summaries agent [] = ok tt
  verify_summaries agent (w ∷ ws) = verify_summary agent w >> verify_summaries agent ws

  abbrev pub unsigned_list : WorkloadListResponse → WorkloadListResponse
  unsigned_list r = record r { signature = "" }

  unfoldable pub verify_list : WorkloadListResponse → Result (Unit {0})
  unfolding verify_summaries
  verify_list r = do
    ensure (r.version == agent_protocol_version) "unsupported workload list response version"
    agent ← decode_fixed k codec r.agent_node_id 32 "agent_node_id"
    kem ← decode_fixed k codec r.agent_kem_pubkey 32 "agent_kem_pubkey"
    answers.verify_endpoint r.agent_endpoint r.responded_at_secs
    ensure (r.agent_endpoint.signing_pubkey == r.agent_node_id)
        "workload list endpoint does not belong to the responding agent"
    ensure (leb (length r.workloads) max_listed_workloads)
        "workload list response exceeds 10000 entries"
    verify_summaries r.agent_node_id r.workloads
    check_signature k codec agent workload_list_response (answers.list_bytes (unsigned_list r))
        r.signature "signature"

  -- What a listed workload has shown.
  pub record Placed (agent : String) (w : WorkloadSummary) : Type 0 where
    pub receipt : verify_receipt w.receipt ≡ ok tt
    pub workload : w.receipt.workload_id ≡ w.workload_id
    pub revision : w.receipt.revision_id ≡ w.revision_id
    pub from_agent : w.receipt.agent_node_id ≡ agent

  abbrev pub AllPlaced : String → List WorkloadSummary → Type 0
  AllPlaced agent [] = Unit {0}
  AllPlaced agent (w ∷ ws) = Placed agent w × AllPlaced agent ws

  verify_summary-Placed :
      (agent : String) (w : WorkloadSummary) → verify_summary agent w ≡ ok tt → Placed agent w
  unfolding verify_summary matches
  verify_summary-Placed agent w e = elim (Result-cases (verify_receipt w.receipt)) [
    | inr (m, bad) ↦ absurd (ground arith)
    | inl (_, good) ↦ record {
      receipt = good;
      workload = ground (arith, eq_lem w.receipt.workload_id w.workload_id);
      revision = ground (arith, eq_lem w.receipt.revision_id w.revision_id);
      from_agent = ground (arith, eq_lem w.receipt.agent_node_id agent);
    }
  ]

  verify_summaries-AllPlaced :
      (agent : String) (ws : List WorkloadSummary)
      → verify_summaries agent ws ≡ ok tt
      → AllPlaced agent ws
  unfolding verify_summaries
  verify_summaries-AllPlaced agent [] e = tt
  verify_summaries-AllPlaced agent (w ∷ ws) e =
      let (_, first, rest) =
        >>=-eq-ok (verify_summary agent w) (λ (z : Unit {0}). verify_summaries agent ws) e in
      (verify_summary-Placed agent w first, verify_summaries-AllPlaced agent ws rest)

  -- Every workload in a list that is accepted has an accepted receipt for that workload and revision
  -- from the agent that sent the list; the list is within its bound and the endpoint is the agent's.
  pub verify_list-AllPlaced :
      (r : WorkloadListResponse)
      → verify_list r ≡ ok tt
      → AllPlaced r.agent_node_id r.workloads
        × (length r.workloads ≤ max_listed_workloads)
        × (r.agent_endpoint.signing_pubkey ≡ r.agent_node_id)
  unfolding verify_list
  verify_list-AllPlaced r e = elim (Result-cases (verify_summaries r.agent_node_id r.workloads)) [
    | inr (m, bad) ↦ absurd (ground arith)
    | inl (_, good) ↦ (
      verify_summaries-AllPlaced r.agent_node_id r.workloads good,
      ground arith,
      ground (arith, eq_lem r.agent_endpoint.signing_pubkey r.agent_node_id),
    )
  ]
