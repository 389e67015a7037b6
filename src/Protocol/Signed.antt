-- ===== src/Protocol/Signed.antt =====
-- Signing and checking the messages of shared/protocol/src/agent.rs. Base64, the canonical encoding
-- (postcard) and Ed25519 are parameters.
pub mod Accepted
pub mod Receipts
pub mod Tests
pub mod ReceiptTests
use podmesh.Protocol.Freshness.{validate_validity_window}
use podmesh.Crypto.Signing.{sign_domain, verify_domain, Ed25519}
use podmesh.Protocol.Messages.{
  UpdateRequest, Reservation, agent_protocol_version, DeploymentGrant, AdmissionRequest,
  EncryptedWorkloadCapsule,
}
use podmesh.Crypto.Domain.{
  SignatureDomain, as_bytes, admission_request, reservation, deployment_grant, update_request,
}
use Prim.Native.String.{len, ◌++◌ as text_append}
use podmesh.Prelude.{
  if◌then◌else◌, ℕ, ◌≡◌, ◌+◌, ◌*◌, Bool, true, not, ◌&&◌, ◌||◌, ◌==◌, nat_eq, string_eq, leb, ltb,
  length, all, Result, ok, err, ensure, ◌>>=◌, ◌>>◌, String,
}
use podmesh.Manifest.Text.{Bytes}

abbrev pub max_encrypted_capsule_bytes : ℕ
max_encrypted_capsule_bytes = 16 * 1024 * 1024

abbrev pub max_wrapped_key_bytes : ℕ
max_wrapped_key_bytes = 4 * 1024

pub record Codec : Type 0 where
  pub b64_encode : Bytes → String
  pub b64_decode : String → Result Bytes
  pub admission_bytes : AdmissionRequest → Result Bytes
  pub reservation_bytes : Reservation → Result Bytes
  pub grant_bytes : DeploymentGrant → Result Bytes
  pub update_bytes : UpdateRequest → Result Bytes

abbrev pub is_hexdigit : ℕ → Bool
is_hexdigit b = (leb 48 b && leb b 57) || (leb 65 b && leb b 70) || (leb 97 b && leb b 102)

unfoldable pub validate_hex_id : String → String → Result (Unit {0})
validate_hex_id value field = do
  ensure (len value == 64) (text_append field " must be a full 32-byte hex digest")
  ensure (all is_hexdigit (as_bytes value)) (text_append field " must be hex")

-- A text that is there and not too long.
abbrev pub is_short : String → Bool
is_short text = ltb 0 (len text) && leb (len text) 128

unfoldable pub validate_capsule : EncryptedWorkloadCapsule → Result (Unit {0})
validate_capsule c = do
  ensure (ltb 0 (length c.ciphertext) && leb (length c.ciphertext) max_encrypted_capsule_bytes)
      "invalid capsule ciphertext length"
  ensure (length c.nonce == 24) "capsule nonce must be 24 bytes"
  ensure (ltb 0 (length c.wrapped_dek) && leb (length c.wrapped_dek) max_wrapped_key_bytes)
      "invalid wrapped DEK length"

-- Keys have 32 bytes and signatures 64.
abbrev pub size_text : ℕ → String
size_text expected =
    if expected == 32 then " must decode to 32 bytes" else " must decode to 64 bytes"

module _ (k : Ed25519) (codec : Codec) where
  unfoldable pub decode_fixed : String → ℕ → String → Result Bytes
  decode_fixed value expected field = do
    decoded ← codec.b64_decode value
    ensure (length decoded == expected) (text_append field (size_text expected))
    ok decoded

  -- The end of every check: the signature over the message without it.
  unfoldable pub check_signature :
      Bytes → SignatureDomain → Result Bytes → String → String → Result (Unit {0})
  unfolding decode_fixed
  check_signature key domain bytes signature field = do
    decoded ← decode_fixed signature 64 field
    message ← bytes
    verify_domain k key domain message decoded

  -- What `sign` writes into the signature field.
  unfoldable pub signature_of : Bytes → SignatureDomain → Result Bytes → Result String
  signature_of private domain bytes = do
    message ← bytes
    signature ← sign_domain k private domain message
    ok (codec.b64_encode signature)

  abbrev pub unsigned_admission : AdmissionRequest → AdmissionRequest
  unsigned_admission q = record q { owner_signature = "" }

  pub sign_admission : Bytes → AdmissionRequest → Result AdmissionRequest
  unfolding signature_of
  sign_admission private q = do
    signature ←
        signature_of private admission_request (codec.admission_bytes (unsigned_admission q))
    ok (record q { owner_signature = signature })

  -- All that is checked before the signature; the answer is the owner's key.
  pub admission_owner : AdmissionRequest → ℕ → Result Bytes
  unfolding decode_fixed validate_hex_id
  admission_owner q now = do
    ensure (q.version == agent_protocol_version) "unsupported admission version"
    owner ← decode_fixed q.namespace_id 32 "namespace_id"
    target ← decode_fixed q.target_node_id 32 "target_node_id"
    kem ← decode_fixed q.response_kem_pubkey 32 "response_kem_pubkey"
    validate_hex_id q.workload_id "workload_id"
    ensure (is_short q.request_id) "invalid request_id"
    ensure (is_short q.nonce) "invalid nonce"
    validate_validity_window q.issued_at_secs q.expires_at_secs now
    ok owner

  pub verify_admission : AdmissionRequest → ℕ → Result (Unit {0})
  unfolding admission_owner check_signature
  verify_admission q now = do
    owner ← admission_owner q now
    check_signature owner admission_request (codec.admission_bytes (unsigned_admission q))
        q.owner_signature "owner_signature"

  abbrev pub unsigned_reservation : Reservation → Reservation
  unsigned_reservation r = record r { signature = "" }

  -- The agent writes its own key into the reservation before it signs.
  pub sign_reservation : Bytes → Bytes → Reservation → Result Reservation
  unfolding signature_of
  sign_reservation public private r =
      let named = record r { agent_node_id = codec.b64_encode public } in
      do
        signature ←
            signature_of private reservation (codec.reservation_bytes (unsigned_reservation named))
        ok (record named { signature = signature })

  pub reservation_agent : Reservation → ℕ → Result Bytes
  unfolding decode_fixed validate_hex_id
  reservation_agent r now = do
    ensure (r.version == agent_protocol_version) "unsupported reservation version"
    agent ← decode_fixed r.agent_node_id 32 "agent_node_id"
    namespace ← decode_fixed r.namespace_id 32 "namespace_id"
    validate_hex_id r.workload_id "workload_id"
    ensure (leb now r.expires_at_secs) "reservation expired"
    ensure (leb (len r.reason) 1024) "reservation reason too long"
    ok agent

  pub verify_reservation : Reservation → ℕ → Result (Unit {0})
  unfolding reservation_agent check_signature
  verify_reservation r now = do
    agent ← reservation_agent r now
    check_signature agent reservation (codec.reservation_bytes (unsigned_reservation r)) r.signature
        "signature"

  abbrev pub unsigned_grant : DeploymentGrant → DeploymentGrant
  unsigned_grant g = record g { owner_signature = "" }

  pub sign_grant : Bytes → DeploymentGrant → Result DeploymentGrant
  unfolding signature_of
  sign_grant private g = do
    signature ← signature_of private deployment_grant (codec.grant_bytes (unsigned_grant g))
    ok (record g { owner_signature = signature })

  unfoldable pub grant_owner : DeploymentGrant → ℕ → Result Bytes
  unfolding decode_fixed validate_hex_id validate_capsule
  grant_owner g now = do
    ensure (g.version == agent_protocol_version) "unsupported deployment grant version"
    owner ← decode_fixed g.namespace_id 32 "namespace_id"
    target ← decode_fixed g.target_node_id 32 "target_node_id"
    kem ← decode_fixed g.response_kem_pubkey 32 "response_kem_pubkey"
    validate_hex_id g.workload_id "workload_id"
    validate_hex_id g.revision_id "revision_id"
    validate_capsule g.capsule
    validate_validity_window g.issued_at_secs g.expires_at_secs now
    ensure (is_short g.reservation_id) "invalid reservation_id"
    ensure (is_short g.nonce) "invalid nonce"
    ok owner

  unfoldable pub verify_grant : DeploymentGrant → ℕ → Result (Unit {0})
  unfolding grant_owner check_signature
  verify_grant g now = do
    owner ← grant_owner g now
    check_signature owner deployment_grant (codec.grant_bytes (unsigned_grant g)) g.owner_signature
        "owner_signature"

  abbrev pub unsigned_update : UpdateRequest → UpdateRequest
  unsigned_update q = record q { owner_signature = "" }

  unfoldable pub sign_update : Bytes → UpdateRequest → Result UpdateRequest
  unfolding signature_of
  sign_update private q = do
    signature ← signature_of private update_request (codec.update_bytes (unsigned_update q))
    ok (record q { owner_signature = signature })

  -- The grant inside an update is for the same owner, workload, agent, answer key and revision.
  unfoldable pub is_bound : UpdateRequest → Bool
  is_bound q =
      (q.grant.namespace_id == q.namespace_id)
      && (q.grant.workload_id == q.workload_id)
      && (q.grant.target_node_id == q.target_node_id)
      && (q.grant.response_kem_pubkey == q.response_kem_pubkey)
      && (q.grant.revision_id == q.requested_revision_id)

  unfoldable pub update_owner : UpdateRequest → ℕ → Result Bytes
  unfolding decode_fixed validate_hex_id is_bound
  update_owner q now = do
    ensure (q.version == agent_protocol_version) "unsupported update request version"
    owner ← decode_fixed q.namespace_id 32 "namespace_id"
    target ← decode_fixed q.target_node_id 32 "target_node_id"
    kem ← decode_fixed q.response_kem_pubkey 32 "response_kem_pubkey"
    validate_hex_id q.workload_id "workload_id"
    validate_hex_id q.expected_revision_id "expected_revision_id"
    validate_hex_id q.requested_revision_id "requested_revision_id"
    ensure (is_short q.request_id) "invalid request_id"
    ensure (is_short q.nonce) "invalid nonce"
    ensure (ltb 0 q.cpu_milli && ltb 0 q.memory_bytes && ltb 0 q.storage_bytes)
        "update resources must be non-zero"
    verify_grant q.grant now
    ensure (is_bound q) "update grant binding mismatch"
    validate_validity_window q.issued_at_secs q.expires_at_secs now
    ok owner

  pub verify_update : UpdateRequest → ℕ → Result (Unit {0})
  unfolding update_owner check_signature
  verify_update q now = do
    owner ← update_owner q now
    check_signature owner update_request (codec.update_bytes (unsigned_update q)) q.owner_signature
        "owner_signature"
