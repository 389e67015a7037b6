-- ===== src/Protocol/Capacity.antt =====
-- The capacity messages between schedulers and agents (shared/protocol/src/capacity.rs) and the
-- endpoint record that they carry (shared/protocol/src/endpoint_record.rs).
use podmesh.Prelude.{ℕ, String, Option, List}

abbrev pub capacity_protocol_version : ℕ
capacity_protocol_version = 1

pub record EndpointRecord : Type 0 where
  pub version : ℕ
  pub endpoint_id : List ℕ
  pub relay_url : Option String
  pub direct_addresses : List String
  pub signing_pubkey : String
  pub issued_at_secs : ℕ
  pub expires_at_secs : ℕ
  pub signature : String

pub record CapacityQuery : Type 0 where
  pub version : ℕ
  pub query_id : String
  pub nonce : String
  pub cpu_milli : ℕ
  pub memory_bytes : ℕ
  pub storage_bytes : ℕ
  pub required_capabilities : List String
  pub excluded_endpoint_ids : List (List ℕ)
  pub reply_endpoint : EndpointRecord
  pub issued_at_secs : ℕ
  pub expires_at_secs : ℕ
  pub signing_pubkey : String
  pub signature : String

pub record CapacityOffer : Type 0 where
  pub version : ℕ
  pub query_id : String
  pub agent_endpoint : EndpointRecord
  pub kem_pubkey : String
  pub available_cpu_milli : ℕ
  pub available_memory_bytes : ℕ
  pub available_storage_bytes : ℕ
  pub capabilities : List String
  pub issued_at_secs : ℕ
  pub expires_at_secs : ℕ
  pub signing_pubkey : String
  pub signature : String
