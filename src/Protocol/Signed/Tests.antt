-- ===== src/Protocol/Signed/Tests.antt =====
-- An update that is signed and checked, with toy primitives.
use podmesh.Protocol.Freshness.{validate_validity_window}
use podmesh.Crypto.Signing.{verify_domain, sign_domain, IsUsable, Ed25519}
use podmesh.Protocol.Messages.{UpdateRequest, DeploymentGrant}
use podmesh.Protocol.Signed.Accepted.{update_passes, verify_update_lem, RoundTrips}
use podmesh.Protocol.Signed.{
  validate_validity_window, verify_grant, Codec, update_owner, sign_update, verify_update,
}
use podmesh.Manifest.Text.{Bytes}
use podmesh.Prelude.{
  ap, ◌≡◌, ok, ℕ, zero, suc, refl, [], ◌∷◌, ◌+◌, arith, ◌==◌, nat_eq, if◌then◌else◌, String, true,
  false,
}
use podmesh.Crypto.Domain.{as_bytes}
use Prim.Native.Char.{code}

unfoldable pub repeated : ℕ → ℕ → Bytes
repeated zero b = []
repeated (suc n) b = b ∷ repeated n b

-- A number in unary, ended by another letter.
unfoldable pub unary : ℕ → String → String
unary zero rest = String.◌∷◌ "b" rest
unary (suc n) rest = String.◌∷◌ "a" (unary n rest)

unfoldable pub encode : Bytes → String
unfolding unary
encode [] = ""
encode (b ∷ bs) = unary b (encode bs)

unfoldable pub decode : ℕ → String → Bytes
decode n String.[] = []
decode n (String.◌∷◌ c s) = if code c == b'a' then decode (suc n) s else n ∷ decode 0 s

decode-unary : (n m : ℕ) (rest : String) → decode n (unary m rest) ≡ (n + m) ∷ decode 0 rest
unfolding decode unary
decode-unary n zero rest = ground arith
decode-unary n (suc m) rest = ground (arith, decode-unary (suc n) m rest)

decode-encode : (b : Bytes) → decode 0 (encode b) ≡ b
unfolding encode decode
decode-encode [] = refl
decode-encode (b ∷ bs) = ground (arith, decode-unary 0 b (encode bs), decode-encode bs)

abbrev pub toy_signature : Ed25519
toy_signature = record {
  public_of = λ sk. repeated 32 5;
  sign = λ sk m. repeated 64 1;
  is_point = λ key. true;
  is_weak = λ key. false;
  verify_strict = λ key m s. true;
}

abbrev pub toy_codec : Codec
toy_codec = record {
  b64_encode = encode;
  b64_decode = λ text. ok (decode 0 text);
  admission_bytes = λ q. ok (1 ∷ []);
  reservation_bytes = λ r. ok (2 ∷ []);
  grant_bytes = λ g. ok (3 ∷ []);
  update_bytes = λ q. ok (4 ∷ []);
}

toy-RoundTrips : RoundTrips toy_signature toy_codec
unfolding repeated
toy-RoundTrips = record {
  base64 = λ b. ap (λ (z : Bytes). ok z) (decode-encode b);
  signatures = record { size = λ sk m. refl; verifies = λ sk m. refl };
}

abbrev private_key : Bytes
private_key = repeated 32 9

toy-IsUsable : IsUsable toy_signature (toy_signature.public_of private_key)
unfolding repeated
toy-IsUsable = record { size = refl; point = refl; strong = refl }

abbrev pub owner_key : String
owner_key = encode (repeated 32 5)

abbrev pub hex_id : String
hex_id = "0123456789abcdef0123456789abcdef0123456789abcdef0123456789abcdef"

abbrev grant : DeploymentGrant
grant = record {
  version = 1;
  namespace_id = owner_key;
  workload_id = hex_id;
  revision_id = hex_id;
  target_node_id = owner_key;
  response_kem_pubkey = owner_key;
  reservation_id = "r1";
  capsule = record { ciphertext = 1 ∷ []; nonce = repeated 24 0; wrapped_dek = 3 ∷ [] };
  issued_at_secs = 90;
  expires_at_secs = 200;
  nonce = "n2";
  owner_signature = encode (repeated 64 1);
}

abbrev update : UpdateRequest
update = record {
  version = 1;
  request_id = "q2";
  namespace_id = owner_key;
  workload_id = hex_id;
  target_node_id = owner_key;
  response_kem_pubkey = owner_key;
  expected_revision_id = hex_id;
  requested_revision_id = hex_id;
  refresh_service_mesh = false;
  cpu_milli = 100;
  memory_bytes = 512;
  storage_bytes = 1024;
  grant = grant;
  issued_at_secs = 90;
  expires_at_secs = 200;
  nonce = "n3";
  owner_signature = "";
}

abbrev signed_update : UpdateRequest
signed_update = record update { owner_signature = encode (repeated 64 1) }

signs : sign_update toy_signature toy_codec private_key update ≡ ok signed_update
unfolding sign_update sign_domain repeated encode
signs = refl

fields_pass : update_owner toy_signature toy_codec update 100 ≡ ok (repeated 32 5)
unfolding update_owner decode encode repeated as_bytes verify_grant validate_validity_window
    verify_domain
fields_pass = refl

update_passes_example : verify_update toy_signature toy_codec signed_update 100 ≡ ok tt
update_passes_example =
    update_passes toy_signature toy_codec private_key 100 toy-RoundTrips toy-IsUsable update
      signed_update signs fields_pass

verified_update : verify_update toy_signature toy_codec signed_update 100 ≡ ok tt
verified_update =
    update_passes toy_signature toy_codec private_key 100 toy-RoundTrips toy-IsUsable update
      signed_update signs fields_pass

verify_update_lem_example :
    (verify_grant toy_signature toy_codec grant 100 ≡ ok tt)
    × (owner_key ≡ owner_key)
    × (hex_id ≡ hex_id)
    × (owner_key ≡ owner_key)
    × (owner_key ≡ owner_key)
    × (hex_id ≡ hex_id)
verify_update_lem_example =
    verify_update_lem toy_signature toy_codec signed_update 100 verified_update
