-- ===== src/Protocol/Signed/Accepted.antt =====
-- What is signed is accepted, and what acceptance shows.
use podmesh.Protocol.Messages.{Reservation, UpdateRequest, DeploymentGrant, AdmissionRequest}
use podmesh.Manifest.Text.{Bytes}
use podmesh.Protocol.Signed.{
  is_bound, unsigned_update, unsigned_reservation, update_owner, reservation_agent, verify_update,
  verify_reservation, sign_reservation, unsigned_admission, sign_update, unsigned_grant,
  AdmissionRequest, DeploymentGrant, grant_owner, admission_owner, verify_admission, verify_grant,
  sign_admission, sign_grant, decode_fixed, check_signature, Bytes, signature_of, Codec,
}
use podmesh.Crypto.Signing.{sign_verify, sign_domain, IsUsable, SignsSoundly, Ed25519}
use podmesh.Prelude.{
  string_eq, eq_lem, Bool-cases, >>=-eq-ok, ◌>>=◌, Result-cases, Result, ◌≡◌, ok, err, true, arith,
  refl, inl, inr, String, ℕ,
}
use podmesh.Crypto.Domain.{
  SignatureDomain, admission_request, reservation, deployment_grant, update_request,
}

ok_injective {ℓ} : {A : Type ℓ} (a b : A) → ok a ≡ ok b → a ≡ b
ok_injective a b e = cc

inverted {ℓ} :
    {A : Type ℓ} (signature : Result String) (f : String → A) (signed : A)
    → (signature >>= λ text. ok (f text)) ≡ ok signed
    → (text : String) × (signature ≡ ok text) × (f text ≡ signed)
inverted (ok text) f signed e = (text, refl, ok_injective (f text) signed e)
inverted (err m) f signed e = absurd (cc)

module _ (k : Ed25519) (codec : Codec) where
  -- Base64 reads back what it writes, and Ed25519 verifies its own signatures.
  pub record RoundTrips : Type 0 where
    pub base64 : (b : Bytes) → codec.b64_decode (codec.b64_encode b) ≡ ok b
    pub signatures : SignsSoundly k

  signed_passes :
      (private : Bytes) (domain : SignatureDomain) (bytes : Result Bytes) (text field : String)
      → RoundTrips
      → IsUsable k (k.public_of private)
      → signature_of k codec private domain bytes ≡ ok text
      → check_signature k codec (k.public_of private) domain bytes text field ≡ ok tt
  unfolding signature_of check_signature decode_fixed
  signed_passes private domain bytes text field trips usable e = elim (Result-cases bytes) [
    | inr (m, bad) ↦ absurd (ground arith)
    | inl (message, good) ↦ elim (Result-cases (sign_domain k private domain message)) [
      | inr (m, bad) ↦ absurd (ground arith)
      | inl (signature, signed) ↦
          let (verified, size) =
            sign_verify k trips.signatures private domain message signature usable signed in
          let same : text ≡ codec.b64_encode signature = ground arith in
          rw (same, trips.base64 signature, size, good) verified
    ]
  ]

  module _ (private : Bytes) (now : ℕ) (trips : RoundTrips)
      (usable : IsUsable k (k.public_of private)) where
    admission_passes :
        (q signed : AdmissionRequest)
        → sign_admission k codec private q ≡ ok signed
        → admission_owner k codec q now ≡ ok (k.public_of private)
        → verify_admission k codec signed now ≡ ok tt
    unfolding sign_admission verify_admission
    admission_passes q signed e owner =
        let bytes : Result Bytes = codec.admission_bytes (unsigned_admission k codec q) in
        let (text, good, same) =
          inverted (signature_of k codec private admission_request bytes)
            (λ s. record q { owner_signature = s }) signed e in
        rw (← same) (
          rw owner (
            signed_passes private admission_request bytes text "owner_signature" trips usable good))

    grant_passes :
        (g signed : DeploymentGrant)
        → sign_grant k codec private g ≡ ok signed
        → grant_owner k codec g now ≡ ok (k.public_of private)
        → verify_grant k codec signed now ≡ ok tt
    unfolding sign_grant verify_grant
    grant_passes g signed e owner =
        let bytes : Result Bytes = codec.grant_bytes (unsigned_grant k codec g) in
        let (text, good, same) =
          inverted (signature_of k codec private deployment_grant bytes)
            (λ s. record g { owner_signature = s }) signed e in
        rw (← same) (
          rw owner
            (signed_passes private deployment_grant bytes text "owner_signature" trips usable good))

    -- Where base64 reads back what it writes, the public key of the owner is accepted and Ed25519
    -- verifies its own signatures: an update whose fields, window and grant pass the checks for the
    -- owner's key, and that the owner has signed, is accepted.
    pub update_passes :
        (q signed : UpdateRequest)
        → sign_update k codec private q ≡ ok signed
        → update_owner k codec q now ≡ ok (k.public_of private)
        → verify_update k codec signed now ≡ ok tt
    unfolding sign_update verify_update
    update_passes q signed e owner =
        let bytes : Result Bytes = codec.update_bytes (unsigned_update k codec q) in
        let (text, good, same) =
          inverted (signature_of k codec private update_request bytes)
            (λ s. record q { owner_signature = s }) signed e in
        rw (← same) (
          rw owner
            (signed_passes private update_request bytes text "owner_signature" trips usable good))

    reservation_passes :
        (r signed : Reservation)
        → sign_reservation k codec (k.public_of private) private r ≡ ok signed
        → reservation_agent k codec
            (record r { agent_node_id = codec.b64_encode (k.public_of private) })
            now
          ≡ ok (k.public_of private)
        → verify_reservation k codec signed now ≡ ok tt
    unfolding sign_reservation verify_reservation
    reservation_passes r signed e agent =
        let named : Reservation = record r {
          agent_node_id = codec.b64_encode (k.public_of private);
        } in
        let bytes : Result Bytes = codec.reservation_bytes (unsigned_reservation k codec named) in
        let (text, good, same) =
          inverted (signature_of k codec private reservation bytes)
            (λ s. record named { signature = s }) signed e in
        rw (← same)
          (rw agent (signed_passes private reservation bytes text "signature" trips usable good))

  update_owner_lem :
      (q : UpdateRequest) (now : ℕ) (owner : Bytes)
      → update_owner k codec q now ≡ ok owner
      → (verify_grant k codec q.grant now ≡ ok tt) × (is_bound k codec q ≡ true)
  unfolding update_owner
  update_owner_lem q now owner e = elim (Result-cases (verify_grant k codec q.grant now)) [
    | inr (m, bad) ↦ absurd (ground arith)
    | inl (_, good) ↦ elim (Bool-cases (is_bound k codec q)) [
      | inr loose ↦ absurd (ground arith)
      | inl bound ↦ (good, bound)
    ]
  ]

  -- An update that is accepted carries an accepted grant for the same owner, workload, agent, answer
  -- key and revision.
  pub verify_update_lem :
      (q : UpdateRequest) (now : ℕ)
      → verify_update k codec q now ≡ ok tt
      → (verify_grant k codec q.grant now ≡ ok tt)
        × (q.grant.namespace_id ≡ q.namespace_id)
        × (q.grant.workload_id ≡ q.workload_id)
        × (q.grant.target_node_id ≡ q.target_node_id)
        × (q.grant.response_kem_pubkey ≡ q.response_kem_pubkey)
        × (q.grant.revision_id ≡ q.requested_revision_id)
  unfolding verify_update is_bound
  verify_update_lem q now e =
      let (owner, passed, signature_ok) =
        >>=-eq-ok (update_owner k codec q now)
          (λ (key : Bytes).
            check_signature k codec key update_request
              (codec.update_bytes (unsigned_update k codec q)) q.owner_signature "owner_signature")
          e in
      let (good, bound) = update_owner_lem q now owner passed in
      (
        good,
        ground (arith, eq_lem q.grant.namespace_id q.namespace_id),
        ground (arith, eq_lem q.grant.workload_id q.workload_id),
        ground (arith, eq_lem q.grant.target_node_id q.target_node_id),
        ground (arith, eq_lem q.grant.response_kem_pubkey q.response_kem_pubkey),
        ground (arith, eq_lem q.grant.revision_id q.requested_revision_id),
      )
