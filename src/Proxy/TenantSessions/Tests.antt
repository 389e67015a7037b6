-- ===== src/Proxy/TenantSessions/Tests.antt =====
-- Tests of the session table, and the theorems on it at a concrete table.
use podmesh.Prelude.{
  ℕ, ◌≡◌, refl, List, [], ◌∷◌, some, none, Result, ok, err, arith, string_eq, nat_eq,
}
use podmesh.Map.{get, insert, remove}
use podmesh.Proxy.TenantSessions.{
  ProvenTenant, Sessions, WorkloadIdentity, Authority, proven, proven_live, Call, begin_call,
  bound_call, run, valid_identity, check_renewal,
}
use podmesh.Proxy.TenantSessions.Continuity.{Continues}
use podmesh.Proxy.TenantSessions.Renewal.{proven-Continues}
use podmesh.Proxy.TenantSessions.Live.{Vouched, proven_live_lem}

abbrev identity : WorkloadIdentity
identity = record {
  version = 1;
  delegation = record {
    version = 1;
    scope = record {
      tenant_owner = "owner";
      manifest_id = "manifest";
      workload_id = "web";
      revision_id = "rev1";
      issuer_public_key_b64 = "issuer";
      token_id = "token";
      issued_at_secs = 100;
      expires_at_secs = none;
      max_child_lifetime_secs = 3600;
    };
    biscuit_b64 = "";
  };
  claims = record {
    delegation_digest = "digest";
    endpoint_id = "peer";
    signing_public_key_b64 = "key";
    issued_at_secs = 100;
    expires_at_secs = 200;
  };
  biscuit_b64 = "";
}

-- One credential byte decodes to the identity, two to its renewal.
abbrev decode : List ℕ → Result WorkloadIdentity
decode (x ∷ []) = ok identity
decode (x ∷ y ∷ []) = ok (record identity {
  claims = record identity.claims { issued_at_secs = 150; expires_at_secs = 250 };
})
decode bytes = err "bad credential"

abbrev authority : Authority
authority = record {
  from_bytes = decode;
  verify = λ i now. ok tt;
  b64_decode = λ key. ok (9 ∷ []);
  b64_encode = λ bytes. "key";
}

abbrev tenant : ProvenTenant
tenant = record { owner_pubkey = "owner"; manifest_id = "manifest"; credential = 1 ∷ [] }

abbrev renewal : ProvenTenant
renewal = record { owner_pubkey = "owner"; manifest_id = "manifest"; credential = 1 ∷ 2 ∷ [] }

abbrev intruder : ProvenTenant
intruder = record { owner_pubkey = "other"; manifest_id = "manifest"; credential = 1 ∷ 2 ∷ [] }

abbrev table : Sessions
table = ("peer", record { stable_id = 10; tenant = some tenant }) ∷ []

-- Another connection comes, an intruder is refused, and the tenant is renewed.
abbrev calls : List Call
calls =
    begin_call "other" 11
    ∷ bound_call "peer" 10 intruder 160
    ∷ bound_call "peer" 10 renewal 160
    ∷ []

proven_first : proven "peer" 10 table ≡ some tenant
unfolding proven get
proven_first = refl

renewed : proven "peer" 10 (run authority calls table) ≡ some renewal
unfolding proven run get valid_identity insert remove check_renewal
renewed = refl

live : proven_live authority "peer" 10 160 table ≡ ok tenant
unfolding proven_live proven get valid_identity
live = refl

proven-Continues_example : Continues authority tenant renewal
proven-Continues_example =
    proven-Continues authority "peer" 10 tenant renewal calls table proven_first
      ((λ same. omega arith), tt) renewed

proven_live_lem_example :
    (proven "peer" 10 table ≡ some tenant) × Vouched authority "peer" 160 tenant
proven_live_lem_example = proven_live_lem authority "peer" 10 160 table tenant live
