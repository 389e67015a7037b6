-- ===== src/Proxy/TenantSessions.antt =====
-- Which tenant each open connection has proven itself to belong to
-- (podmesh-proxy/src/tenant_sessions.rs). The lock makes each call one step; a poisoned lock and the
-- gauge are left out.
pub mod Continuity
pub mod Renewal
pub mod Live
pub mod Tests
use podmesh.Prelude.{
  ℕ, ◌≡◌, String, Bool, true, false, not, ◌&&◌, Option, none, some, List, [], ◌∷◌, ◌==◌, string_eq,
  nat_eq, if◌then◌else◌, leb, Result, ok, err, ensure, context, ◌>>=◌, ◌>>◌, is_none,
}
use podmesh.Map.{Map, get, contains_key, insert, remove}

pub record ProvenTenant : Type 0 where
  pub owner_pubkey : String
  pub manifest_id : String
  pub credential : List ℕ

pub record TenantSession : Type 0 where
  pub stable_id : ℕ
  pub tenant : Option ProvenTenant

abbrev pub Sessions : Type 0
Sessions = Map String TenantSession

-- The identities of shared/protocol/src/workload_identity.rs.
pub record EnrollmentScope : Type 0 where
  pub tenant_owner : String
  pub manifest_id : String
  pub workload_id : String
  pub revision_id : String
  pub issuer_public_key_b64 : String
  pub token_id : String
  pub issued_at_secs : ℕ
  pub expires_at_secs : Option ℕ
  pub max_child_lifetime_secs : ℕ

pub record EnrollmentDelegation : Type 0 where
  pub version : ℕ
  pub scope : EnrollmentScope
  pub biscuit_b64 : String

pub record WorkloadIdentityClaims : Type 0 where
  pub delegation_digest : String
  pub endpoint_id : String
  pub signing_public_key_b64 : String
  pub issued_at_secs : ℕ
  pub expires_at_secs : ℕ

pub record WorkloadIdentity : Type 0 where
  pub version : ℕ
  pub delegation : EnrollmentDelegation
  pub claims : WorkloadIdentityClaims
  pub biscuit_b64 : String

-- The decoding of a credential, the check of its tokens, and base64.
pub record Authority : Type 0 where
  pub from_bytes : List ℕ → Result WorkloadIdentity
  pub verify : WorkloadIdentity → ℕ → Result (Unit {0})
  pub b64_decode : String → Result (List ℕ)
  pub b64_encode : List ℕ → String

pub begin : String → ℕ → Sessions → Sessions × Result (Unit {0})
begin endpoint stable_id s =
    if contains_key s endpoint
    then (s, err "endpoint already has an active connection")
    else (insert s endpoint (record { stable_id = stable_id; tenant = none }), ok tt)

-- The session that an operation is about.
current : String → ℕ → Sessions → Result TenantSession
current endpoint stable_id s = do
  session ← context (get s endpoint) "connection is no longer active"
  ensure (session.stable_id == stable_id) "operation belongs to a stale connection"
  ok session

store_tenant :
    String → ProvenTenant → Sessions → Result TenantSession → Sessions × Result (Unit {0})
store_tenant endpoint t s (err e) = (s, err e)
store_tenant endpoint t s (ok session) =
    (insert s endpoint (record session { tenant = some t }), ok tt)

check_unproven : TenantSession → Result TenantSession
check_unproven session = do
  ensure (is_none session.tenant) "connection already proved a tenant"
  ok session

pub prove_once : String → ℕ → ProvenTenant → Sessions → Sessions × Result (Unit {0})
unfolding current store_tenant check_unproven
prove_once endpoint stable_id t s =
    store_tenant endpoint t s (do session ← current endpoint stable_id s; check_unproven session)

proven_by : ℕ → Option TenantSession → Option ProvenTenant
proven_by stable_id none = none
proven_by stable_id (some session) = if session.stable_id == stable_id then session.tenant else none

pub proven : String → ℕ → Sessions → Option ProvenTenant
unfolding proven_by
proven endpoint stable_id s = proven_by stable_id (get s endpoint)

module _ (a : Authority) where
  -- `WorkloadIdentity::verify_session`
  pub verify_session : WorkloadIdentity → String → String → String → List ℕ → ℕ → Result (Unit {0})
  verify_session i owner manifest endpoint signing_key now = do
    ensure
        ((i.delegation.scope.tenant_owner == owner) && (i.delegation.scope.manifest_id == manifest))
        "workload identity tenant/scope mismatch"
    ensure (i.claims.endpoint_id == endpoint) "workload identity transport mismatch"
    ensure (i.claims.signing_public_key_b64 == a.b64_encode signing_key)
        "workload identity application signer mismatch"
    a.verify i now

  -- A credential that is valid for the endpoint and the tenant now.
  pub valid_identity : ProvenTenant → String → ℕ → Result WorkloadIdentity
  unfolding verify_session
  valid_identity t endpoint now = do
    identity ← a.from_bytes t.credential
    signing_key ← a.b64_decode identity.claims.signing_public_key_b64
    verify_session identity t.owner_pubkey t.manifest_id endpoint signing_key now
    ok identity

  -- A renewal keeps the owner, the route, the workload and the keys, and does not go back in time.
  pub check_renewal : WorkloadIdentity → ProvenTenant → ProvenTenant → Result (Unit {0})
  check_renewal identity t old = do
    previous ← a.from_bytes old.credential
    ensure
        ((old.owner_pubkey == t.owner_pubkey)
          && (old.manifest_id == t.manifest_id)
          && (previous.delegation.scope.workload_id == identity.delegation.scope.workload_id)
          && (previous.claims.signing_public_key_b64 == identity.claims.signing_public_key_b64))
        "workload renewal changes proven identity"
    ensure
        (leb previous.claims.issued_at_secs identity.claims.issued_at_secs
          && leb previous.claims.expires_at_secs identity.claims.expires_at_secs)
        "workload renewal regresses authority"

  pub check_old : WorkloadIdentity → ProvenTenant → Option ProvenTenant → Result (Unit {0})
  check_old identity t none = ok tt
  check_old identity t (some old) = check_renewal identity t old

  pub prove_bound : String → ℕ → ProvenTenant → ℕ → Sessions → Sessions × Result (Unit {0})
  unfolding store_tenant current check_old
  prove_bound endpoint stable_id t now s = store_tenant endpoint t s (do
    identity ← valid_identity t endpoint now
    session ← current endpoint stable_id s
    check_old identity t session.tenant
    ok session)

  pub proven_live : String → ℕ → ℕ → Sessions → Result ProvenTenant
  proven_live endpoint stable_id now s = do
    t ← context (proven endpoint stable_id s) "operation on a connection that proved no tenant"
    identity ← valid_identity t endpoint now
    ok t

is_current : ℕ → Option TenantSession → Bool
is_current stable_id none = false
is_current stable_id (some session) = session.stable_id == stable_id

pub remove_if_current : String → ℕ → Sessions → Sessions
unfolding is_current
remove_if_current endpoint stable_id s =
    if is_current stable_id (get s endpoint) then remove s endpoint else s

-- One call on the table, and the table after a sequence of calls.
pub data Call : Type 0 where
  begin_call : String → ℕ → Call
  once_call : String → ℕ → ProvenTenant → Call
  bound_call : String → ℕ → ProvenTenant → ℕ → Call
  remove_call : String → ℕ → Call

pub step : Authority → Call → Sessions → Sessions
unfolding begin prove_once prove_bound remove_if_current
step a (begin_call endpoint stable_id) s = (begin endpoint stable_id s).0
step a (once_call endpoint stable_id t) s = (prove_once endpoint stable_id t s).0
step a (bound_call endpoint stable_id t now) s = (prove_bound a endpoint stable_id t now s).0
step a (remove_call endpoint stable_id) s = remove_if_current endpoint stable_id s

pub run : Authority → List Call → Sessions → Sessions
unfolding step
run a [] s = s
run a (call ∷ calls) s = run a calls (step a call s)
