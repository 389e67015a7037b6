-- ===== src/Proxy/TenantSessions/Live.antt =====
-- What a tenant that is handed out as live has shown.
use podmesh.Prelude.{
  ℕ, ◌≡◌, subst, String, some, string_eq, nat_eq, eq_lem, ok, arith, Option-cases, Result-cases,
  inl, inr,
}
use podmesh.Proxy.TenantSessions.{
  ProvenTenant, Sessions, WorkloadIdentity, Authority, proven, proven_live, verify_session,
  valid_identity,
}

-- The identity behind a valid credential.
abbrev pub Vouched : Authority → String → ℕ → ProvenTenant → Type 0
Vouched a endpoint now t =
    (i : WorkloadIdentity) × (a.from_bytes t.credential ≡ ok i)
    × (i.delegation.scope.tenant_owner ≡ t.owner_pubkey)
    × (i.delegation.scope.manifest_id ≡ t.manifest_id)
    × (i.claims.endpoint_id ≡ endpoint)
    × (a.verify i now ≡ ok tt)

valid_facts :
    (a : Authority) (t : ProvenTenant) (endpoint : String) (now : ℕ) (i : WorkloadIdentity)
    → valid_identity a t endpoint now ≡ ok i
    → (a.from_bytes t.credential ≡ ok i)
      × (i.delegation.scope.tenant_owner ≡ t.owner_pubkey)
      × (i.delegation.scope.manifest_id ≡ t.manifest_id)
      × (i.claims.endpoint_id ≡ endpoint)
      × (a.verify i now ≡ ok tt)
unfolding valid_identity verify_session
valid_facts a t endpoint now i h = elim (Result-cases (a.from_bytes t.credential)) [
  | inr (m, bad) ↦ absurd (ground arith)
  | inl (x, good) ↦ elim (Result-cases (a.b64_decode x.claims.signing_public_key_b64)) [
    | inr (m, bad) ↦ absurd (ground arith)
    | inl (k, decoded) ↦
        let this : x ≡ i = ground arith in
        subst
          (λ (z : WorkloadIdentity).
            (a.from_bytes t.credential ≡ ok z)
            × (z.delegation.scope.tenant_owner ≡ t.owner_pubkey)
            × (z.delegation.scope.manifest_id ≡ t.manifest_id)
            × (z.claims.endpoint_id ≡ endpoint)
            × (a.verify z now ≡ ok tt))
          this
          (
            good,
            ground (arith, eq_lem x.delegation.scope.tenant_owner t.owner_pubkey),
            ground (arith, eq_lem x.delegation.scope.manifest_id t.manifest_id),
            ground (arith, eq_lem x.claims.endpoint_id endpoint),
            ground arith,
          )
  ]
]

-- A tenant that is handed out as live has proven itself on this very connection, and its credential
-- is for this endpoint, owner and route and passes its check now.
pub proven_live_lem :
    (a : Authority) (endpoint : String) (stable_id now : ℕ) (s : Sessions) (t : ProvenTenant)
    → proven_live a endpoint stable_id now s ≡ ok t
    → (proven endpoint stable_id s ≡ some t) × Vouched a endpoint now t
unfolding proven_live
proven_live_lem a endpoint stable_id now s t h = elim (Option-cases (proven endpoint stable_id s)) [
  | inl nothing ↦ absurd (ground arith)
  | inr (u, shown) ↦ elim (Result-cases (valid_identity a u endpoint now)) [
    | inr (m, bad) ↦ absurd (ground arith)
    | inl (i, valid) ↦
        let this : u ≡ t = ground arith in
        (
          ground (arith, this),
          subst (λ (z : ProvenTenant). Vouched a endpoint now z) this
              (let (b, c, d, e, f) = valid_facts a u endpoint now i valid in (i, b, c, d, e, f)),
        )
  ]
]
