-- ===== src/Proxy/TenantSessions/Continuity.antt =====
-- When one tenant renews another: the tests of a renewal in tenant_sessions.rs.
use podmesh.Prelude.{
  ℕ, ◌≤◌, ◌≡◌, subst, ◌⊎◌, sym, ◌∙◌, String, Option, some, string_eq, nat_eq, eq_lem, ok, arith,
  Result-cases, inl, inr,
}
use podmesh.Proxy.TenantSessions.{
  ProvenTenant, WorkloadIdentity, Authority, valid_identity, check_renewal, check_old,
}

-- `new` is a renewal of `old`: the same owner, route, workload and key, and no earlier times.
pub record Renews (a : Authority) (old new : ProvenTenant) : Type 0 where
  pub before : WorkloadIdentity
  pub after : WorkloadIdentity
  pub decoded_before : a.from_bytes old.credential ≡ ok before
  pub decoded_after : a.from_bytes new.credential ≡ ok after
  pub owner : old.owner_pubkey ≡ new.owner_pubkey
  pub manifest : old.manifest_id ≡ new.manifest_id
  pub workload : before.delegation.scope.workload_id ≡ after.delegation.scope.workload_id
  pub key : before.claims.signing_public_key_b64 ≡ after.claims.signing_public_key_b64
  pub issued : before.claims.issued_at_secs ≤ after.claims.issued_at_secs
  pub expires : before.claims.expires_at_secs ≤ after.claims.expires_at_secs

abbrev pub Continues : Authority → ProvenTenant → ProvenTenant → Type 0
Continues a old new = (old ≡ new) ⊎ Renews a old new

module _ (a : Authority) where
  trans_renewals : (t u v : ProvenTenant) → Renews a t u → Renews a u v → Renews a t v
  trans_renewals t u v p q =
      let middle : p.after ≡ q.before = ground (arith, p.decoded_after, q.decoded_before) in
      record {
        before = p.before;
        after = q.after;
        decoded_before = p.decoded_before;
        decoded_after = q.decoded_after;
        owner = p.owner ∙ q.owner;
        manifest = p.manifest ∙ q.manifest;
        workload = ground (arith, middle, p.workload, q.workload);
        key = ground (arith, middle, p.key, q.key);
        issued = ground (arith, middle, p.issued, q.issued);
        expires = ground (arith, middle, p.expires, q.expires);
      }

  pub check_renewal-Renews :
      (identity : WorkloadIdentity) (t old : ProvenTenant)
      → a.from_bytes t.credential ≡ ok identity
      → check_renewal a identity t old ≡ ok tt
      → Renews a old t
  unfolding check_renewal
  check_renewal-Renews identity t old decoded h =
      elim (Result-cases (a.from_bytes old.credential)) [
        | inr (e, bad) ↦ absurd (ground arith)
        | inl (previous, good) ↦ record {
          before = previous;
          after = identity;
          decoded_before = good;
          decoded_after = decoded;
          owner = ground (arith, eq_lem old.owner_pubkey t.owner_pubkey);
          manifest = ground (arith, eq_lem old.manifest_id t.manifest_id);
          workload = ground (
            arith,
            eq_lem previous.delegation.scope.workload_id identity.delegation.scope.workload_id,
          );
          key = ground (
            arith,
            eq_lem previous.claims.signing_public_key_b64 identity.claims.signing_public_key_b64,
          );
          issued = ground arith;
          expires = ground arith;
        }
      ]

  pub valid_decoded :
      (v : ProvenTenant) (e : String) (now : ℕ) (identity : WorkloadIdentity)
      → valid_identity a v e now ≡ ok identity
      → a.from_bytes v.credential ≡ ok identity
  unfolding valid_identity
  valid_decoded v e now identity h = elim (Result-cases (a.from_bytes v.credential)) [
    | inr (m, bad) ↦ absurd (ground arith)
    | inl (x, good) ↦ elim (Result-cases (a.b64_decode x.claims.signing_public_key_b64)) [
      | inr (m, bad) ↦ absurd (ground arith)
      | inl (k, decoded) ↦ ground arith
    ]
  ]

  -- A renewal that goes through continues what the session had proven.
  pub old-Continues :
      (identity : WorkloadIdentity) (t u v : ProvenTenant) (o : Option ProvenTenant)
      → a.from_bytes v.credential ≡ ok identity
      → o ≡ some u
      → check_old a identity v o ≡ ok tt
      → Continues a t u
      → Continues a t v
  unfolding check_old
  old-Continues identity t u v o decoded has passed (inl same) = inr (
      subst (λ (z : ProvenTenant). Renews a z v) (sym same)
        (check_renewal-Renews identity v u decoded (ground (arith, has))))
  old-Continues identity t u v o decoded has passed (inr r) =
      inr (trans_renewals t u v r (check_renewal-Renews identity v u decoded (ground (arith, has))))
