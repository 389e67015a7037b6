-- ===== src/Proxy/TenantSessions/Renewal.antt =====
-- What a connection has proven stays what it is, but for renewals of the same authority.
use podmesh.Prelude.{
  ℕ, ◌≡◌, ◌≢◌, subst, refl, sym, String, none, some, List, [], ◌∷◌, ◌==◌, string_eq, nat_eq, eq_lem,
  Result, ok, err, arith, Bool-cases, Option-cases, Result-cases, inl, inr,
}
use podmesh.Map.{get, contains_key, insert}
use podmesh.Map.Laws.{get-insert, get-remove}
use podmesh.Proxy.TenantSessions.{
  ProvenTenant, TenantSession, Sessions, Authority, begin, current, store_tenant, check_unproven,
  prove_once, proven, proven_by, valid_identity, check_old, prove_bound, is_current,
  remove_if_current, Call, begin_call, once_call, bound_call, remove_call, step, run,
}
use podmesh.Proxy.TenantSessions.Continuity.{Continues, old-Continues, valid_decoded}

module _ (a : Authority) where
  -- The connection `stable_id` of `endpoint`, if it is still the current one, has proven `t` or a
  -- renewal of it.
  record Holds (endpoint : String) (stable_id : ℕ) (t : ProvenTenant) (s : Sessions) : Type 0 where
    at :
        (session : TenantSession)
        → get s endpoint ≡ some session
        → session.stable_id ≡ stable_id
        → (u : ProvenTenant) × (session.tenant ≡ some u) × Continues a t u

  -- Writing another session, or the same one with a tenant that continues, keeps it.
  other-Holds :
      (endpoint : String) (stable_id : ℕ) (t : ProvenTenant) (e : String) (x : TenantSession)
      (s : Sessions)
      → Holds endpoint stable_id t s
      → (e ≡ endpoint
          → x.stable_id ≡ stable_id
          → (u : ProvenTenant) × (x.tenant ≡ some u) × Continues a t u)
      → Holds endpoint stable_id t (insert s e x)
  other-Holds endpoint stable_id t e x s h new = record {
    at = λ session found same. elim (Bool-cases (e == endpoint)) [
      | inl hit ↦
          let this : x ≡ session = ground (arith, get-insert s e endpoint x) in
          subst (λ (z : TenantSession). (u : ProvenTenant) × (z.tenant ≡ some u) × Continues a t u)
            this (new ((eq_lem e endpoint).0 hit) (ground (arith, this)))
      | inr miss ↦ h.at session (ground (arith, get-insert s e endpoint x)) same
    ];
  }

  begin-Holds :
      (endpoint : String) (stable_id : ℕ) (t : ProvenTenant) (e : String) (i : ℕ) (s : Sessions)
      → (e ≡ endpoint → i ≢ stable_id)
      → Holds endpoint stable_id t s
      → Holds endpoint stable_id t (begin e i s).0
  unfolding begin
  begin-Holds endpoint stable_id t e i s fresh h = elim (Bool-cases (contains_key s e)) [
    | inl busy ↦ rw busy h
    | inr free ↦ rw free (
        other-Holds endpoint stable_id t e (record { stable_id = i; tenant = none }) s h
          (λ same old. absurd (fresh same old)))
  ]

  remove-Holds :
      (endpoint : String) (stable_id : ℕ) (t : ProvenTenant) (e : String) (i : ℕ) (s : Sessions)
      → Holds endpoint stable_id t s
      → Holds endpoint stable_id t (remove_if_current e i s)
  unfolding remove_if_current
  remove-Holds endpoint stable_id t e i s h = elim (Bool-cases (is_current i (get s e))) [
    | inl gone ↦ rw gone (record {
      at = λ session found same. h.at session (ground (arith, get-remove s e endpoint)) same;
    })
    | inr stale ↦ rw stale h
  ]

  -- An operation that stores a tenant stores it in the session that it is about.
  current_found :
      (e : String) (i : ℕ) (s : Sessions) (session : TenantSession)
      → current e i s ≡ ok session
      → (get s e ≡ some session) × (session.stable_id ≡ i)
  unfolding current
  current_found e i s session h = (ground arith, ground (arith, eq_lem session.stable_id i))

  store-Holds :
      (endpoint : String) (stable_id : ℕ) (t : ProvenTenant) (e : String) (v : ProvenTenant)
      (s : Sessions) (r : Result TenantSession)
      → Holds endpoint stable_id t s
      → ((session : TenantSession)
          → r ≡ ok session
          → e ≡ endpoint
          → session.stable_id ≡ stable_id
          → Continues a t v)
      → Holds endpoint stable_id t (store_tenant e v s r).0
  unfolding store_tenant
  store-Holds endpoint stable_id t e v s (err m) h new = h
  store-Holds endpoint stable_id t e v s (ok session) h new =
      other-Holds endpoint stable_id t e (record session { tenant = some v }) s h
        (λ same old. (v, refl, new session refl same old))

  once-Holds :
      (endpoint : String) (stable_id : ℕ) (t : ProvenTenant) (e : String) (i : ℕ) (v : ProvenTenant)
      (s : Sessions)
      → Holds endpoint stable_id t s
      → Holds endpoint stable_id t (prove_once e i v s).0
  unfolding prove_once check_unproven
  once-Holds endpoint stable_id t e i v s h =
      store-Holds endpoint stable_id t e v s _ h (λ session r same old.
        elim (Result-cases (current e i s)) [
          | inr (m, bad) ↦ absurd (ground arith)
          | inl (x, good) ↦
              let this : x ≡ session = ground arith in
              let (found, id) = current_found e i s x good in
              let (u, has, c) = h.at x (rw (sym same) found) (ground (arith, this)) in
              absurd (ground (arith, this))
        ])

  bound-Holds :
      (endpoint : String) (stable_id : ℕ) (t : ProvenTenant) (e : String) (i : ℕ) (v : ProvenTenant)
      (now : ℕ) (s : Sessions)
      → Holds endpoint stable_id t s
      → Holds endpoint stable_id t (prove_bound a e i v now s).0
  unfolding prove_bound
  bound-Holds endpoint stable_id t e i v now s h =
      store-Holds endpoint stable_id t e v s _ h (λ session r same old.
        elim (Result-cases (valid_identity a v e now)) [
          | inr (m, bad) ↦ absurd (ground arith)
          | inl (identity, valid) ↦ elim (Result-cases (current e i s)) [
            | inr (m, bad) ↦ absurd (ground arith)
            | inl (x, good) ↦ elim (Result-cases (check_old a identity v x.tenant)) [
              | inr (m, bad) ↦ absurd (ground arith)
              | inl (z, passed) ↦
                  let this : x ≡ session = ground arith in
                  let (found, id) = current_found e i s x good in
                  let (u, has, c) = h.at x (rw (sym same) found) (ground (arith, this)) in
                  old-Continues a identity t u v x.tenant (valid_decoded a v e now identity valid)
                    has passed c
            ]
          ]
        ])

  -- No call opens the connection `stable_id` of `endpoint` again.
  abbrev pub IsNotReopened : String → ℕ → List Call → Type 0
  IsNotReopened endpoint stable_id [] = Unit {0}
  IsNotReopened endpoint stable_id (begin_call e i ∷ calls) =
      (e ≡ endpoint → i ≢ stable_id) × IsNotReopened endpoint stable_id calls
  IsNotReopened endpoint stable_id (_ ∷ calls) = IsNotReopened endpoint stable_id calls

  run-Holds :
      (endpoint : String) (stable_id : ℕ) (t : ProvenTenant) (calls : List Call) (s : Sessions)
      → IsNotReopened endpoint stable_id calls
      → Holds endpoint stable_id t s
      → Holds endpoint stable_id t (run a calls s)
  unfolding run step
  run-Holds endpoint stable_id t [] s fresh h = h
  run-Holds endpoint stable_id t (begin_call e i ∷ calls) s fresh h =
      run-Holds endpoint stable_id t calls _ fresh.1
        (begin-Holds endpoint stable_id t e i s fresh.0 h)
  run-Holds endpoint stable_id t (once_call e i v ∷ calls) s fresh h =
      run-Holds endpoint stable_id t calls _ fresh (once-Holds endpoint stable_id t e i v s h)
  run-Holds endpoint stable_id t (bound_call e i v now ∷ calls) s fresh h =
      run-Holds endpoint stable_id t calls _ fresh (bound-Holds endpoint stable_id t e i v now s h)
  run-Holds endpoint stable_id t (remove_call e i ∷ calls) s fresh h =
      run-Holds endpoint stable_id t calls _ fresh (remove-Holds endpoint stable_id t e i s h)

  -- A tenant that a connection has proven stays its tenant, but for renewals: after any calls, of any
  -- connections, that do not open this connection again, what it has proven, if it is still current,
  -- is the same tenant or one with the same owner, route, workload and key and no earlier times.
  pub proven-Continues :
      (endpoint : String) (stable_id : ℕ) (t u : ProvenTenant) (calls : List Call) (s : Sessions)
      → proven endpoint stable_id s ≡ some t
      → IsNotReopened endpoint stable_id calls
      → proven endpoint stable_id (run a calls s) ≡ some u
      → Continues a t u
  unfolding proven proven_by
  proven-Continues endpoint stable_id t u calls s first fresh last =
      let start : Holds endpoint stable_id t s = record {
        at = λ session found same. (t, ground arith, inl refl);
      } in
      let kept : Holds endpoint stable_id t (run a calls s) =
        run-Holds endpoint stable_id t calls s fresh start in
      elim (Option-cases (get (run a calls s) endpoint)) [
        | inl gone ↦ absurd (ground arith)
        | inr (session, found) ↦
            let same : session.stable_id ≡ stable_id =
              ground (arith, eq_lem session.stable_id stable_id) in
            let (v, has, c) = kept.at session found same in
            subst (λ (z : ProvenTenant). Continues a t z) (ground (arith, same)) c
      ]
