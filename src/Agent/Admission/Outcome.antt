-- ===== src/Agent/Admission/Outcome.antt =====
-- What an admission answers, and what it changes.
use podmesh.Prelude.{
  ◌<◌, length, eq_lem, ℕ, ◌+◌, ◌≤◌, ◌≡◌, ◌↔◌, ◌∙◌, sym, String, true, false, List, Option, none,
  some, arith, Result, ok, err, refl, ◌==◌, string_eq, if◌then◌else◌,
}
use podmesh.Map.{insert}
use podmesh.Protocol.Messages.{
  AdmissionRequest, Reservation, AdmissionRefusal, as_str, state_requires_repair, already_active,
  workload_limit, reservation_limit, insufficient_capacity, pending_capacity_limit,
}
use podmesh.Agent.State.{Config, WorkloadState, drop_expired}
use podmesh.Agent.ReplayCache.{max_replay_entries, run, ReplayCache, record_key, recorded_refused}
use podmesh.Agent.ReplayCache
use podmesh.Agent.Capacity.{IsSound, Committed, drop_expired-Committed}
use podmesh.Agent.Admission.{
  Env, Agent, Checks, checks, is_accepted, refusal, reason, reservation_for, sign, hold, reserve,
  admit_fresh, admit_once, admit, replay_key,
}
use podmesh.Agent.Admission.Exact.{Admissible, accepted-Admissible}

as_str_nonempty : (r : AdmissionRefusal) → (as_str r == "") ≡ false
unfolding as_str
as_str_nonempty state_requires_repair = refl
as_str_nonempty already_active = refl
as_str_nonempty workload_limit = refl
as_str_nonempty reservation_limit = refl
as_str_nonempty insufficient_capacity = refl
as_str_nonempty pending_capacity_limit = refl

reason_empty : (o : Option AdmissionRefusal) → (reason o ≡ "") ↔ (o ≡ none)
unfolding reason
reason_empty none = (λ h. refl, λ h. refl)
reason_empty (some r) =
    (λ h. ground (arith, as_str_nonempty r, eq_lem (as_str r) ""), λ h. absurd (cc))

refused_never : (k : Checks) → (refusal k ≡ none) ↔ (is_accepted k ≡ true)
unfolding refusal is_accepted
refused_never k = (λ h. ground arith, λ h. ground arith)

module _ (env : Env) where
  signed_fields :
      (fresh_id : String) (q : AdmissionRequest) (k : Checks) (now : ℕ) (r : Reservation)
      → sign env (reservation_for fresh_id q k now) ≡ ok r
      → (r.accepted ≡ is_accepted k)
        × (r.reason ≡ reason (refusal k))
        × (r.expires_at_secs ≡ now + 30)
        × (r.reservation_id ≡ fresh_id)
        × (r.workload_id ≡ q.workload_id)
  unfolding sign reservation_for
  signed_fields fresh_id q k now r e =
      (ground arith, ground arith, ground arith, ground arith, ground arith)

  hold_answer :
      (kept : WorkloadState) (k : Checks) (outcome : Result Reservation) (r : Reservation)
      → (hold kept k outcome).1 ≡ ok r
      → outcome ≡ ok r
  unfolding hold
  hold_answer kept k (ok x) r e = e
  hold_answer kept k (err x) r e = e

  -- On a committed state under a sound configuration, where the signing answers `r`: `r` accepts
  -- exactly what is admissible once expired reservations are dropped; its reason is empty exactly
  -- when it accepts; it expires after 30 seconds; and the new state is the old one without the
  -- expired reservations, with `r` under the fresh identifier if it accepts and nothing else
  -- otherwise.
  pub reserve_answer :
      (c : Config) (fresh_id : String) (q : AdmissionRequest) (now : ℕ) (s : WorkloadState)
      (r : Reservation)
      → IsSound c
      → Committed c s
      → (reserve env c fresh_id q now s).1 ≡ ok r
      → ((r.accepted ≡ true) ↔ Admissible c (drop_expired now s) q)
        × ((r.reason ≡ "") ↔ (r.accepted ≡ true))
        × (r.expires_at_secs ≡ now + 30)
        × ((reserve env c fresh_id q now s).0 ≡ (
            let kept = drop_expired now s in
            if r.accepted
            then record kept { reservations = insert kept.reservations fresh_id r }
            else kept))
  unfolding reserve
  reserve_answer c fresh_id q now s r sound h e =
      let kept : WorkloadState = drop_expired now s in
      let k : Checks = checks c kept q in
      let signed : sign env (reservation_for fresh_id q k now) ≡ ok r =
        hold_answer kept k (sign env (reservation_for fresh_id q k now)) r e in
      let (accepted, why, expiry, id, _) = signed_fields fresh_id q k now r signed in
      let exact : (is_accepted k ≡ true) ↔ Admissible c kept q =
        accepted-Admissible c kept q sound (drop_expired-Committed c now s h) in
      (
        (λ t. exact.0 (sym accepted ∙ t), λ t. accepted ∙ exact.1 t),
        (
          λ t. accepted ∙ (refused_never k).0 ((reason_empty (refusal k)).0 (sym why ∙ t)),
          λ t. why ∙ (reason_empty (refusal k)).1 ((refused_never k).1 (sym accepted ∙ t)),
        ),
        expiry,
        rw (signed, hold, accepted, id),
      )

  -- On an agent with a valid replay cache, once a request has been answered, the request changes
  -- nothing of the state when it comes again, whatever the state is by then: provided that fewer
  -- than 16384 calls of the cache, none later than the expiry of the request, stand in between,
  -- and that it comes no later than that expiry itself.
  pub admit_twice :
      (first second : String) (q : AdmissionRequest) (t u : ℕ) (a b : Agent) (answer : List ℕ)
      (calls : List ReplayCache.Call)
      → ReplayCache.IsValid a.replay
      → (admit env first q t a).1 ≡ ok answer
      → b.replay ≡ run calls (admit env first q t a).0.replay
      → ReplayCache.AllBefore
          (replay_key "admission" q.namespace_id q.nonce)
          q.expires_at_secs
          calls
      → length calls < max_replay_entries
      → u ≤ q.expires_at_secs
      → (admit env second q u b).0.state ≡ b.state
  unfolding admit admit_once admit_fresh
  admit_twice first second q t u a b answer calls v e since before few fresh =
      let key : String = replay_key "admission" q.namespace_id q.nonce in
      let once : (record_key key q.expires_at_secs t a.replay).1 ≡ ok tt = ground arith in
      let kept : (admit env first q t a).0.replay
          ≡ (record_key key q.expires_at_secs t a.replay).0 =
        ground (arith, once) in
      let again : (record_key key q.expires_at_secs u b.replay).1 ≡ err "replayed request" =
        rw (since, kept)
          (recorded_refused key q.expires_at_secs t a.replay calls q.expires_at_secs u v.consistent
            once before few fresh) in
      ground (arith, again)
