-- ===== src/Scheduler/Query/Steps.antt =====
-- Opening and joining a query, collecting offers and handing them out keep the maps in agreement.
use podmesh.Prelude.{
  saturating_add, ℕ, ◌≤◌, ◌≡◌, none, string_eq, nat_eq, list_eq, arith, ok, Bool-cases,
  Option-cases, Result-cases, inl, inr, leb,
}
use podmesh.Map.{size, get}
use podmesh.Protocol.Capacity.{CapacityQuery}
use podmesh.Scheduler.Offers.{CapacityCriteria, criteria_eq, normalized}
use podmesh.Scheduler.Query.{
  QueryState, QueryLimits, SchedulerIdentity, Fresh, clamp, cleanup, in_flight, unsigned_query,
  open_query, make_query, begin_clean, begin,
}
use podmesh.Scheduler.Query.Valid.{cleanup_absent, IsValid, cleanup-IsValid}
use podmesh.Scheduler.Query.Submission.{in_flight_lem, join-IsValid, open_query-IsValid}

module _ (i : SchedulerIdentity) (l : QueryLimits) where
  make_query-named :
      (c : CapacityCriteria) (fresh : Fresh) (now : ℕ) (q : CapacityQuery)
      → make_query i l c fresh now ≡ ok q
      → q.query_id ≡ fresh.query_id
  unfolding make_query unsigned_query
  make_query-named c fresh now q h =
      let expires_at : ℕ = saturating_add now l.query_timeout_secs in
      elim (Result-cases (i.endpoint_record now expires_at)) [
        | inr (m, bad) ↦ absurd (ground arith)
        | inl (reply, good) ↦
            elim (Result-cases
              (i.sign_query (unsigned_query c fresh reply i.signing_pubkey now expires_at) now)) [
                | inr (m, bad) ↦ absurd (ground arith)
                | inl (signature, signed) ↦ ground arith
              ]
      ]

  nothing_found :
      (c : CapacityCriteria) (s : QueryState)
      → IsValid l s
      → in_flight (get s.equivalent c) s.pending ≡ none
      → get s.equivalent c ≡ none
  unfolding in_flight
  nothing_found c s h e = elim (Option-cases (get s.equivalent c)) [
    | inl free ↦ free
    | inr (id, found) ↦
        let (p, there, same) = h.backed c id found in absurd (ground (arith, there, found))
  ]

  begin_clean-IsValid :
      (c : CapacityCriteria) (target : ℕ) (fresh : Fresh) (now : ℕ) (s : QueryState)
      → 1 ≤ target
      → target ≤ l.max_offers_per_query
      → get s.pending fresh.query_id ≡ none
      → IsValid l s
      → IsValid l (begin_clean i l c target fresh now s).0
  unfolding begin_clean
  begin_clean-IsValid c target fresh now s pos small new h =
      elim (Option-cases (in_flight (get s.equivalent c) s.pending)) [
        | inr ((id, p), found) ↦
            rw (found, begin_clean)
              (join-IsValid i l target id p s pos (omega arith) (in_flight_lem i l c s id p found).0
                h)
        | inl nothing ↦ elim (Bool-cases (leb l.max_pending_queries (size s.pending))) [
          | inl full ↦ rw (nothing, begin_clean, full) h
          | inr room ↦ elim (Result-cases (make_query i l c fresh now)) [
            | inr (m, failed) ↦ rw (nothing, begin_clean, room, failed) (unfold open_query in h)
            | inl (q, made) ↦
                rw (nothing, begin_clean, room, made)
                  (open_query-IsValid i l c target s q pos small
                    (rw (make_query-named c fresh now q made) new) (nothing_found c s h nothing)
                    (ground arith) h)
          ]
        ]
      ]

  clamp_bounds :
      (n : ℕ)
      → 1 ≤ l.max_offers_per_query
      → (1 ≤ clamp 1 l.max_offers_per_query n)
        × (clamp 1 l.max_offers_per_query n ≤ l.max_offers_per_query)
  unfolding clamp
  clamp_bounds n room = (ground arith, ground arith)

  -- Where a query may collect an offer at all and the fresh identifier is not in use, `begin`
  -- keeps a valid manager valid, whether it joins a query, opens one, or fails.
  pub begin-IsValid :
      (c : CapacityCriteria) (target : ℕ) (fresh : Fresh) (now : ℕ) (s : QueryState)
      → 1 ≤ l.max_offers_per_query
      → get s.pending fresh.query_id ≡ none
      → IsValid l s
      → IsValid l (begin i l c target fresh now s).0
  unfolding begin
  begin-IsValid c target fresh now s room new h =
      let (pos, small) = clamp_bounds target room in
      begin_clean-IsValid (normalized c) (clamp 1 l.max_offers_per_query target) fresh now
        (cleanup now s) pos small (cleanup_absent l now s fresh.query_id new)
        (cleanup-IsValid l now s h)
