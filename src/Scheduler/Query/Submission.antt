-- ===== src/Scheduler/Query/Submission.antt =====
-- Submitted offers, joined queries and opened ones keep the maps in agreement.
use podmesh.Prelude.{
  elem, all-elem, ℕ, ◌≤◌, ◌<◌, ◌≡◌, refl, ap, subst, String, none, some, [], ◌==◌, eq_lem,
  string_eq, nat_eq, list_eq, arith, ok, Bool-cases, Option-cases, Result-cases, inl, inr, leb,
}
use podmesh.Map.{size, get, contains_key}
use podmesh.Map.Laws.{get-insert, insert-UniqueKeys}
use podmesh.Map.Totals.{size-insert-le}
use podmesh.Protocol.Capacity.{CapacityQuery, CapacityOffer}
use podmesh.Scheduler.Offers.{EndpointId, CapacityCriteria, criteria_eq}
use podmesh.Scheduler.Query.{
  PendingQuery, QueryState, QueryLimits, SchedulerIdentity, cleanup, in_flight, joined, join,
  open_query, check_offer, keep_offer, submit_clean, check_sender, submit_offer,
}
use podmesh.Scheduler.Query.Valid.{Suits, PendingIsValid, IsValid, cleanup-IsValid, replace-IsValid}

module _ (i : SchedulerIdentity) (l : QueryLimits) where
  -- What is found by its criteria is pending under them.
  pub in_flight_lem :
      (c : CapacityCriteria) (s : QueryState) (id : String) (p : PendingQuery)
      → in_flight (get s.equivalent c) s.pending ≡ some (id, p)
      → (get s.pending id ≡ some p) × (get s.equivalent c ≡ some id)
  unfolding in_flight
  in_flight_lem c s id p h = elim (Option-cases (get s.equivalent c)) [
    | inl nothing ↦ absurd (ground arith)
    | inr (j, found) ↦ elim (Option-cases (get s.pending j)) [
      | inl missing ↦ absurd (ground arith)
      | inr (q, there) ↦ (ground arith, ground arith)
    ]
  ]

  pub join-IsValid :
      (target : ℕ) (id : String) (p : PendingQuery) (s : QueryState)
      → 1 ≤ target
      → 1 ≤ l.max_offers_per_query
      → get s.pending id ≡ some p
      → IsValid l s
      → IsValid l (join l target id p s).0
  unfolding join joined
  join-IsValid target id p s pos room e h =
      let v : PendingIsValid l id p = h.valid id p e in
      replace-IsValid l id p (joined l.max_offers_per_query target p) s e refl
        (record {
          named = v.named;
          unique = v.unique;
          bounded = v.bounded;
          some_target = omega (arith, v.some_target);
          target_bounded = omega arith;
          suited = v.suited;
        })
        h

  -- A query of its own name is opened under criteria that no pending query has.
  pub open_query-IsValid :
      (c : CapacityCriteria) (target : ℕ) (s : QueryState) (q : CapacityQuery)
      → 1 ≤ target
      → target ≤ l.max_offers_per_query
      → get s.pending q.query_id ≡ none
      → get s.equivalent c ≡ none
      → size s.pending < l.max_pending_queries
      → IsValid l s
      → IsValid l (open_query c target s (ok q)).0
  unfolding open_query
  open_query-IsValid c target s q pos small new free room h = record {
    unique = insert-UniqueKeys s.pending q.query_id opened h.unique;
    bounded = omega (arith, room, size-insert-le s.pending q.query_id opened);
    indexed = λ j r found. elim (Bool-cases (q.query_id == j)) [
      | inl hit ↦
          let this : opened ≡ r = ground (arith, get-insert s.pending q.query_id j opened) in
          ground (
            arith,
            ap (λ (z : PendingQuery). z.criteria) this,
            get-insert s.equivalent c r.criteria q.query_id,
            eq_lem c r.criteria,
            eq_lem q.query_id j,
          )
      | inr miss ↦
          let kept : get s.pending j ≡ some r =
            ground (arith, get-insert s.pending q.query_id j opened) in
          ground (
            arith,
            h.indexed j r kept,
            get-insert s.equivalent c r.criteria q.query_id,
            eq_lem c r.criteria,
          )
    ];
    backed = λ d j found. elim (Bool-cases (c == d)) [
      | inl hit ↦ (
        opened,
        ground (
          arith,
          get-insert s.equivalent c d q.query_id,
          get-insert s.pending q.query_id j opened,
          eq_lem q.query_id j,
        ),
        (eq_lem c d).0 hit,
      )
      | inr miss ↦
          let (p, there, same) =
            h.backed d j (ground (arith, get-insert s.equivalent c d q.query_id)) in
          (
            p,
            ground (arith, there, get-insert s.pending q.query_id j opened, eq_lem q.query_id j),
            same,
          )
    ];
    valid = λ j r found. elim (Bool-cases (q.query_id == j)) [
      | inl hit ↦
          subst (λ (z : PendingQuery). PendingIsValid l j z)
            (ground (arith, get-insert s.pending q.query_id j opened))
            (subst (λ (z : String). PendingIsValid l z opened) ((eq_lem q.query_id j).0 hit)
              opened-IsValid)
      | inr miss ↦ h.valid j r (ground (arith, get-insert s.pending q.query_id j opened))
    ];
  }
    where
      opened : PendingQuery
      opened = record {
        criteria = c;
        query = q;
        offers = [];
        selected = [];
        target_offers = target;
        offer_count = 0;
      }

      opened-IsValid : PendingIsValid l q.query_id opened
      opened-IsValid = record {
        named = refl;
        unique = tt;
        bounded = omega arith;
        some_target = pos;
        target_bounded = small;
        suited = λ e o has. absurd (unfold get in ground arith);
      }

  keep_offer-IsValid :
      (o : CapacityOffer) (e : EndpointId) (p : PendingQuery) (s : QueryState)
      → get s.pending o.query_id ≡ some p
      → Suits p.criteria e o
      → IsValid l s
      → IsValid l (keep_offer i l o e p s).0
  unfolding keep_offer
  keep_offer-IsValid o e p s found suits h = elim (Bool-cases (contains_key p.offers e)) [
    | inl known ↦ rw (known, keep_offer) h
    | inr new ↦ elim (Bool-cases (leb l.max_offers_per_query (size p.offers))) [
      | inl full ↦ rw (new, keep_offer, full) h
      | inr room ↦
          let v : PendingIsValid l o.query_id p = h.valid o.query_id p found in
          rw (new, keep_offer, room)
            (replace-IsValid l o.query_id p _ s found refl
              (record {
                named = v.named;
                unique = insert-UniqueKeys p.offers e o v.unique;
                bounded = ground (arith, room, size-insert-le p.offers e o);
                some_target = v.some_target;
                target_bounded = v.target_bounded;
                suited = λ f x has. elim (Bool-cases (e == f)) [
                  | inl hit ↦
                      subst (λ (z : CapacityOffer). Suits p.criteria f z)
                        (ground (arith, get-insert p.offers e f o))
                        (subst (λ (z : EndpointId). Suits p.criteria z o) ((eq_lem e f).0 hit)
                          suits)
                  | inr miss ↦ v.suited f x (ground (arith, get-insert p.offers e f o))
                ];
              })
              h)
    ]
  ]

  check_offer-Suits :
      (o : CapacityOffer) (e : EndpointId) (now : ℕ) (p : PendingQuery)
      → check_sender i l o e now ≡ ok tt
      → check_offer i l o e now p ≡ ok tt
      → Suits p.criteria e o
  unfolding check_sender check_offer
  check_offer-Suits o e now p sender checked = record {
    sender = ground (arith, eq_lem o.agent_endpoint.endpoint_id e);
    admitted = ground arith;
    cpu = ground arith;
    memory = ground arith;
    storage = ground arith;
    capable = λ name asked.
        all-elem (λ (required : String). elem required o.capabilities)
          p.criteria.required_capabilities name (ground arith) asked;
  }

  submit_clean-IsValid :
      (o : CapacityOffer) (e : EndpointId) (now : ℕ) (s : QueryState)
      → check_sender i l o e now ≡ ok tt
      → IsValid l s
      → IsValid l (submit_clean i l o e now s).0
  unfolding submit_clean
  submit_clean-IsValid o e now s sender h = elim (Option-cases (get s.pending o.query_id)) [
    | inl missing ↦ rw (missing, submit_clean) h
    | inr (p, found) ↦ elim (Result-cases (check_offer i l o e now p)) [
      | inr (m, refused) ↦ rw (found, submit_clean, refused) h
      | inl (_, passed) ↦
          rw (found, submit_clean, passed)
            (keep_offer-IsValid o e p s found (check_offer-Suits o e now p sender passed) h)
    ]
  ]

  -- An offer, accepted or refused, keeps a valid manager valid.
  pub submit_offer-IsValid :
      (o : CapacityOffer) (e : EndpointId) (now : ℕ) (s : QueryState)
      → IsValid l s
      → IsValid l (submit_offer i l o e now s).0
  unfolding submit_offer
  submit_offer-IsValid o e now s h = elim (Result-cases (check_sender i l o e now)) [
    | inr (m, refused) ↦ rw (refused, submit_offer) h
    | inl (_, passed) ↦
        rw (passed, submit_offer)
          (submit_clean-IsValid o e now (cleanup now s) passed (cleanup-IsValid l now s h))
  ]
