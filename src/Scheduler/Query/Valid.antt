-- ===== src/Scheduler/Query/Valid.antt =====
-- The two maps of the query manager agree, and no bound is passed, whatever is called.
use podmesh.Prelude.{
  true, ℕ, ◌≤◌, ◌≡◌, subst, ◌∙◌, String, false, none, some, [], ◌∷◌, ◌==◌, eq_lem, string_eq,
  nat_eq, list_eq, arith, Bool-cases, Option-cases, inl, inr, elem,
}
use podmesh.Map.{Map, size, get, insert, retain_entries, UniqueKeys}
use podmesh.Map.Laws.{
  get-insert, get-remove, remove-UniqueKeys, insert-UniqueKeys, retain_entries-UniqueKeys,
  get_from_retained,
}
use podmesh.Map.Totals.{size-insert_old, size-remove-le}
use podmesh.Protocol.Capacity.{CapacityOffer}
use podmesh.Scheduler.Offers.{EndpointId, CapacityCriteria, criteria_eq}
use podmesh.Scheduler.Query.{
  PendingQuery, QueryState, QueryLimits, drop_query, is_over, drop_all, cleanup, abort_found, abort,
}

-- An offer that a query may hand out.
pub record Suits (c : CapacityCriteria) (e : EndpointId) (o : CapacityOffer) : Type 0 where
  pub sender : o.agent_endpoint.endpoint_id ≡ e
  pub admitted : elem e c.excluded_endpoint_ids ≡ false
  pub cpu : c.cpu_milli ≤ o.available_cpu_milli
  pub memory : c.memory_bytes ≤ o.available_memory_bytes
  pub storage : c.storage_bytes ≤ o.available_storage_bytes
  pub capable :
      (name : String) → elem name c.required_capabilities ≡ true → elem name o.capabilities ≡ true

pub record PendingIsValid (l : QueryLimits) (query_id : String) (p : PendingQuery) : Type 0 where
  pub named : p.query.query_id ≡ query_id
  pub unique : UniqueKeys p.offers
  pub bounded : size p.offers ≤ l.max_offers_per_query
  pub some_target : 1 ≤ p.target_offers
  pub target_bounded : p.target_offers ≤ l.max_offers_per_query
  pub suited : (e : EndpointId) (o : CapacityOffer) → get p.offers e ≡ some o → Suits p.criteria e o

-- Every pending query is found by its criteria, so no two have the same; and nothing else is found.
pub record IsValid (l : QueryLimits) (s : QueryState) : Type 0 where
  pub unique : UniqueKeys s.pending
  pub bounded : size s.pending ≤ l.max_pending_queries
  pub indexed :
      (id : String) (p : PendingQuery)
      → get s.pending id ≡ some p
      → get s.equivalent p.criteria ≡ some id
  pub backed :
      (c : CapacityCriteria) (id : String)
      → get s.equivalent c ≡ some id
      → (p : PendingQuery) × (get s.pending id ≡ some p) × (p.criteria ≡ c)
  pub valid : (id : String) (p : PendingQuery) → get s.pending id ≡ some p → PendingIsValid l id p

module _ (l : QueryLimits) where
  -- A query that is dropped with the criteria under which it is found.
  drop_query-IsValid :
      (id : String) (p : PendingQuery) (s : QueryState)
      → get s.pending id ≡ some p
      → IsValid l s
      → IsValid l (drop_query id p.criteria s)
  unfolding drop_query
  drop_query-IsValid id p s e h = record {
    unique = remove-UniqueKeys s.pending id h.unique;
    bounded = omega (arith, h.bounded, size-remove-le s.pending id);
    indexed = λ j q found.
        let kept : get s.pending j ≡ some q = ground (arith, get-remove s.pending id j) in
        ground (
          arith,
          kept,
          h.indexed j q kept,
          h.indexed id p e,
          get-remove s.pending id j,
          get-remove s.equivalent p.criteria q.criteria,
          eq_lem p.criteria q.criteria,
          eq_lem id j,
        );
    backed = λ c j found.
        let kept : get s.equivalent c ≡ some j =
          ground (arith, get-remove s.equivalent p.criteria c) in
        let (q, there, same) = h.backed c j kept in
        (
          q,
          ground (
            arith,
            there,
            same,
            e,
            get-remove s.pending id j,
            get-remove s.equivalent p.criteria c,
            eq_lem id j,
            eq_lem p.criteria c,
          ),
          same,
        );
    valid = λ j q found. h.valid j q (ground (arith, get-remove s.pending id j));
  }

  -- The expired queries that are dropped are distinct ones that are pending.
  drop_all-IsValid :
      (m : Map String PendingQuery) (s : QueryState)
      → UniqueKeys m
      → ((id : String) (p : PendingQuery) → get m id ≡ some p → get s.pending id ≡ some p)
      → IsValid l s
      → IsValid l (drop_all m s)
  unfolding drop_all drop_query get
  drop_all-IsValid [] s u listed h = h
  drop_all-IsValid ((id, p) ∷ m) s u listed h =
      drop_all-IsValid m (drop_query id p.criteria s) u.1
        (λ j q found.
          ground (arith, found, u.0, listed j q, get-remove s.pending id j, eq_lem id j))
        (drop_query-IsValid id p s (listed id p (ground (arith, eq_lem id id))) h)

  -- Dropping the expired queries keeps a valid manager valid.
  pub cleanup-IsValid : (now : ℕ) (s : QueryState) → IsValid l s → IsValid l (cleanup now s)
  unfolding cleanup
  cleanup-IsValid now s h =
      drop_all-IsValid (retain_entries (is_over now) s.pending) s
        (retain_entries-UniqueKeys (is_over now) s.pending h.unique)
        (λ id p found. get_from_retained (is_over now) s.pending id p found h.unique) h

  drop_all_absent :
      (m : Map String PendingQuery) (s : QueryState) (id : String)
      → get s.pending id ≡ none
      → get (drop_all m s).pending id ≡ none
  unfolding drop_all drop_query
  drop_all_absent [] s id h = h
  drop_all_absent ((j, p) ∷ m) s id h =
      drop_all_absent m (drop_query j p.criteria s) id
        (ground (arith, h, get-remove s.pending j id))

  pub cleanup_absent :
      (now : ℕ) (s : QueryState) (id : String)
      → get s.pending id ≡ none
      → get (cleanup now s).pending id ≡ none
  unfolding cleanup
  cleanup_absent now s id h = drop_all_absent (retain_entries (is_over now) s.pending) s id h

  -- Dropping a query, pending or not, keeps a valid manager valid.
  pub abort-IsValid : (id : String) (s : QueryState) → IsValid l s → IsValid l (abort id s)
  unfolding abort abort_found
  abort-IsValid id s h = elim (Option-cases (get s.pending id)) [
    | inl missing ↦ rw (missing, abort_found) h
    | inr (p, e) ↦ rw (e, abort_found) (drop_query-IsValid id p s e h)
  ]

  -- A pending query is written again under the same criteria.
  pub replace-IsValid :
      (id : String) (p q : PendingQuery) (s : QueryState)
      → get s.pending id ≡ some p
      → q.criteria ≡ p.criteria
      → PendingIsValid l id q
      → IsValid l s
      → IsValid l (record s { pending = insert s.pending id q })
  replace-IsValid id p q s e same v h = record {
    unique = insert-UniqueKeys s.pending id q h.unique;
    bounded = omega (arith, h.bounded, size-insert_old s.pending id p q h.unique e);
    indexed = λ j r found. elim (Bool-cases (id == j)) [
      | inl hit ↦
          ground (arith, found, same, h.indexed id p e, get-insert s.pending id j q, eq_lem id j)
      | inr miss ↦ h.indexed j r (ground (arith, get-insert s.pending id j q))
    ];
    backed = λ c j found.
        let (r, there, this) = h.backed c j found in
        elim (Bool-cases (id == j)) [
          | inl hit ↦ (
            q,
            ground (arith, get-insert s.pending id j q),
            same ∙ ground (arith, there, this, e, eq_lem id j),
          )
          | inr miss ↦ (r, ground (arith, there, get-insert s.pending id j q), this)
        ];
    valid = λ j r found. elim (Bool-cases (id == j)) [
      | inl hit ↦
          subst (λ (z : PendingQuery). PendingIsValid l j z)
            (ground (arith, get-insert s.pending id j q))
            (subst (λ (z : String). PendingIsValid l z q) ((eq_lem id j).0 hit) v)
      | inr miss ↦ h.valid j r (ground (arith, get-insert s.pending id j q))
    ];
  }
