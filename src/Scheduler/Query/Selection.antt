-- ===== src/Scheduler/Query/Selection.antt =====
-- Which offer is handed out when a query is finished.
use podmesh.Prelude.{
  ℕ, ◌≤◌, ◌≡◌, refl, subst, String, true, false, some, List, [], ◌∷◌, eq_lem, string_eq, nat_eq,
  list_eq, arith, Option-cases, inl, inr, elem,
}
use podmesh.Map.{Map, get, retain_entries, UniqueKeys}
use podmesh.Map.Laws.{get-insert, get_from_retained, retain_entries-UniqueKeys}
use podmesh.Protocol.Capacity.{CapacityOffer}
use podmesh.Scheduler.Offers.{EndpointId, CapacityCriteria}
use podmesh.Scheduler.Query.{
  PendingQuery, QueryState, QueryLimits, best, is_selectable, select, finish,
}
use podmesh.Scheduler.Query.Valid.{Suits, PendingIsValid, IsValid, replace-IsValid}

-- What is best is there, and nothing is better than a map without an entry.
best-get :
    (c : CapacityCriteria) (m : Map EndpointId CapacityOffer) (e : EndpointId) (o : CapacityOffer)
    → UniqueKeys m
    → best c m ≡ some (e, o)
    → get m e ≡ some o
unfolding best get
best-get c [] e o u h = absurd (cc)
best-get c ((f, p) ∷ m) e o u h = elim (Option-cases (best c m)) [
  | inl last ↦ ground (arith, eq_lem f e)
  | inr ((g, q), rest) ↦ ground (arith, best-get c m g q u.1 rest, eq_lem f e, u.0)
]

retained_test :
    (now : ℕ) (old : List EndpointId) (m : Map EndpointId CapacityOffer) (e : EndpointId)
    (o : CapacityOffer)
    → get (retain_entries (is_selectable now old) m) e ≡ some o
    → is_selectable now old e o ≡ true
unfolding get retain_entries
retained_test now old [] e o h = absurd (cc)
retained_test now old ((f, p) ∷ m) e o h = ground (arith, retained_test now old m e o, eq_lem f e)

-- What one answer of `finish` has shown.
pub record Handed (id : String) (now : ℕ) (s : QueryState) (o : CapacityOffer) : Type 0 where
  pub query : PendingQuery
  pub agent : EndpointId
  pub found : get s.pending id ≡ some query
  pub offered : get query.offers agent ≡ some o
  pub suits : Suits query.criteria agent o
  pub alive : now ≤ o.expires_at_secs
  pub first_time : elem agent query.selected ≡ false
  pub noted :
      get (finish id now s).0.pending id ≡ some (record query { selected = agent ∷ query.selected })

module _ (l : QueryLimits) where
  -- Handing out an offer, or none, keeps a valid manager valid.
  pub finish-IsValid :
      (id : String) (now : ℕ) (s : QueryState) → IsValid l s → IsValid l (finish id now s).0
  unfolding finish
  finish-IsValid id now s h = elim (Option-cases (get s.pending id)) [
    | inl missing ↦ rw (missing, finish) h
    | inr (p, found) ↦
        elim (Option-cases
          (best p.criteria (retain_entries (is_selectable now p.selected) p.offers))) [
            | inl nothing ↦ rw (found, finish, nothing) (unfold select in h)
            | inr ((e, o), chosen) ↦
                let v : PendingIsValid l id p = h.valid id p found in
                rw (found, finish, chosen, select)
                  (replace-IsValid l id p (record p { selected = e ∷ p.selected }) s found refl
                    (record {
                      named = v.named;
                      unique = v.unique;
                      bounded = v.bounded;
                      some_target = v.some_target;
                      target_bounded = v.target_bounded;
                      suited = v.suited;
                    })
                    h)
          ]
  ]

  -- An offer that a valid manager hands out for a query stands among the query's offers under the
  -- agent that it names; it has what the query asks for from an agent that is not excluded, and
  -- has not expired; its agent was not selected before, and is noted as selected.
  pub finish_lem :
      (id : String) (now : ℕ) (s : QueryState) (o : CapacityOffer)
      → IsValid l s
      → (finish id now s).1 ≡ some o
      → Handed id now s o
  unfolding finish
  finish_lem id now s o h e = elim (Option-cases (get s.pending id)) [
    | inl missing ↦ absurd (ground arith)
    | inr (p, found) ↦
        elim (Option-cases
          (best p.criteria (retain_entries (is_selectable now p.selected) p.offers))) [
            | inl nothing ↦ absurd (unfold select in ground arith)
            | inr ((agent, x), chosen) ↦
                let v : PendingIsValid l id p = h.valid id p found in
                let offers : Map EndpointId CapacityOffer =
                  retain_entries (is_selectable now p.selected) p.offers in
                let kept : get offers agent ≡ some x =
                  best-get p.criteria offers agent x
                    (retain_entries-UniqueKeys (is_selectable now p.selected) p.offers v.unique)
                    chosen in
                let there : get p.offers agent ≡ some x =
                  get_from_retained (is_selectable now p.selected) p.offers agent x kept v.unique in
                let test : is_selectable now p.selected agent x ≡ true =
                  retained_test now p.selected p.offers agent x kept in
                let this : x ≡ o = unfold select in ground (arith, there) in
                subst (λ (z : CapacityOffer). Handed id now s z) this
                  (record {
                    query = p;
                    agent = agent;
                    found = found;
                    offered = there;
                    suits = v.suited agent x there;
                    alive = unfold is_selectable in ground (arith, test);
                    first_time = unfold is_selectable in ground (arith, test);
                    noted =
                        rw (found, finish, chosen, select)
                          (ground (
                            arith,
                            get-insert s.pending id id (record p { selected = agent ∷ p.selected }),
                            eq_lem id id,
                          ));
                  })
          ]
  ]
