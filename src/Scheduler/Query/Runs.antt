-- ===== src/Scheduler/Query/Runs.antt =====
-- Runs of the query manager: its calls in any order, at any times.
use podmesh.Scheduler.Query.Valid.{IsValid}
use podmesh.Scheduler.Query.Valid.{cleanup-IsValid, abort-IsValid}
use podmesh.Protocol.Capacity.{CapacityOffer}
use podmesh.Scheduler.Query.Selection.{finish-IsValid}
use podmesh.Scheduler.Query.Submission.{submit_offer-IsValid}
use podmesh.Map.{get}
use podmesh.Scheduler.Query.Steps.{begin-IsValid}
use podmesh.Scheduler.Offers.{EndpointId, CapacityCriteria}
use podmesh.Prelude.{string_eq, ℕ, ◌≡◌, ◌≤◌, none, String}
use podmesh.Scheduler.Query.{
  cleanup, abort, submit_offer, CapacityOffer, get, Fresh, CapacityCriteria, QueryState,
  QueryLimits, SchedulerIdentity, finish, begin,
}

-- One call. The identifier of a new query is random, and is not that of a pending one.
pub data Step (i : SchedulerIdentity) (l : QueryLimits) (s : QueryState) : QueryState → Type 0 where
  begins :
      (c : CapacityCriteria) (target : ℕ) (fresh : Fresh) (now : ℕ)
      → get s.pending fresh.query_id ≡ none
      → Step i l s (begin i l c target fresh now s).0
  submits :
      (o : CapacityOffer) (e : EndpointId) (now : ℕ) → Step i l s (submit_offer i l o e now s).0
  finishes : (id : String) (now : ℕ) → Step i l s (finish id now s).0
  aborts : (id : String) → Step i l s (abort id s)
  cleans : (now : ℕ) → Step i l s (cleanup now s)

pub data Reach (i : SchedulerIdentity) (l : QueryLimits) (s : QueryState)
    : QueryState → Type 0 where
  here : Reach i l s s
  next : {t u : QueryState} → Reach i l s t → Step i l t u → Reach i l s u

module _ (i : SchedulerIdentity) (l : QueryLimits) (room : 1 ≤ l.max_offers_per_query) where
  Step-IsValid : {s t : QueryState} → Step i l s t → IsValid l s → IsValid l t
  Step-IsValid {s} (begins c target fresh now new) h =
      begin-IsValid i l c target fresh now s room new h
  Step-IsValid {s} (submits o e now) h = submit_offer-IsValid i l o e now s h
  Step-IsValid {s} (finishes id now) h = finish-IsValid l id now s h
  Step-IsValid {s} (aborts id) h = abort-IsValid l id s h
  Step-IsValid {s} (cleans now) h = cleanup-IsValid l now s h

  -- Where a query may collect an offer, any sequence of the manager's calls, each new query under
  -- an identifier that is not pending, keeps its two maps valid, if they were so at first: at most
  -- as many pending queries as allowed, each found under its criteria, no others found, and each
  -- with at most as many offers as allowed, one for each agent, of which each suits the criteria.
  pub Reach-IsValid : {s t : QueryState} → Reach i l s t → IsValid l s → IsValid l t
  Reach-IsValid here h = h
  Reach-IsValid (next r p) h = Step-IsValid p (Reach-IsValid r h)
