-- ===== src/Scheduler/Query.antt =====
-- The pending capacity queries of a scheduler (`QueryManager` of
-- podmesh-scheduler/src/machine/query.rs). The mutex makes each call one step; metrics are left out.
pub mod Valid
pub mod Submission
pub mod Steps
pub mod Selection
pub mod Runs
pub mod Tests
use podmesh.Prelude.{
  ℕ, ◌+◌, ◌≡◌, String, Bool, true, false, not, ◌&&◌, Option, none, some, List, [], ◌∷◌, ◌==◌,
  string_eq, nat_eq, list_eq, if◌then◌else◌, leb, ltb, min, all, elem, saturating_add, Result, ok,
  err, ensure, context, ◌>>=◌, ◌>>◌,
}
use podmesh.Map.{Map, size, get, contains_key, insert, remove, retain_entries}
use podmesh.Protocol.Capacity.{
  CapacityQuery, CapacityOffer, EndpointRecord, capacity_protocol_version,
}
use podmesh.Scheduler.Offers.{EndpointId, CapacityCriteria, criteria_eq, normalized, fits_no_worse}

-- `offer_count` is the number that the watch channel was last sent.
pub record PendingQuery : Type 0 where
  pub criteria : CapacityCriteria
  pub query : CapacityQuery
  pub offers : Map EndpointId CapacityOffer
  pub selected : List EndpointId
  pub target_offers : ℕ
  pub offer_count : ℕ

pub record QueryState : Type 0 where
  pub pending : Map String PendingQuery
  pub equivalent : Map CapacityCriteria String

pub record QueryLimits : Type 0 where
  pub max_pending_queries : ℕ
  pub max_offers_per_query : ℕ
  pub query_timeout_secs : ℕ

pub record BegunQuery : Type 0 where
  pub query : CapacityQuery
  pub newly_created : Bool
  pub target_offers : ℕ

-- The scheduler's own endpoint record and its signature over a query, each of which may fail; and
-- the check of an offer's validity and signature.
pub record SchedulerIdentity : Type 0 where
  pub endpoint_record : ℕ → ℕ → Result EndpointRecord
  pub signing_pubkey : String
  pub sign_query : CapacityQuery → ℕ → Result String
  pub verify_offer : CapacityOffer → ℕ → Result (Unit {0})

-- The identifiers that `uuid` makes.
pub record Fresh : Type 0 where
  pub query_id : String
  pub nonce : String

clamp : ℕ → ℕ → ℕ → ℕ
clamp lo hi n = if ltb n lo then lo else if ltb hi n then hi else n

-- A query leaves both maps.
pub drop_query : String → CapacityCriteria → QueryState → QueryState
drop_query query_id criteria s = record {
  pending = remove s.pending query_id;
  equivalent = remove s.equivalent criteria;
}

pub is_over : ℕ → String → PendingQuery → Bool
is_over now query_id p = ltb (saturating_add p.query.expires_at_secs 1) now

pub drop_all : Map String PendingQuery → QueryState → QueryState
drop_all [] s = s
drop_all ((query_id, p) ∷ expired) s = drop_all expired (drop_query query_id p.criteria s)

pub cleanup : ℕ → QueryState → QueryState
unfolding drop_all
cleanup now s = drop_all (retain_entries (is_over now) s.pending) s

abort_found : String → QueryState → Option PendingQuery → QueryState
abort_found query_id s none = s
abort_found query_id s (some p) = drop_query query_id p.criteria s

pub abort : String → QueryState → QueryState
unfolding abort_found
abort query_id s = abort_found query_id s (get s.pending query_id)

-- The query in flight for the same criteria.
pub in_flight : Option String → Map String PendingQuery → Option (String × PendingQuery)
in_flight none pending = none
in_flight (some query_id) pending = elim (get pending query_id) [
  | none ↦ none
  | some p ↦ some (query_id, p)
]

joined : ℕ → ℕ → PendingQuery → PendingQuery
joined limit target p = record p {
  target_offers = min (saturating_add p.target_offers target) limit;
}

pub join : QueryLimits → ℕ → String → PendingQuery → QueryState → QueryState × Result BegunQuery
unfolding joined
join l target query_id p s =
    let q = joined l.max_offers_per_query target p in
    (
      record s { pending = insert s.pending query_id q },
      ok (record { query = q.query; newly_created = false; target_offers = q.target_offers }),
    )

unsigned_query : CapacityCriteria → Fresh → EndpointRecord → String → ℕ → ℕ → CapacityQuery
unsigned_query c fresh reply signing_pubkey now expires_at = record {
  version = capacity_protocol_version;
  query_id = fresh.query_id;
  nonce = fresh.nonce;
  cpu_milli = c.cpu_milli;
  memory_bytes = c.memory_bytes;
  storage_bytes = c.storage_bytes;
  required_capabilities = c.required_capabilities;
  excluded_endpoint_ids = c.excluded_endpoint_ids;
  reply_endpoint = reply;
  issued_at_secs = now;
  expires_at_secs = expires_at;
  signing_pubkey = signing_pubkey;
  signature = "";
}

pub open_query :
    CapacityCriteria → ℕ → QueryState → Result CapacityQuery → QueryState × Result BegunQuery
open_query c target s (err e) = (s, err e)
open_query c target s (ok q) = (
  record {
    pending = insert s.pending q.query_id (record {
      criteria = c;
      query = q;
      offers = [];
      selected = [];
      target_offers = target;
      offer_count = 0;
    });
    equivalent = insert s.equivalent c q.query_id;
  },
  ok (record { query = q; newly_created = true; target_offers = target }),
)

module _ (i : SchedulerIdentity) (l : QueryLimits) where
  make_query : CapacityCriteria → Fresh → ℕ → Result CapacityQuery
  unfolding unsigned_query
  make_query c fresh now = do
    let expires_at = saturating_add now l.query_timeout_secs
    reply ← i.endpoint_record now expires_at
    let q = unsigned_query c fresh reply i.signing_pubkey now expires_at
    signature ← i.sign_query q now
    ok (record q { signature = signature })

  begin_clean : CapacityCriteria → ℕ → Fresh → ℕ → QueryState → QueryState × Result BegunQuery
  unfolding join open_query in_flight
  begin_clean c target fresh now s = elim (in_flight (get s.equivalent c) s.pending) [
    | some (query_id, p) ↦ join l target query_id p s
    | none ↦
        if leb l.max_pending_queries (size s.pending)
        then (s, err "scheduler pending-query limit reached")
        else open_query c target s (make_query c fresh now)
  ]

  pub begin : CapacityCriteria → ℕ → Fresh → ℕ → QueryState → QueryState × Result BegunQuery
  unfolding begin_clean clamp cleanup
  begin criteria target_offers fresh now s =
      begin_clean (normalized criteria) (clamp 1 l.max_offers_per_query target_offers) fresh now
        (cleanup now s)

  -- The tests of an offer against its query.
  check_offer : CapacityOffer → EndpointId → ℕ → PendingQuery → Result (Unit {0})
  check_offer o endpoint now p = do
    ensure (leb now p.query.expires_at_secs) "capacity offer arrived after query deadline"
    ensure (not (elem endpoint p.criteria.excluded_endpoint_ids))
        "capacity offer came from an excluded agent"
    ensure
        (leb p.criteria.cpu_milli o.available_cpu_milli
          && leb p.criteria.memory_bytes o.available_memory_bytes
          && leb p.criteria.storage_bytes o.available_storage_bytes)
        "capacity offer does not satisfy requested resources"
    ensure (all (λ required. elem required o.capabilities) p.criteria.required_capabilities)
        "capacity offer does not satisfy required capabilities"

  keep_offer : CapacityOffer → EndpointId → PendingQuery → QueryState → QueryState × Result Bool
  keep_offer o endpoint p s =
      if contains_key p.offers endpoint
      then (s, ok false)
      else if leb l.max_offers_per_query (size p.offers)
      then (s, err "capacity offer limit reached for query")
      else (
        record s {
          pending = insert s.pending o.query_id (record p {
            offers = insert p.offers endpoint o;
            offer_count = size (insert p.offers endpoint o);
          });
        },
        ok true,
      )

  submit_clean : CapacityOffer → EndpointId → ℕ → QueryState → QueryState × Result Bool
  unfolding check_offer keep_offer
  submit_clean o endpoint now s = elim (get s.pending o.query_id) [
    | none ↦ (s, err "capacity offer names no active query")
    | some p ↦ elim (check_offer o endpoint now p) [
      | err e ↦ (s, err e)
      | ok _ ↦ keep_offer o endpoint p s
    ]
  ]

  check_sender : CapacityOffer → EndpointId → ℕ → Result (Unit {0})
  check_sender o endpoint now = do
    i.verify_offer o now
    ensure (o.agent_endpoint.endpoint_id == endpoint)
        "capacity offer EndpointId does not match authenticated sender"

  pub submit_offer : CapacityOffer → EndpointId → ℕ → QueryState → QueryState × Result Bool
  unfolding check_sender submit_clean cleanup
  submit_offer o endpoint now s = elim (check_sender o endpoint now) [
    | err e ↦ (s, err e)
    | ok _ ↦ submit_clean o endpoint now (cleanup now s)
  ]

-- `min_by`, which keeps the first of equal ones.
best : CapacityCriteria → Map EndpointId CapacityOffer → Option (EndpointId × CapacityOffer)
best c [] = none
best c ((e, o) ∷ m) = elim (best c m) [
  | none ↦ some (e, o)
  | some (f, p) ↦ if fits_no_worse c o p then some (e, o) else some (f, p)
]

-- An offer that has not expired and was not handed out before.
is_selectable : ℕ → List EndpointId → EndpointId → CapacityOffer → Bool
is_selectable now selected e o = leb now o.expires_at_secs && not (elem e selected)

select :
    String
    → PendingQuery
    → QueryState
    → Option (EndpointId × CapacityOffer)
    → QueryState × Option CapacityOffer
select query_id p s none = (s, none)
select query_id p s (some (e, o)) = (
  record s { pending = insert s.pending query_id (record p { selected = e ∷ p.selected }) },
  get p.offers e,
)

pub finish : String → ℕ → QueryState → QueryState × Option CapacityOffer
unfolding best is_selectable select
finish query_id now s = elim (get s.pending query_id) [
  | none ↦ (s, none)
  | some p ↦
      select query_id p s (best p.criteria (retain_entries (is_selectable now p.selected) p.offers))
]
