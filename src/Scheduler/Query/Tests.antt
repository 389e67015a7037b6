-- ===== src/Scheduler/Query/Tests.antt =====
-- The theorems on the query manager at a small manager.
use podmesh.Scheduler.Query.Runs.{
  cleans, finishes, submits, begins, here, next, Reach-IsValid, Reach,
}
use podmesh.Prelude.{◌≡◌, refl, [], ◌∷◌, some, none, ok, arith, string_eq, nat_eq, list_eq}
use podmesh.Map.{get, insert, retain_entries, remove}
use podmesh.Protocol.Capacity.{EndpointRecord, CapacityOffer}
use podmesh.Scheduler.Offers.{CapacityCriteria, criteria_eq, normalized}
use podmesh.Scheduler.Query.{
  QueryState, QueryLimits, SchedulerIdentity, Fresh, begin, submit_offer, cleanup, finish,
  make_query, is_over,
}
use podmesh.Scheduler.Query.Valid.{IsValid}
use podmesh.Scheduler.Query.Steps.{begin-IsValid}
use podmesh.Scheduler.Query.Submission.{submit_offer-IsValid}
use podmesh.Scheduler.Query.Selection.{Handed, finish_lem}

abbrev endpoint : EndpointRecord
endpoint = record {
  version = 1;
  endpoint_id = 7 ∷ [];
  relay_url = none;
  direct_addresses = [];
  signing_pubkey = "agent";
  issued_at_secs = 90;
  expires_at_secs = 200;
  signature = "sig";
}

abbrev limits : QueryLimits
limits = record { max_pending_queries = 2; max_offers_per_query = 4; query_timeout_secs = 10 }

abbrev identity : SchedulerIdentity
identity = record {
  endpoint_record = λ now expiry. ok endpoint;
  signing_pubkey = "scheduler";
  sign_query = λ q now. ok "sig";
  verify_offer = λ o now. ok tt;
}

abbrev criteria : CapacityCriteria
criteria = record {
  cpu_milli = 100;
  memory_bytes = 200;
  storage_bytes = 300;
  required_capabilities = [];
  excluded_endpoint_ids = [];
}

abbrev fresh : Fresh
fresh = record { query_id = "query"; nonce = "nonce" }

abbrev idle : QueryState
idle = record { pending = []; equivalent = [] }

abbrev opened : QueryState
opened = (begin identity limits criteria 1 fresh 100 idle).0

abbrev offer : CapacityOffer
offer = record {
  version = 1;
  query_id = "query";
  agent_endpoint = endpoint;
  kem_pubkey = "kem";
  available_cpu_milli = 500;
  available_memory_bytes = 500;
  available_storage_bytes = 500;
  capabilities = [];
  issued_at_secs = 100;
  expires_at_secs = 110;
  signing_pubkey = "agent";
  signature = "sig";
}

abbrev answered : QueryState
answered = (submit_offer identity limits offer (7 ∷ []) 101 opened).0

idle-IsValid : IsValid limits idle
unfolding get
idle-IsValid = record {
  unique = tt;
  bounded = omega arith;
  indexed = λ id p e. absurd (ground arith);
  backed = λ c id e. absurd (ground arith);
  valid = λ id p e. absurd (ground arith);
}

opened-IsValid : IsValid limits opened
unfolding get
opened-IsValid =
    begin-IsValid identity limits criteria 1 fresh 100 idle (omega arith) refl idle-IsValid

answered-IsValid : IsValid limits answered
answered-IsValid = submit_offer-IsValid identity limits offer (7 ∷ []) 101 opened opened-IsValid

handed_out : (finish "query" 102 answered).1 ≡ some offer
unfolding finish get submit_offer retain_entries begin make_query insert is_over remove normalized
handed_out = refl

finish_lem_example : Handed "query" 102 answered offer
finish_lem_example = finish_lem limits "query" 102 answered offer answered-IsValid handed_out

-- A query begins, is answered, hands the offer out, and is over.
run : Reach identity limits idle (cleanup 120 (finish "query" 102 answered).0)
unfolding get
run =
    next
      (next (next (next here (begins criteria 1 fresh 100 refl)) (submits offer (7 ∷ []) 101))
        (finishes "query" 102))
      (cleans 120)

Reach-IsValid_example : IsValid limits (cleanup 120 (finish "query" 102 answered).0)
Reach-IsValid_example = Reach-IsValid identity limits (omega arith) run idle-IsValid
