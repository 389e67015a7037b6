-- ===== src/Agent/Deploy/Local.antt =====
-- What one request does to the records of its workload, and that it does nothing to any other.
use podmesh.Map.Laws.{get-remove, get-insert}
use podmesh.Map.{remove, insert, contains_key, get}
use podmesh.Agent.Deploy.{put, forget, Service}
use podmesh.Agent.State.{StoredWorkload}
use podmesh.Prelude.{
  refl, eq_lem, none, true, string_eq, some, Bool, ◌≡◌, ◌∙◌, Option, String, arith, ◌≢◌,
}

-- A workload that the agent holds stands under its own identifier and, where `durable` asks for
-- it, has a durable record.
abbrev pub Kept : Bool → String → Option StoredWorkload → Bool → Type 0
Kept durable id none recorded = Unit {0}
Kept durable id (some w) recorded = (w.grant.workload_id ≡ id) × (durable ≡ true → recorded ≡ true)

abbrev pub KeptAt : Bool → String → Service → Type 0
KeptAt durable id s = Kept durable id (get s.state.active id) (contains_key s.store id)

pub record Touches (durable : Bool) (id : String) (s t : Service) : Type 0 where
  pub workloads : (j : String) → j ≢ id → get t.state.active j ≡ get s.state.active j
  pub records : (j : String) → j ≢ id → contains_key t.store j ≡ contains_key s.store j
  pub here : KeptAt durable id t

pub Touches-trans :
    {d : Bool} {id : String} {s t u : Service}
    → Touches d id s t
    → Touches d id t u
    → Touches d id s u
Touches-trans a b = record {
  workloads = λ j other. b.workloads j other ∙ a.workloads j other;
  records = λ j other. b.records j other ∙ a.records j other;
  here = b.here;
}

pub stay-Touches : {d : Bool} (id : String) (s : Service) → KeptAt d id s → Touches d id s s
stay-Touches id s h = record { workloads = λ j other. refl; records = λ j other. refl; here = h }

-- A record is written to the state and to the store.
pub write-Touches :
    {d : Bool} (id : String) (v : StoredWorkload) (s : Service)
    → v.grant.workload_id ≡ id
    → Touches d id s (record s {
      state = record s.state { active = insert s.state.active id v };
      store = insert s.store v.grant.workload_id v;
    })
write-Touches id v s named = record {
  workloads = λ j other. ground (arith, get-insert s.state.active id j v, eq_lem id j);
  records = λ j other.
      ground (arith, get-insert s.store v.grant.workload_id j v, eq_lem v.grant.workload_id j);
  here =
      rw
        (
          get-insert s.state.active id id v,
          get-insert s.store v.grant.workload_id id v,
          (eq_lem v.grant.workload_id id).1 named,
          (eq_lem id id).1 refl,
        )
        (named, λ asked. refl);
}

pub put-Touches :
    {d : Bool} (id : String) (v : StoredWorkload) (s : Service)
    → v.grant.workload_id ≡ id
    → (d ≡ true → contains_key s.store id ≡ true)
    → Touches d id s (put v s)
put-Touches id v s named there = record {
  workloads = λ j other.
      ground
        (arith, get-insert s.state.active v.grant.workload_id j v, eq_lem v.grant.workload_id j);
  records = λ j other. refl;
  here =
      rw
        (
          get-insert s.state.active v.grant.workload_id id v,
          (eq_lem v.grant.workload_id id).1 named,
        )
        (named, there);
}

pub drop-Touches :
    {d : Bool} (id : String) (s : Service)
    → Touches d id s (record (forget id s) { store = remove s.store id })
drop-Touches id s = record {
  workloads = λ j other. ground (arith, get-remove s.state.active id j, eq_lem id j);
  records = λ j other. ground (arith, get-remove s.store id j, eq_lem id j);
  here = rw (get-remove s.state.active id id, (eq_lem id id).1 refl) tt;
}

-- What a request does to the store is done when it waits for the lock on the state: a request that
-- is dropped there has done nothing else.
pub cut-Touches :
    {d e : Bool} (id : String) (s t : Service)
    → KeptAt d id s
    → Touches e id s t
    → (d ≡ true → contains_key t.store id ≡ true)
    → Touches d id s (record s { store = t.store })
cut-Touches {d} id s t h k there = record {
  workloads = λ j other. refl;
  records = k.records;
  here = by_held (get s.state.active id) h;
}
  where
    by_held :
        (o : Option StoredWorkload)
        → Kept d id o (contains_key s.store id)
        → Kept d id o (contains_key t.store id)
    by_held none k = tt
    by_held (some w) (named, recorded) = (named, there)
