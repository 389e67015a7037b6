-- ===== src/Agent/World/Coherence.antt =====
-- What holds between two steps: each record is where it belongs, and each request that waits finds
-- the record that it left.
use podmesh.Agent.Update.{transitioning}
use podmesh.Agent.World.{enrolling, deploying, cleaning, updating_from, deleting_from}
use podmesh.Map.Laws.{get-insert, get-remove}
use podmesh.Agent.State.{StoredWorkload}
use podmesh.Map.{contains_key, get}
use podmesh.Agent.Deploy.Local.{Kept, Touches, KeptAt}
use podmesh.Agent.World.{
  deleting_from, updating_from, cleaning, deploying, get, StoredWorkload, Flight, World, settle,
}
use podmesh.Prelude.{
  refl, none, ap, inr, subst, inl, Bool-cases, sym, ◌∙◌, eq_lem, false, ◌==◌, true, string_eq, some,
  ◌≡◌, Bool, Option, String, arith, ◌≢◌,
}
use podmesh.Agent.Deploy.{Service}

-- What a waiting request relies on, in the state and the store at its workload.
abbrev pub Coherent : Bool → String → Flight → Option StoredWorkload → Bool → Type 0
Coherent durable id (deploying w) held recorded =
    (w.grant.workload_id ≡ id) × (held ≡ some w) × (durable ≡ true → recorded ≡ true)
Coherent durable id (cleaning w) held recorded = (w.grant.workload_id ≡ id) × (held ≡ some w)
Coherent durable id (updating_from w t q x) held recorded =
    (w.grant.workload_id ≡ id)
    × (q.workload_id ≡ id)
    × (q.grant.workload_id ≡ id)
    × (t ≡ transitioning q w)
    × (held ≡ some t)
Coherent durable id (deleting_from w) held recorded =
    (w.grant.workload_id ≡ id)
    × (held ≡ some (record w { deleting = true }))
    × (durable ≡ true → recorded ≡ true)
Coherent durable id enrolling held recorded = Unit {0}

abbrev pub CoherentAt : Bool → String → Flight → Service → Type 0
CoherentAt durable id f s = Coherent durable id f (get s.state.active id) (contains_key s.store id)

-- The order between records and requests: with the durable records if `durable` is true, and in
-- the state alone otherwise.
pub record Inv (durable : Bool) (s : World) : Type 0 where
  pub kept : (id : String) → KeptAt durable id s.service
  pub flying :
      (id : String) (f : Flight) → get s.flights id ≡ some f → CoherentAt durable id f s.service

-- A request that touches its own workload only, and leaves that in order, keeps all in order.
pub settle-Inv :
    {d : Bool} (id : String) (f : Option Flight) (t : Service) (s : World)
    → Inv d s
    → Touches d id s.service t
    → ((g : Flight) → f ≡ some g → CoherentAt d id g t)
    → Inv d (settle id f t s)
unfolding settle
settle-Inv {d} id f t s h k c = record {
  kept = λ j. elim (Bool-cases (j == id)) [
    | inl same ↦
        subst (λ (z : String). KeptAt d z (settle id f t s).service) (sym ((eq_lem j id).0 same))
          (serves f)
    | inr other ↦ other_kept f j (apart j other)
  ];
  flying = λ j g e. elim (Bool-cases (j == id)) [
    | inl same ↦
        subst (λ (z : String). CoherentAt d z g (settle id f t s).service)
          (sym ((eq_lem j id).0 same))
          (mine f g refl (ap (get (settle id f t s).flights) (sym ((eq_lem j id).0 same)) ∙ e))
    | inr other ↦ theirs f j g (apart j other) e
  ];
}
  where
    apart : (j : String) → (j == id) ≡ false → j ≢ id
    apart j other e = ground (arith, (eq_lem j id).1 e)

    serves : (o : Option Flight) → KeptAt d id (settle id o t s).service
    serves none = k.here
    serves (some g) = k.here

    other_kept : (o : Option Flight) (j : String) → j ≢ id → KeptAt d j (settle id o t s).service
    other_kept none j n = rw (k.workloads j n, k.records j n) (h.kept j)
    other_kept (some g) j n = rw (k.workloads j n, k.records j n) (h.kept j)

    mine :
        (o : Option Flight) (g : Flight)
        → f ≡ o
        → get (settle id o t s).flights id ≡ some g
        → CoherentAt d id g (settle id o t s).service
    mine none g p e = absurd (ground (arith, get-remove s.flights id id, eq_lem id id))
    mine (some v) g p e =
        c g (p ∙ sym (rw (get-insert s.flights id id v, (eq_lem id id).1 refl) refl) ∙ e)

    theirs :
        (o : Option Flight) (j : String) (g : Flight)
        → j ≢ id
        → get (settle id o t s).flights j ≡ some g
        → CoherentAt d j g (settle id o t s).service
    theirs none j g n e =
        rw (k.workloads j n, k.records j n)
          (h.flying j g (ground (arith, get-remove s.flights id j, eq_lem id j)))
    theirs (some v) j g n e =
        rw (k.workloads j n, k.records j n)
          (h.flying j g (ground (arith, get-insert s.flights id j v, eq_lem id j)))

-- What the state holds under an identifier is for that workload, and is recorded.
pub found_at :
    {d : Bool} {id : String} (s : World) (w : StoredWorkload)
    → get s.service.state.active id ≡ some w
    → Inv d s
    → (w.grant.workload_id ≡ id) × (d ≡ true → contains_key s.service.store id ≡ true)
found_at {d} {id} s w found h =
    subst (λ (z : Option StoredWorkload). Kept d id z (contains_key s.service.store id)) found
      (h.kept id)
