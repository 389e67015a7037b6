-- ===== src/Agent/World/Deletions.antt =====
-- How a deletion begins, between other requests (podmesh-agent/src/service.rs, the deletion of a
-- workload).
use podmesh.Agent.World.Coherence.{found_at}
use podmesh.Map.Laws.{get-insert}
use podmesh.Agent.World.{settle, delete_begins}
use podmesh.Agent.Deploy.Local.{stay-Touches, Touches}
use mathlib.Core.Option.{some-injective}
use podmesh.Prelude.{Bool, inr, inl, Bool-cases, eq_lem, true}
use podmesh.Agent.Deploy.Touches.{mark_deleting-Touches}
use podmesh.Agent.Deploy.Waits.{mark_deleting}
use podmesh.Map.{contains_key, get}
use podmesh.Agent.World.Coherence.{settle-Inv, CoherentAt, Inv}
use podmesh.Agent.Deploy.{is_updating, Service}
use podmesh.Agent.State.{needs_cleanup, StoredWorkload}
use podmesh.Prelude.{
  refl, true, string_eq, ok, err, subst, none, if◌then◌else◌, Result, String, ◌≡◌, some,
}
use podmesh.Agent.World.{Flight, get, World, cleaning, deleting_from}

-- A deletion is marked before it waits for the runtime.
marked-Inv :
    {d : Bool} (w : StoredWorkload) (saved : Result (Unit {0})) (s : World)
    → get s.service.state.active w.grant.workload_id ≡ some w
    → Inv d s
    → Inv d (
        settle w.grant.workload_id
          (if (mark_deleting w saved s.service).1 then some (deleting_from w) else none)
          (mark_deleting w saved s.service).0
          s)
unfolding mark_deleting
marked-Inv {d} w (err e) s found h =
    settle-Inv w.grant.workload_id none (mark_deleting w (err e) s.service).0 s h
      (mark_deleting-Touches w.grant.workload_id s.service (h.kept w.grant.workload_id) w refl
        (found_at s w found h).1 (err e))
      (λ f e. absurd (cc))
marked-Inv {d} w (ok z) s found h =
    settle-Inv w.grant.workload_id (some (deleting_from w)) t s h
      (mark_deleting-Touches w.grant.workload_id s.service (h.kept w.grant.workload_id) w refl
        (found_at s w found h).1 (ok z))
      (λ f e.
        subst (λ (y : Flight). CoherentAt d w.grant.workload_id y t)
          (some-injective (deleting_from w) f e) (refl, held, λ asked. recorded))
  where
    t : Service
    t = (mark_deleting w (ok z) s.service).0

    held : get t.state.active w.grant.workload_id ≡ some (record w { deleting = true })
    held =
        rw
          (
            get-insert s.service.state.active w.grant.workload_id w.grant.workload_id
                (record w { deleting = true }),
            (eq_lem w.grant.workload_id w.grant.workload_id).1 refl,
          )
          refl

    recorded : contains_key t.store w.grant.workload_id ≡ true
    recorded =
        rw
          (
            get-insert s.service.store w.grant.workload_id w.grant.workload_id
                (record w { deleting = true }),
            (eq_lem w.grant.workload_id w.grant.workload_id).1 refl,
          )
          refl

pub delete_begins-Inv :
    {d : Bool} (w : StoredWorkload) (saved : Result (Unit {0})) (s : World)
    → get s.service.state.active w.grant.workload_id ≡ some w
    → Inv d s
    → Inv d (delete_begins w saved s)
unfolding delete_begins
delete_begins-Inv {d} w saved s found h = elim (Bool-cases (needs_cleanup w)) [
  | inl unclean ↦
      rw (unclean, delete_begins)
        (settle-Inv id (some (cleaning w)) s.service s h stays (λ f e.
          subst (λ (z : Flight). CoherentAt d id z s.service) (some-injective (cleaning w) f e)
            (refl, found)))
  | inr clean ↦ elim (Bool-cases (is_updating w.phase)) [
    | inl busy ↦
        rw (clean, delete_begins, busy)
          (settle-Inv id none s.service s h stays (λ f e. absurd (cc)))
    | inr idle ↦ rw (clean, delete_begins, idle) (marked-Inv w saved s found h)
  ]
]
  where
    id : String
    id = w.grant.workload_id

    stays : Touches d id s.service s.service
    stays = stay-Touches id s.service (h.kept id)
