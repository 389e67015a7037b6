-- ===== src/Agent/Update/Arrival.antt =====
-- What `update_inner` of podmesh-agent/src/service.rs does with a request before it takes the lock.
use podmesh.Agent.ReplayCache.{IsValid, AllBefore}
use podmesh.Agent.ReplayCache.{Call}
use podmesh.Prelude.{refl}
use podmesh.Manifest.{ManifestResources}
use podmesh.Prelude.{
  ◌≤◌, ◌<◌, length, eq_lem, arith, List, ◌≡◌, ℕ, ◌==◌, string_eq, Result, ok, err, ensure, ◌>>=◌,
  ◌>>◌, Result-cases, inl, inr,
}
use podmesh.Protocol.Messages.{UpdateRequest}
use podmesh.Agent.ReplayCache.{recorded_refused, max_replay_entries, run, ReplayCache, record_key}
use podmesh.Agent.State.{Config}
use podmesh.Agent.Admission.{Env, replay_key}
use podmesh.Agent.Deploy.{ExecutionSpec}
use podmesh.Agent.Deploy.Arrival.{Node, Arrival}
use podmesh.Agent.Update.{UpdateStart, begin_update}

check_update_request : Env → UpdateRequest → ℕ → Result (Unit {0})
check_update_request env q now = do
  env.verify_update q now
  ensure (q.target_node_id == env.node_id) "update target mismatch"

pub record_update : UpdateRequest → ℕ → ReplayCache → ReplayCache × Result (Unit {0})
record_update q now = record_key (replay_key "update" q.namespace_id q.nonce) q.expires_at_secs now

module _ (env : Env) (c : Config) (q : UpdateRequest) (a : Arrival)
    (measured : Result ManifestResources) (saved : Result (Unit {0})) where
  -- The signature is checked again once the guard is held, and then the manifest.
  prepare_update : ℕ → Result (Unit {0}) → Result ExecutionSpec
  prepare_update later fresh = do
    fresh
    execution ← a.decoded
    a.guard
    env.verify_update q later
    a.manifest
    ok execution

  update_prepared : Node → Result ExecutionSpec → Node × Result UpdateStart
  update_prepared n (err e) = (n, err e)
  update_prepared n (ok execution) =
      let (service, outcome) = begin_update c q execution measured saved n.service in
      (record n { service = service }, outcome)

  update_checked : ℕ → ℕ → Node → Node × Result UpdateStart
  unfolding update_prepared prepare_update record_update
  update_checked now later n =
      let (cache, fresh) = record_update q now n.replay in
      update_prepared (record n { replay = cache }) (prepare_update later fresh)

  unfoldable pub arrive_update : ℕ → ℕ → Node → Node × Result UpdateStart
  unfolding check_update_request update_checked
  arrive_update now later n = elim (check_update_request env q now) [
    | err e ↦ (n, err e)
    | ok _ ↦ update_checked now later n
  ]

-- What an update that starts has passed.
pub record Entered (env : Env) (q : UpdateRequest) (a : Arrival) (now later : ℕ)
    (replay : ReplayCache) : Type 0 where
  pub verified : env.verify_update q now ≡ ok tt
  pub targeted : q.target_node_id ≡ env.node_id
  pub fresh : (record_update q now replay).1 ≡ ok tt
  pub guarded : a.guard ≡ ok tt
  pub verified_later : env.verify_update q later ≡ ok tt
  pub valid_manifest : a.manifest ≡ ok tt

module _ (env : Env) (c : Config) (q : UpdateRequest) where
  started_update :
      (a : Arrival) (measured : Result ManifestResources) (saved : Result (Unit {0}))
      (now later : ℕ) (n : Node) (u : UpdateStart)
      → (arrive_update env c q a measured saved now later n).1 ≡ ok u
      → Entered env q a now later n.replay
        × ((arrive_update env c q a measured saved now later n).0.replay
            ≡ (record_update q now n.replay).0)
  unfolding arrive_update update_checked update_prepared prepare_update check_update_request
  started_update a measured saved now later n u e = (
    record {
      verified = ground arith;
      targeted = ground (arith, eq_lem q.target_node_id env.node_id);
      fresh = ground arith;
      guarded = ground arith;
      verified_later = ground arith;
      valid_manifest = ground arith;
    },
    ground arith,
  )

  replayed_update :
      (a : Arrival) (measured : Result ManifestResources) (saved : Result (Unit {0}))
      (now later : ℕ) (n : Node)
      → (record_update q now n.replay).1 ≡ err "replayed request"
      → (arrive_update env c q a measured saved now later n).0.service ≡ n.service
  unfolding arrive_update update_checked update_prepared prepare_update
  replayed_update a measured saved now later n replayed =
      elim (Result-cases (check_update_request env q now)) [
        | inr (m, refused) ↦ rw (refused, arrive_update) refl
        | inl (_, passed) ↦
            rw (passed, arrive_update, replayed, prepare_update, update_prepared) refl
      ]

  -- On a node with a valid replay cache, an update request that is answered with a start or an
  -- outcome has been verified twice, is for this node, was not seen before, holds the guard of its
  -- workload and has a valid manifest; and it changes nothing when it comes again, whatever has
  -- become of the state and the store by then and whatever is answered: provided that fewer than
  -- 16384 calls of the cache, none later than the expiry of the request, stand in between, and that
  -- it comes no later than that expiry itself.
  pub arrive_update_started :
      (a b : Arrival) (measured again : Result ManifestResources) (saved stored : Result (Unit {0}))
      (now later back last : ℕ) (n m : Node) (u : UpdateStart) (calls : List Call)
      → IsValid n.replay
      → (arrive_update env c q a measured saved now later n).1 ≡ ok u
      → m.replay ≡ run calls (arrive_update env c q a measured saved now later n).0.replay
      → AllBefore (replay_key "update" q.namespace_id q.nonce) q.expires_at_secs calls
      → length calls < max_replay_entries
      → back ≤ q.expires_at_secs
      → Entered env q a now later n.replay
        × ((arrive_update env c q b again stored back last m).0.service ≡ m.service)
  unfolding record_update
  arrive_update_started a b measured again saved stored now later back last n m u calls v e since
        before few young =
      let (entered, kept) = started_update a measured saved now later n u e in
      (
        entered,
        replayed_update b again stored back last m (
            rw (since, kept)
              (recorded_refused (replay_key "update" q.namespace_id q.nonce) q.expires_at_secs now
                n.replay calls q.expires_at_secs back v.consistent entered.fresh before few young)),
      )
