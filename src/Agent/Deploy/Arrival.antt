-- ===== src/Agent/Deploy/Arrival.antt =====
-- What `deploy_inner` of podmesh-agent/src/service.rs does with a grant before it takes the lock.
use podmesh.Prelude.{
  ◌<◌, length, List, ℕ, ◌≤◌, ◌≡◌, refl, ◌==◌, string_eq, arith, Result, ok, err, ensure, ◌>>=◌,
  ◌>>◌, Result-cases, inl, inr,
}
use podmesh.Protocol.Messages.{DeploymentGrant}
use podmesh.Agent.ReplayCache.{max_replay_entries, ReplayCache, record_key, run, recorded_refused}
use podmesh.Agent.ReplayCache
use podmesh.Agent.State.{Config, StoredWorkload}
use podmesh.Agent.Capacity.{Committed}
use podmesh.Agent.Admission.{Env, replay_key}
use podmesh.Agent.Deploy.{Service, Plan, ExecutionSpec, begin_deploy}
use podmesh.Agent.Deploy.Charge.{begin_deploy-Committed}

-- The service with the replay cache, and what is answered before the lock: the decrypted
-- specification, the test of its manifest, and the guard of the workload.
pub record Node : Type 0 where
  pub service : Service
  pub replay : ReplayCache

pub record Arrival : Type 0 where
  pub decoded : Result ExecutionSpec
  pub manifest : Result (Unit {0})
  pub guard : Result (Unit {0})

check_grant : Env → DeploymentGrant → ℕ → Result (Unit {0})
check_grant env g now = do
  env.verify_grant g now
  ensure (g.target_node_id == env.node_id) "deployment target mismatch"

-- The nonce is recorded before anything else is decided.
record_grant : DeploymentGrant → ℕ → ReplayCache → ReplayCache × Result (Unit {0})
record_grant g now = record_key (replay_key "deploy" g.namespace_id g.nonce) g.expires_at_secs now

module _ (env : Env) (g : DeploymentGrant) (a : Arrival) (p : Plan) where
  -- The signature is checked again once the guard is held.
  prepare : ℕ → Result (Unit {0}) → Result ExecutionSpec
  prepare later fresh = do
    fresh
    execution ← a.decoded
    a.manifest
    a.guard
    env.verify_grant g later
    ok execution

  deploy_prepared : ℕ → Node → Result ExecutionSpec → Node × Result StoredWorkload
  deploy_prepared later n (err e) = (n, err e)
  deploy_prepared later n (ok execution) =
      let (service, outcome) =
        begin_deploy env g (record p { execution = execution }) later n.service in
      (record n { service = service }, outcome)

  deploy_checked : ℕ → ℕ → Node → Node × Result StoredWorkload
  unfolding deploy_prepared prepare record_grant
  deploy_checked now later n =
      let (cache, fresh) = record_grant g now n.replay in
      deploy_prepared later (record n { replay = cache }) (prepare later fresh)

  unfoldable pub start_deploy : ℕ → ℕ → Node → Node × Result StoredWorkload
  unfolding check_grant deploy_checked
  start_deploy now later n = elim (check_grant env g now) [
    | err e ↦ (n, err e)
    | ok _ ↦ deploy_checked now later n
  ]

-- Whatever becomes of a grant that arrives, up to the start of its deployment, a committed state
-- stays committed.
pub start_deploy-Committed :
    (env : Env) (c : Config) (g : DeploymentGrant) (a : Arrival) (p : Plan) (now later : ℕ)
    (n : Node)
    → Committed c n.service.state
    → Committed c (start_deploy env g a p now later n).0.service.state
unfolding start_deploy deploy_checked deploy_prepared
start_deploy-Committed env c g a p now later n h = elim (Result-cases (check_grant env g now)) [
  | inr (m, refused) ↦ rw (refused, start_deploy) h
  | inl (_, passed) ↦
      elim (Result-cases (prepare env g a p later (record_grant g now n.replay).1)) [
        | inr (m, bad) ↦ rw (passed, start_deploy, bad, deploy_prepared) h
        | inl (x, good) ↦
            rw (passed, start_deploy, good, deploy_prepared)
              (begin_deploy-Committed env c g (record p { execution = x }) later n.service h)
      ]
]

-- A deployment that starts has had its nonce recorded.
started_fresh :
    (env : Env) (g : DeploymentGrant) (a : Arrival) (p : Plan) (now later : ℕ) (n : Node)
    (w : StoredWorkload)
    → (start_deploy env g a p now later n).1 ≡ ok w
    → ((record_grant g now n.replay).1 ≡ ok tt)
      × ((start_deploy env g a p now later n).0.replay ≡ (record_grant g now n.replay).0)
unfolding start_deploy deploy_checked
started_fresh env g a p now later n w e = elim (Result-cases (check_grant env g now)) [
  | inr (m, refused) ↦ absurd (ground arith)
  | inl (_, passed) ↦ elim (Result-cases (record_grant g now n.replay).1) [
    | inr (m, replayed) ↦ absurd (ground arith)
    | inl (_, fresh) ↦
        elim (Result-cases (prepare env g a p later (record_grant g now n.replay).1)) [
          | inr (m, bad) ↦ absurd (ground arith)
          | inl (x, good) ↦ (fresh, ground arith)
        ]
  ]
]

-- Calls of the replay cache that leave the nonce of a grant in it until the grant expires.
abbrev pub Between : DeploymentGrant → List ReplayCache.Call → Type 0
Between g calls =
    ReplayCache.AllBefore (replay_key "deploy" g.namespace_id g.nonce) g.expires_at_secs calls
    × (length calls < max_replay_entries)

grant_refused :
    (g : DeploymentGrant) (now again : ℕ) (c : ReplayCache) (calls : List ReplayCache.Call)
    → ReplayCache.IsValid c
    → (record_grant g now c).1 ≡ ok tt
    → Between g calls
    → again ≤ g.expires_at_secs
    → (record_grant g again (run calls (record_grant g now c).0)).1 ≡ err "replayed request"
unfolding record_grant
grant_refused g now again c calls v once (before, few) fresh =
    recorded_refused (replay_key "deploy" g.namespace_id g.nonce) g.expires_at_secs now c calls
      g.expires_at_secs again v.consistent once before few fresh

replayed_changes_nothing :
    (env : Env) (g : DeploymentGrant) (a : Arrival) (p : Plan) (now later : ℕ) (n : Node)
    → (record_grant g now n.replay).1 ≡ err "replayed request"
    → (start_deploy env g a p now later n).0.service ≡ n.service
unfolding start_deploy deploy_checked prepare deploy_prepared
replayed_changes_nothing env g a p now later n replayed =
    elim (Result-cases (check_grant env g now)) [
      | inr (m, refused) ↦ rw (refused, start_deploy) refl
      | inl (_, passed) ↦ rw (passed, start_deploy, replayed, prepare, deploy_prepared) refl
    ]

-- On a node with a valid replay cache, once a deployment has started with a grant, the grant
-- changes nothing when it arrives again, whatever has become of the state and the store by then
-- and whatever is answered: provided that fewer than 16384 calls of the cache, none later than the
-- expiry of the grant, stand in between, and that it arrives no later than that expiry itself.
pub start_deploy_twice :
    (env : Env) (g : DeploymentGrant) (a b : Arrival) (p q : Plan) (now later again last : ℕ)
    (n m : Node) (w : StoredWorkload) (calls : List ReplayCache.Call)
    → ReplayCache.IsValid n.replay
    → (start_deploy env g a p now later n).1 ≡ ok w
    → m.replay ≡ run calls (start_deploy env g a p now later n).0.replay
    → Between g calls
    → again ≤ g.expires_at_secs
    → (start_deploy env g b q again last m).0.service ≡ m.service
start_deploy_twice env g a b p q now later again last n m w calls v e since between fresh =
    let (once, kept) = started_fresh env g a p now later n w e in
    replayed_changes_nothing env g b q again last m
      (rw (since, kept) (grant_refused g now again n.replay calls v once between fresh))
