-- ===== src/Lib.antt =====
-- Verification library of the podmesh workspace (Rust).
--
-- Podmesh places workloads of mutually untrusting owners on agents. An owner asks an agent for
-- admission and gets a signed reservation; with it the owner deploys a workload, which the agent
-- runs until its owner updates or deletes it. Every message is signed and has a validity window,
-- and is meant to be acted on once.
--
-- Which file models which part of the repository:
--
--   Prelude        Boolean tests, lists, results and saturating sums; Prelude.Outcome is `Result`.
--   Map            hash maps as association lists with one entry for each key.
--   Fifo           a map with a queue of its keys, as the two replay caches keep it.
--   Protocol       shared/protocol/src: Protocol.Replay is replay_registry.rs, Protocol.Freshness
--                  and Protocol.Messages are the validity window and the messages of agent.rs,
--                  Protocol.Signed their signing and their checks.
--   Crypto         shared/crypto/src: Crypto.Domain is domain.rs, Crypto.Signing the signatures and
--                  Crypto.Sealed the sealed messages of lib.rs.
--   Manifest       shared/protocol/src/manifest_resources.rs: Manifest.Text is what it uses of texts,
--                  Manifest.Quantity its processor shares and byte quantities, Manifest.Measure the
--                  sums over the containers of a manifest.
--   Agent          podmesh-agent/src/service.rs, with the records of store.rs and the limits of
--                  config.rs. Agent.ReplayCache is `ReplayCache`; Agent.Usage and Agent.State are
--                  `ResourceUsage` and `WorkloadState`; Agent.Admission is `admit`; Agent.Deploy is
--                  `deploy_inner`, `failed_deploy` and the deletion of `command`; Agent.Update is
--                  `update_inner`. Agent.Capacity says what an agent has promised. Agent.World is
--                  the table of mutation guards, and every order in which deployments, updates,
--                  deletions and enrollments of many workloads can meet between their waits.
--   Scheduler      Scheduler.Query is `QueryManager` of podmesh-scheduler/src/machine/query.rs, and
--                  Scheduler.Offers its criteria and the order of offers; the messages are
--                  Protocol.Capacity (shared/protocol/src/capacity.rs).
--                  Scheduler.Location is `LocationRegistry` of podmesh-scheduler/src/machine/location.rs.
--   Proxy          Proxy.TenantSessions is podmesh-proxy/src/tenant_sessions.rs, with
--                  `verify_session` of shared/protocol/src/workload_identity.rs.
--   Tests modules  each component at concrete inputs, on the data of Agent.Fixtures.
--
-- A handler is a function on the state that its mutexes guard: from one wait to the next it is one
-- step, so a deployment is `begin_deploy`, which holds the lock, and `finish_deploy`, which goes on
-- when the runtime has answered; what comes before the lock is in Agent.Deploy.Arrival and
-- Agent.Update.Arrival. What the outside answers (the runtime, the store, the manifest
-- reader, the signature checks) is an argument or a field of `Env`. Errors are values of `Result`.
-- A request that is cancelled at a wait ends there. In Agent.World what a request writes to the store
-- and then, after a wait for the lock, to the state is one step, since only the holder of the guard
-- reads it between; to be cancelled at that lock is a step of its own. The replay cache is asked at the
-- time at which the request was checked, although `check_replay` reads the clock again.
-- Numbers are naturals; where the source saturates, the saturation is written out, and the limits of
-- u32 and u64 are hypotheses where a theorem needs them. No loop of the source needs fuel: each runs down a list
-- or a count, and the digits that Manifest.Quantity.Printing writes take at most as many rounds as
-- the number.
-- The bound of the location cache is an argument; every other bound has its value of the source.
--
-- Not modelled: the cryptographic primitives and encodings, key files, metrics, logging, the network, the container runtime,
-- the database behind the store, and the parts of the workspace named in no line above.
pub mod Prelude
pub mod Map
pub mod Fifo
pub mod Protocol
pub mod Agent
pub mod Scheduler
pub mod Proxy
pub mod Crypto
pub mod Manifest
