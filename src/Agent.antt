-- ===== src/Agent.antt =====
-- The execution agent (podmesh-agent/src/service.rs): replay cache, resource accounting, admission,
-- deployment, update and deletion of workloads.
pub mod ReplayCache
pub mod Usage
pub mod State
pub mod Admission
pub mod Capacity
pub mod Deploy
pub mod Update
pub mod World
pub mod Fixtures
