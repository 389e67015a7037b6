-- ===== src/Scheduler.antt =====
-- The scheduler (podmesh-scheduler/src).
pub mod Offers
pub mod Query
pub mod Location
