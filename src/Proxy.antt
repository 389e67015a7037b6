-- ===== src/Proxy.antt =====
-- The proxy (podmesh-proxy/src).
pub mod TenantSessions
