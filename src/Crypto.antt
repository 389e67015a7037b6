-- ===== src/Crypto.antt =====
-- Signatures under a domain and sealed messages (shared/crypto/src/lib.rs, shared/crypto/src/domain.rs).
-- Ed25519, X25519, the key derivation and the cipher are parameters.
pub mod Domain
pub mod Signing
pub mod Sealed
pub mod Tests
