-- ===== src/Exchange.antt =====
-- The RFC 8693 token exchange engine (pkg/exchange), with the request types of pkg/core.
mod Tests
pub mod Request
pub mod Delegation
pub mod Nonce
pub mod Scope
pub mod Attestation
pub mod CredType
pub mod Dpop
pub mod Keyring
pub mod Engine
