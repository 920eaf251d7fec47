-- ===== src/Jwks.antt =====
-- Remote signing keys, pkg/jwks.
pub mod Cache
