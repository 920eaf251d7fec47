-- ===== src/Federation.antt =====
-- Federated key resolution between fabrics, pkg/federation.
pub mod Types
pub mod Resolver
