-- ===== src/Lifecycle.antt =====
-- The lifecycle workflows, pkg/lifecycle.
pub mod Temporal
pub mod Rotation
