-- ===== src/Audit.antt =====
-- The audit ledger, pkg/audit.
pub mod Ledger
