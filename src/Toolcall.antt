-- ===== src/Toolcall.antt =====
-- The protocol-agnostic verification of tool calls, pkg/toolcall.
pub mod Types
pub mod Registry
pub mod Verifier
