-- ===== src/Signals.antt =====
-- Security events and the revocation index, pkg/signals.
pub mod Revocation
pub mod Event
pub mod Receiver
