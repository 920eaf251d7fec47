-- ===== src/Exchange/Engine.antt =====
-- Engine.Exchange of pkg/exchange/engine.go, one module for each part of the pipeline.
mod Tests
pub mod Types
pub mod Events
pub mod Policy
pub mod Gates
pub mod Delivery
pub mod Mint
pub mod Run
pub mod Passed
pub mod Delegated
pub mod Granted
pub mod Indexed
pub mod Quiet
pub mod Silence
pub mod Outcome
