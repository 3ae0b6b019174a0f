-- ===== src/Aggregator/Growth.antt =====
-- aggregator.ts: what is shown stays on the screen.
pub mod Lists
pub mod Handlers
pub mod Outputs
pub mod Histories
pub mod Echo
