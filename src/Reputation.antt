-- ===== src/Reputation.antt =====
-- packages/reputation-registry/src.
pub mod Types
pub mod Storage
pub mod Scoring
pub mod Bounds
pub mod Tiers
mod Tests
