-- ===== src/GovernanceToken.antt =====
-- packages/governance-token/src: the SEP-41 governance token.
pub mod Types
pub mod Views
pub mod Transfers
pub mod Supply
pub mod Admin
pub mod Calls
pub mod Conservation
pub mod Authority
pub mod Freezing
pub mod Effects
pub mod Approval
pub mod Availability
mod Tests
