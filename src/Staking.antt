-- ===== src/Staking.antt =====
-- packages/staking: stakes with a lock period, their unbonding, and slashing.
pub mod Types
pub mod Positions
pub mod Slashing
pub mod Admin
pub mod Calls
pub mod Tally
pub mod History
pub mod Solvency
pub mod Coverage
pub mod Locks
pub mod Power
pub mod Listing
pub mod Register
mod Tests
