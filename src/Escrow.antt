-- ===== src/Escrow.antt =====
-- packages/escrow-swap: two parties swap tokens that the contract holds, under a hash and a deadline.
pub mod Types
pub mod Swaps
pub mod Calls
pub mod Lifecycle
pub mod History
pub mod Holdings
pub mod Debts
pub mod Opening
pub mod Closing
pub mod Solvency
pub mod Acceptance
mod Tests
