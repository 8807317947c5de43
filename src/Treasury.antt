-- ===== src/Treasury.antt =====
-- packages/treasury: the fees that circles deposit, their withdrawal, and the rescue of tokens.
pub mod Types
pub mod Ledger
pub mod Calls
pub mod Reserves
pub mod Solvency
mod Tests
