-- ===== src/Soroban.antt =====
-- The parts of the Soroban host that the contracts under packages/ are written against: results,
-- the state that one invocation passes along, the invocation's environment, and maps.
pub mod Result
pub mod Contract
pub mod Outcome
pub mod Keeps
pub mod Turns
pub mod Map
pub mod Yields
pub mod Totals
pub mod Distinct
