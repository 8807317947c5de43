-- ===== src/Common.antt =====
-- packages/common/src: the helpers that every contract uses.
pub mod Math
pub mod Pause
pub mod Reentrancy
pub mod Access
pub mod TokenTransfer
mod Tests
pub mod Vrf
pub mod Coins
