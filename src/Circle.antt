-- ===== src/Circle.antt =====
-- packages/circle/src.
pub mod Types
pub mod Rounds
pub mod Streaks
pub mod Contribute
pub mod Join
pub mod Sweep
pub mod Health
pub mod Payout
pub mod Window
pub mod Accounts
pub mod Calls
pub mod History
pub mod Strikes
pub mod Ratings
mod Tests
pub mod Recipients
pub mod Seats
pub mod Membership
pub mod Money
pub mod Resolve
pub mod Externals
pub mod Distribution
pub mod Settlement
pub mod Draws
pub mod Payments
pub mod Pool
pub mod Fixed
pub mod Advance
