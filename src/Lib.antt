-- ===== src/Lib.antt =====
-- Verification of the Moistello contracts, savings circles on Soroban (packages/*/src, in Rust).
--
-- The program is a set of contracts. A circle (packages/circle) takes a contribution from each of its
-- members in every round and pays the pool to one of them. It charges late payers, strikes those who
-- do not pay, and records payments in the reputation library (packages/reputation-registry), which it
-- links into its own storage. The governance token (packages/governance-token) is a fungible token
-- with an administrator, frozen accounts and an allowlist. Fees go to the treasury (packages/treasury),
-- tokens are staked for voting power in packages/staking, and two parties swap tokens through
-- packages/escrow-swap. All contracts share packages/common.
--
-- Which file models what:
-- - Prelude: native numbers, integers with the checked operations of i128 (Int), u32 and u64
--   (Machine), vectors as lists (Lists).
-- - Soroban: what the host gives a contract. Soroban/Contract: a contract function of type M S E A
--   turns the storage S into a result, a value with the new storage, a typed error or a trap.
--   require_auth is a test of the environment. Soroban/Outcome, Soroban/Keeps and Soroban/Turns: what
--   an invocation leaves behind, with one rule for each kind of step. A failed invocation leaves the
--   storage as it was (commit), as the host does. Soroban/Map: soroban_sdk::Map.
-- - Common: packages/common/src/math.rs, pause.rs, reentrancy.rs, access.rs and token_transfer.rs. The
--   token contract is a parameter, TokenLedger, and IsStandard states what its interface documents;
--   Coins is a ledger that keeps to it. Vrf is vrf.rs, the random numbers of a contract.
-- - GovernanceToken: packages/governance-token/src. Types holds the storage and the errors, Views the
--   reads and guards, Transfers, Supply and Admin the entry points by their names in contract.rs, and
--   Calls the calls of lib.rs and their histories.
-- - Reputation: packages/reputation-registry/src/storage.rs and scoring.rs.
-- - Circle: packages/circle/src. Rounds has the contribution window and the accounts of a round,
--   Contribute and Join the two entry points, Streaks the payment streaks, Sweep the strikes of a
--   closed round, Health the health score, Payout the choice of the recipient from payout.rs and
--   Resolve the part of it that writes, Externals oracle.rs and what lies outside of the repository,
--   Distribution the payment of a pool, Settlement trigger_payout, check_contribution_deadline and
--   schedule_payout, and Calls the histories of calls. The proofs stand in Accounts and History (the
--   accounts of the rounds), Seats and Membership (the list of members), Money, Window, Strikes,
--   Ratings, Recipients and Draws (who is paid), Payments and Pool (what is paid), and Fixed and
--   Advance (the next round).
-- - Staking: packages/staking/src. Positions has the life of a stake, Slashing the slashes and their
--   notices, Admin the administration and the queries, Calls the histories; the proofs stand in Tally
--   and History (the total), Solvency and Coverage (the tokens held), Locks (the times), Power
--   (the voting power), and Listing and Register (the list of stakers).
-- - Treasury: packages/treasury/src. Ledger has the entry points, Calls the histories; the proofs
--   stand in Reserves and Solvency.
-- - Escrow: packages/escrow-swap/src. Swaps has the entry points, Calls the histories; the proofs
--   stand in Lifecycle and History (the states of a swap), Holdings, Debts, Opening, Closing and
--   Solvency (the tokens held) and Acceptance.
--
-- A function of the source whose body is long is split: each part is a function named for what it
-- does, and the entry point composes them in the order of the source. An integer is its value; a
-- plain addition on u32 wraps, as it does in the release profile. Loops over vectors are structural
-- recursion on the list, so there is no fuel.
--
-- Not modelled: times to live of entries, the replacement of a contract's code, deployment, the page
-- query of staking, whose result types the repository does not declare, and so far the other entry
-- points of the circle (auctions, votes, disputes, exits, withdrawals), the registry contract,
-- governance and the circle factory.
pub mod Prelude
pub mod Soroban
pub mod Common
pub mod GovernanceToken
pub mod Reputation
pub mod Circle
pub mod Staking
pub mod Treasury
pub mod Escrow
