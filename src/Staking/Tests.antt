-- ===== src/Staking/Tests.antt =====
-- Runs of the staking contract.
use moistello_contracts.Prelude.{ℕ, pos, refl, ◌+◌, ◌<◌, not, ◌==◌, List, [], ◌∷◌, some, int_laws}
use moistello_contracts.Soroban.Contract.{Env}
use moistello_contracts.Soroban.Outcome.{Post}
use moistello_contracts.Soroban.Map.{get}
use moistello_contracts.Common.Coins.{Coins, coins, coins-IsStandard}
use moistello_contracts.Staking.Types.{Store, three_months, unbonding_period_seconds}
use moistello_contracts.Staking.Positions.{stake, unstake, claim}
use moistello_contracts.Staking.Calls.{Call, run, opened}
use moistello_contracts.Staking.Tally.{IsTallied}
use moistello_contracts.Staking.History.{run-IsTallied}
use moistello_contracts.Staking.Solvency.{IsCovered}
use moistello_contracts.Staking.Coverage.{run-IsCovered}
use moistello_contracts.Staking.Power.{Weighted, run-Weighted}
use moistello_contracts.Staking.Listing.{IsListed}
use moistello_contracts.Staking.Register.{run-IsListed}
use moistello_contracts.Staking.Locks.{lock_seconds, unstake-claim, stake-unstake}

abbrev at : ℕ → Env
at now = record {
  authorized = λ a. not (a == 9);
  current_contract = 9;
  sequence = 1;
  timestamp = now;
}

-- The administrator is 1, the token 8 and the contract 9; the users 5 and 6 have tokens.
abbrev start : Store Coins
start = opened 1 8 (((8, 5), pos 90000000) ∷ ((8, 6), pos 90000000) ∷ ((8, 9), pos 0) ∷ [])

-- Two stakes, one with a period that does not exist, a top-up, two slashes, and an unstake too early and in time.
abbrev history : List (Env × Call)
history =
    (at 10, Call.stake 5 (pos 20000000) 3)
    ∷ (at 11, Call.stake 6 (pos 20000000) 2)
    ∷ (at 12, Call.top_up 5 (pos 5000000))
    ∷ (at 13, Call.slash 1 5 (pos 1000000))
    ∷ (at 14, Call.create_slash_notice 1 5 (pos 2000000))
    ∷ (at 90000, Call.execute_slash 1 5)
    ∷ (at 90001, Call.unstake 5)
    ∷ (at 8000000, Call.unstake 5)
    ∷ []

-- The same, after the contract has been initialized once more.
abbrev restarted : List (Env × Call)
restarted = (at 9, Call.init 1 8) ∷ history

run-IsTallied_example : IsTallied (run coins history start)
run-IsTallied_example =
    run-IsTallied coins history start (tt, (tt, (tt, (tt, (tt, (tt, (tt, (tt, tt)))))))) refl

run-IsListed_example : IsListed (run coins history start)
unfolding get
run-IsListed_example =
    run-IsListed coins history start (tt, (tt, (tt, (tt, (tt, (tt, (tt, (tt, tt))))))))
      (tt, λ user. refl)

run-Weighted_example : Weighted (run coins history start)
run-Weighted_example = run-Weighted coins history start tt

run-IsCovered_example : IsCovered coins 8 9 (run coins restarted start)
unfolding get
run-IsCovered_example =
    run-IsCovered coins coins-IsStandard 8 9 restarted start
      (
        (refl, refl),
        (
          (refl, refl),
          (
            (refl, refl),
            (
              (refl, refl),
              ((refl, refl), ((refl, refl), ((refl, refl), ((refl, refl), ((refl, refl), tt))))),
            ),
          ),
        ),
      )
      (refl, (tt, (tt, (tt, (tt, (tt, (tt, (tt, (tt, tt))))))))) (refl, (tt, omega int_laws))

abbrev staked_store : Store Coins
staked_store = record start {
  stakes =
      (
        5,
        record {
          amount = pos 20000000;
          period = three_months;
          start_time = 10;
          unlock_time = 7776010;
          voting_power = pos 40000000;
          start_ledger = 1;
          unlock_ledger = 1555201;
        },
      )
      ∷ [];
  total_staked = some (pos 20000000);
  staker_list = some (5 ∷ []);
}

unstake-claim_example :
    Post
      (λ s'.
        (later : Env)
        → later.timestamp < 8000000 + unbonding_period_seconds
        → Post (λ _. ⊥) (claim coins later 5 s'))
      (unstake (at 8000000) 5 staked_store)
unstake-claim_example = unstake-claim coins (at 8000000) 5 staked_store

stake-unstake_example :
    Post
      (λ s'.
        (later : Env) → later.timestamp < 10 + lock_seconds 3 → Post (λ _. ⊥) (unstake later 5 s'))
      (stake coins (at 10) 5 (pos 20000000) 3 start)
stake-unstake_example = stake-unstake coins (at 10) 5 (pos 20000000) 3 start
