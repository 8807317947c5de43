-- ===== src/Treasury/Tests.antt =====
-- Runs of the treasury.
use moistello_contracts.Prelude.{ℕ, pos, ◌≢◌, refl, not, ◌==◌, List, [], ◌∷◌, some, none, arith}
use moistello_contracts.Soroban.Contract.{Address, Env}
use moistello_contracts.Soroban.Map.{get}
use moistello_contracts.Common.Coins.{Coins, coins, coins-IsStandard}
use moistello_contracts.Treasury.Types.{Store}
use moistello_contracts.Treasury.Calls.{Call, run}
use moistello_contracts.Treasury.Reserves.{IsBacked}
use moistello_contracts.Treasury.Solvency.{run-IsBacked}

abbrev at : ℕ → Env
at now = record {
  authorized = λ a. not (a == 9);
  current_contract = 9;
  sequence = 1;
  timestamp = now;
}

-- The administrator is 1, the token 8, the treasury 9, and a circle is 7.
abbrev start : Store Coins
start = record {
  admin = some 1;
  token = some 8;
  balance = some (pos 0);
  deposits = some [];
  withdrawals = some [];
  paused_flag = none;
  lock = none;
  events = [];
  tokens = ((8, 7), pos 1000) ∷ ((8, 9), pos 40) ∷ [];
}

abbrev history : List (Env × Call)
history =
    (at 10, Call.deposit 7 (pos 300) 7)
    ∷ (at 11, Call.withdraw 1 3 (pos 100))
    ∷ (at 12, Call.withdraw 1 3 (pos 500))
    ∷ (at 13, Call.pause 1)
    ∷ (at 14, Call.rescue_tokens 1 3 8 (pos 50))
    ∷ []

abbrev circle_id : Address
circle_id = 7

seven_is_foreign : circle_id ≢ 9
seven_is_foreign e = omega (arith, e)

run-IsBacked_example : IsBacked coins 8 9 (run coins history start)
unfolding get
run-IsBacked_example =
    run-IsBacked coins coins-IsStandard 8 9 history start
      ((refl, seven_is_foreign), ((refl, tt), ((refl, tt), ((refl, tt), ((refl, tt), tt)))))
      (refl, (omega arith, omega arith))
