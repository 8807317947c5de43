-- ===== src/GovernanceToken/Tests.antt =====
-- Runs of the governance token on concrete storages, and its theorems at concrete inputs.
use moistello_contracts.Prelude.{
  ◌≡◌, refl, pos, ◌+ℤ◌, ◌-ℤ◌, true, none, some, List, [], ◌∷◌, arith, checked_add, checked_sub,
}
use moistello_contracts.Soroban.Result.{err}
use moistello_contracts.Soroban.Contract.{Env}
use moistello_contracts.Soroban.Outcome.{Post, Returns}
use moistello_contracts.Soroban.Map.{get, set}
use moistello_contracts.GovernanceToken.Types.{Store, contract_paused}
use moistello_contracts.GovernanceToken.Views.{
  balance, total_supply, is_frozen, allowance, is_expired, is_expiration_valid, consume_allowance,
}
use moistello_contracts.GovernanceToken.Transfers
use moistello_contracts.GovernanceToken.Transfers.{move_balance, transfer, transfer_from, approve}
use moistello_contracts.GovernanceToken.Supply
use moistello_contracts.GovernanceToken.Calls.{Call, apply, step, run, fresh}
use moistello_contracts.GovernanceToken.Conservation.{IsBacked, run-fresh-IsBacked}
use moistello_contracts.GovernanceToken.Authority.{Authorized, apply-Authorized}
use moistello_contracts.GovernanceToken.Freezing.{step_frozen}
use moistello_contracts.GovernanceToken.Effects.{
  HasMoved, HasSpent, transfer-HasMoved, transfer_from-HasMoved,
}
use moistello_contracts.GovernanceToken.Approval.{Lapsed, allowance-approve}
use moistello_contracts.GovernanceToken.Availability.{apply_paused, transfer-Returns}

abbrev env : Env
env = record { authorized = λ a. true; current_contract = 99; sequence = 10; timestamp = 1000 }

-- Account 2 has allowed account 4 to spend 20; account 5 is frozen.
abbrev live : Store
live = record {
  admin = some 1;
  metadata = some (record { decimal = 7; name = "Moistello Governance Token"; symbol = "MOIST" });
  total = some (pos 60);
  balances = some ((2, pos 50) ∷ (3, pos 7) ∷ (5, pos 3) ∷ []);
  allowances = some (((2, 4), record { amount = pos 20; expiration_ledger = 0 }) ∷ []);
  frozen_accounts = some ((5, true) ∷ []);
  allowlist_mode = none;
  allowlist = none;
  paused_flag = none;
  events = [];
}

abbrev halted : Store
halted = record live { paused_flag = some true }

abbrev history : List (Env × Call)
history =
    (env, Call.initialize 1 "Moistello Governance Token" "MOIST" 7)
    ∷ (env, Call.mint 1 2 (pos 50))
    ∷ (env, Call.transfer 2 (record { address = 3; id = none }) (pos 8))
    ∷ (env, Call.approve 2 4 (pos 20) 0)
    ∷ (env, Call.burn_from 4 2 (pos 5))
    ∷ (env, Call.transfer 3 (record { address = 2; id = none }) (pos 100))
    ∷ []

history_balances :
    (balance (run history fresh) 2 ≡ pos 37)
    × (balance (run history fresh) 3 ≡ pos 8)
    × (total_supply (run history fresh) ≡ pos 45)
unfolding run step get set Supply.initialize Supply.mint Supply.mint_balance Supply.burn_from
    Supply.burn_balance Transfers.transfer Transfers.approve Transfers.write_allowance
    Transfers.move_balance checked_add checked_sub ◌+ℤ◌ ◌-ℤ◌ consume_allowance is_expired
    is_expiration_valid
history_balances = (refl, refl, refl)

run-fresh-IsBacked_example : IsBacked (run history fresh)
run-fresh-IsBacked_example = run-fresh-IsBacked history

apply-Authorized_example :
    Post
      (λ s'. Authorized env (Call.mint 1 2 (pos 5)) live)
      (apply env (Call.mint 1 2 (pos 5)) live)
apply-Authorized_example = apply-Authorized env (Call.mint 1 2 (pos 5)) live

step_frozen_example :
    (is_frozen (step env (Call.burn 5 (pos 1)) live) 5 ≡ true)
    × (balance (step env (Call.burn 5 (pos 1)) live) 5 ≡ balance live 5)
unfolding get
step_frozen_example = step_frozen env (Call.burn 5 (pos 1)) live 5 refl refl refl

transfer-HasMoved_example :
    Post
      (λ s'. HasMoved 2 3 (pos 8) live s' × (s'.allowances ≡ live.allowances))
      (transfer env 2 (record { address = 3; id = some 77 }) (pos 8) live)
transfer-HasMoved_example =
    transfer-HasMoved env 2 (record { address = 3; id = some 77 }) (pos 8) live

transfer_from-HasMoved_example :
    Post
      (λ s'. HasMoved 2 3 (pos 8) live s' × HasSpent env 2 4 (pos 8) live s')
      (transfer_from env 4 2 3 (pos 8) live)
transfer_from-HasMoved_example = transfer_from-HasMoved env 4 2 3 (pos 8) live

allowance-approve_example :
    Post
      (λ s'.
        (allowance env s' 2 4 ≡ pos 9)
        × (Lapsed (record env { sequence = 21 }) 20
            → allowance (record env { sequence = 21 }) s' 2 4 ≡ pos 0))
      (approve env 2 4 (pos 9) 20 live)
allowance-approve_example = allowance-approve env (record env { sequence = 21 }) 2 4 (pos 9) 20 live

apply_paused_example : apply env (Call.mint 1 2 (pos 5)) halted ≡ err contract_paused
apply_paused_example = apply_paused env (Call.mint 1 2 (pos 5)) halted refl refl

live-IsBacked : IsBacked live
unfolding ◌+ℤ◌
live-IsBacked = record { supply = refl; nonneg = omega arith; bounded = omega arith }

transfer-Returns_example :
    Returns (λ s'. Unit {0}) (transfer env 2 (record { address = 3; id = none }) (pos 8) live)
unfolding get
transfer-Returns_example =
    transfer-Returns env 2 (record { address = 3; id = none }) (pos 8) live _ live-IsBacked refl
      refl refl refl refl refl refl (omega arith) (omega arith)
