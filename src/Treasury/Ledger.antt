-- ===== src/Treasury/Ledger.antt =====
-- packages/treasury/src/contract.rs.
use moistello_contracts.Prelude.{
  ℤ, pos, Bool, not, ◌==◌, ltb_ℤ, leb_ℤ, some, List, [], push_back, checked_add, checked_sub,
}
use moistello_contracts.Soroban.Contract.{
  Address, Env, ◌>>=◌, ◌>>◌, load, gets, modify, fail_if, ok_or, or_err, map_err, only_if,
  require_auth, unwrap_or,
}
use moistello_contracts.Common.Access.{require_self_or_admin}
use moistello_contracts.Common.Pause
use moistello_contracts.Common.Reentrancy.{guarded}
use moistello_contracts.Common.TokenTransfer.{TokenLedger, client_transfer}
use moistello_contracts.Treasury.Types.{
  Deposit, not_initialized, unauthorized, contract_paused, insufficient_balance, invalid_amount,
  contract_not_paused, fee_deposited, funds_withdrawn, tokens_rescued, Store, Op, publish,
  treasury_pause, treasury_lock, treasury_ledger,
}

module _ {W : Type 0} where
  unfoldable pub when_not_paused : Op W
  when_not_paused = map_err (λ _. contract_paused) Pause.when_not_paused

  unfoldable pub require_admin : Env → Address → Op W
  require_admin env admin = do
    stored ← load (λ s. s.admin) not_initialized
    fail_if (not (admin == stored)) unauthorized
    require_auth env admin

  unfoldable pub init : Env → Address → Address → Op W
  init env admin token = do
    require_auth env admin
    modify (λ s. record s {
      admin = some admin;
      token = some token;
      balance = some (pos 0);
      deposits = some [];
      withdrawals = some [];
    })

  unfoldable pub get_balance : Store W → ℤ
  get_balance s = unwrap_or (pos 0) s.balance

  unfoldable pub get_deposits : Store W → List Deposit
  get_deposits s = unwrap_or [] s.deposits

  abbrev pub balance_of : Store W → ℤ
  balance_of s = unwrap_or (pos 0) s.balance

  -- The recorded balance with an amount added, or taken.
  unfoldable pub credit : ℤ → Op W
  credit amount = do
    bal ← gets balance_of
    raised ← ok_or (checked_add bal amount) invalid_amount
    modify (λ s. record s { balance = some raised })

  unfoldable pub debit : ℤ → Op W
  debit amount = do
    bal ← gets balance_of
    lowered ← ok_or (checked_sub bal amount) insufficient_balance
    modify (λ s. record s { balance = some lowered })

  unfoldable pub require_balance : ℤ → Op W
  require_balance amount s = fail_if (ltb_ℤ (balance_of s) amount) insufficient_balance s

  unfoldable pub spend : ℤ → Op W
  spend amount = do require_balance amount; debit amount

  unfoldable pub pause : Env → Address → Op W
  pause env a = do
    stored ← load (λ s. s.admin) not_initialized
    or_err (require_self_or_admin env a stored) unauthorized >>= λ _.
        map_err (λ _. contract_paused) (Pause.pause env a)

  unfoldable pub unpause : Env → Address → Op W
  unpause env a = do
    stored ← load (λ s. s.admin) not_initialized
    or_err (require_self_or_admin env a stored) unauthorized >>= λ _.
        map_err (λ _. contract_paused) (Pause.unpause env a)

  unfoldable pub is_paused : Store W → Bool
  is_paused s = Pause.is_paused s

  unfoldable pub log_deposit : Env → Address → ℤ → Address → Op W
  log_deposit env from amount circle_id = do
    modify (λ s. record s {
      deposits = some (
          push_back (unwrap_or [] s.deposits) (record {
            from = from;
            amount = amount;
            circle_id = circle_id;
            timestamp = env.timestamp;
          }));
    })
    publish (fee_deposited from amount circle_id)

  unfoldable pub log_withdrawal : Env → Address → Address → ℤ → Op W
  log_withdrawal env admin to amount = do
    modify (λ s. record s {
      withdrawals = some (
          push_back (unwrap_or [] s.withdrawals)
            (record { admin = admin; to = to; amount = amount; timestamp = env.timestamp }));
    })
    publish (funds_withdrawn to amount)

module _ {W : Type 0} (t : TokenLedger W) where
  unfoldable pub deposit : Env → Address → ℤ → Address → Op W
  deposit env from amount circle_id = do
    when_not_paused
    fail_if (not (from == circle_id)) unauthorized
    fail_if (leb_ℤ amount (pos 0)) invalid_amount
    token ← load (λ s. s.token) not_initialized
    client_transfer t token from env.current_contract amount
    credit amount
    log_deposit env from amount circle_id

  unfoldable pub withdraw : Env → Address → Address → ℤ → Op W
  withdraw env admin to amount = do
    when_not_paused
    guarded unauthorized (do
      require_admin env admin
      fail_if (leb_ℤ amount (pos 0)) invalid_amount
      require_balance amount
      token ← load (λ s. s.token) not_initialized
      client_transfer t token env.current_contract to amount
      debit amount
      log_withdrawal env admin to amount)

  unfoldable pub rescue_tokens : Env → Address → Address → Address → ℤ → Op W
  rescue_tokens env admin to token amount = do
    require_admin env admin
    guarded unauthorized (do
      paused ← gets is_paused
      fail_if (not paused) contract_not_paused
      fail_if (leb_ℤ amount (pos 0)) invalid_amount
      treasury_token ← load (λ s. s.token) not_initialized
      only_if (treasury_token == token) (spend amount)
      client_transfer t token env.current_contract to amount
      publish (tokens_rescued to token amount))
