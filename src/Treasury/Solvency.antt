-- ===== src/Treasury/Solvency.antt =====
-- The treasury of packages/treasury/src/contract.rs over any history of calls.
use moistello_contracts.Prelude.{
  ℤ, pos, ◌+ℤ◌, ◌-ℤ◌, ◌≤ℤ◌, ◌≡◌, ◌≢◌, refl, sym, subst, false, not, ◌==◌, ==_iff, leb_ℤ, Option,
  none, some, List, [], ◌∷◌, int_laws, arith, Bool-cases, inl, inr,
}
use moistello_contracts.Soroban.Contract.{Address, Env, ◌>>=◌, ◌>>◌, only_if, fail_if, load}
use moistello_contracts.Soroban.Outcome.{Post, commit_keeps}
use moistello_contracts.Soroban.Keeps.{
  Keeps, keeping, Keeps-bind, Keeps-map_err, Keeps-fail_if, Keeps-gets, Keeps-only_if, Keeps-unless,
}
use moistello_contracts.Soroban.Turns.{
  Turns, Keeps-Turns, Keeps-through, Turns-first, Turns-through, Turns-Keeps, Turns-both,
  Turns-known, Turns-weaken,
}
use moistello_contracts.Soroban.Yields.{Each}
use moistello_contracts.Common.Pause.{Keeps-when_not_paused}
use moistello_contracts.Common.Pause
use moistello_contracts.Common.Reentrancy.{Keeps-guarded}
use moistello_contracts.Common.TokenTransfer.{
  TokenLedger, IsStandard, client_transfer, Keeps-client_transfer, settle,
}
use moistello_contracts.Treasury.Types.{
  TreasuryError, TreasuryEvent, contract_not_paused, invalid_amount, not_initialized, Store,
  treasury_pause, treasury_lock, treasury_ledger, publish, tokens_rescued,
}
use moistello_contracts.Treasury.Ledger.{
  when_not_paused, require_admin, require_balance, spend, credit, debit, balance_of, is_paused,
  log_deposit, log_withdrawal,
}
use moistello_contracts.Treasury.Ledger
use moistello_contracts.Treasury.Calls.{Call, apply, step, run}
use moistello_contracts.Treasury.Reserves.{
  IsBacked, IsBackedBy, credit-IsBacked, debit-IsBackedBy, require_balance-IsEnough, IsBacked-zero,
  pay-IsBackedBy, take-IsBackedBy,
}

-- A deposit is not from the treasury itself.
abbrev pub IsForeign : Address → Call → Type 0
IsForeign self (Call.deposit from amount circle_id) = from ≢ self
IsForeign self c = Unit

module _ {W : Type 0} (t : TokenLedger W) (standard : IsStandard t) (token : Address)
    (env : Env) where
  abbrev Backed : Store W → Type 0
  Backed = IsBacked t token env.current_contract

  keeps_pause : {P : Store W → Type 0} → Keeps P when_not_paused
  unfolding when_not_paused
  keeps_pause = Keeps-map_err _ Keeps-when_not_paused

  keeps_admin : {P : Store W → Type 0} (admin : Address) → Keeps P (require_admin env admin)
  unfolding require_admin
  keeps_admin admin = search keeping depth 8

  log_deposit-Keeps :
      (from circle_id : Address) (amount : ℤ) → Keeps Backed (log_deposit env from amount circle_id)
  unfolding log_deposit
  log_deposit-Keeps from circle_id amount = search keeping depth 6

  log_withdrawal-Keeps :
      (admin to : Address) (amount : ℤ) → Keeps Backed (log_withdrawal env admin to amount)
  unfolding log_withdrawal
  log_withdrawal-Keeps admin to amount = search keeping depth 6

  deposit-IsBacked :
      (from circle_id : Address) (amount : ℤ)
      → from ≢ env.current_contract
      → Keeps Backed (Ledger.deposit t env from amount circle_id)
  unfolding Ledger.deposit
  deposit-IsBacked from circle_id amount other = Keeps-bind keeps_pause λ _.
      Keeps-bind (Keeps-fail_if _ _) λ _. Keeps-unless (leb_ℤ amount (pos 0)) _ _ λ positive.
        Turns-Keeps (
          Turns-known (λ s. s.token) _ _ token (λ s h. h.0)
            (Turns-through _
              (take-IsBackedBy t token env.current_contract standard from amount other)
              λ _.
                Turns-first _ (credit-IsBacked t token env.current_contract amount (ground arith))
                  λ _. log_deposit-Keeps from circle_id amount))

  settled :
      (amount : ℤ) (s : Store W)
      → IsBackedBy t token env.current_contract (amount +ℤ (pos 0 -ℤ amount)) s
      → Backed s
  settled amount s h = (h.0, (h.1.0, grind (int_laws, h.1.1)))

  withdraw-IsBacked :
      (admin to : Address) (amount : ℤ) → Keeps Backed (Ledger.withdraw t env admin to amount)
  unfolding Ledger.withdraw
  withdraw-IsBacked admin to amount = Keeps-bind keeps_pause λ _.
      Keeps-guarded _ (λ b s h. h)
        (Keeps-bind (keeps_admin admin) λ _. Keeps-unless (leb_ℤ amount (pos 0)) _ _ λ positive.
          Turns-Keeps (
            Turns-through _
              (Turns-weaken (λ s h. (IsBacked-zero t token env.current_contract s h.0, h.1))
                (require_balance-IsEnough t token env.current_contract amount Backed))
              λ _.
                Turns-known (λ s. s.token) _ _ token (λ s h. h.0.0)
                  (Turns-through _
                    (Turns-both
                      (pay-IsBackedBy t token env.current_contract standard to amount (pos 0)
                        (ground arith))
                      (Keeps-client_transfer t token env.current_contract to amount (λ w s h. h)))
                    λ _.
                      Turns-first _
                        (Turns-weaken (settled amount)
                          (debit-IsBackedBy t token env.current_contract amount (pos 0 -ℤ amount)))
                        (λ _. log_withdrawal-Keeps admin to amount))))

  spend-IsBackedBy :
      (amount : ℤ)
      → Turns Backed (IsBackedBy t token env.current_contract (amount +ℤ pos 0)) (spend amount)
  unfolding spend
  spend-IsBackedBy amount =
      Turns-through _
        (Turns-weaken (λ s h. (IsBacked-zero t token env.current_contract s h.0, h.1))
          (require_balance-IsEnough t token env.current_contract amount Backed))
        λ _. debit-IsBackedBy t token env.current_contract amount (pos 0)

  paid :
      (to : Address) (amount : ℤ)
      → pos 0 ≤ℤ amount
      → Turns {E = TreasuryError}
          (IsBackedBy t token env.current_contract (amount +ℤ pos 0))
          Backed
          (client_transfer t token env.current_contract to amount)
  paid to amount positive =
      Turns-weaken (λ s h. (h.0, (h.1.0, grind (int_laws, h.1.1))))
        (pay-IsBackedBy t token env.current_contract standard to amount (amount +ℤ pos 0) positive)

  -- The rescue of another token leaves the treasury's alone.
  paid_other :
      (to other : Address) (amount : ℤ)
      → other ≢ token
      → Keeps {E = TreasuryError} Backed (client_transfer t other env.current_contract to amount)
  paid_other to other amount distinct = record {
    holds = λ s h. by_outcome s h (t.transfer other env.current_contract to amount s.tokens) refl;
  }
    where
      by_outcome :
          (s : Store W)
          → Backed s
          → (o : Option W) → t.transfer other env.current_contract to amount s.tokens ≡ o
          → Post {E = TreasuryError} Backed (settle o s)
      by_outcome s h none moved = tt
      by_outcome s h (some w) moved =
          let kept =
            standard.transfer_other_tokens other token env.current_contract to env.current_contract
              amount s.tokens w (λ e. distinct (sym e)) moved in
          (h.0, (h.1.0, rw kept h.1.1))

  published : (e : TreasuryEvent) → Keeps {S = Store W} Backed (publish e)
  published e = search keeping depth 3

  -- An amount of any token is paid out, of the treasury's own only against the recorded balance.
  rescued :
      (to other : Address) (amount : ℤ)
      → pos 0 ≤ℤ amount
      → Keeps {S = Store W} {E = TreasuryError} Backed (do
        only_if (token == other) (spend amount)
        client_transfer t other env.current_contract to amount
        publish (tokens_rescued to other amount))
  rescued to other amount positive = elim (Bool-cases (token == other)) [
    | inl same ↦
        let e : token ≡ other = (==_iff token other).0 same in
        rw same (
          Keeps-through _ (spend-IsBackedBy amount) (λ _.
            Turns-first _
              (subst
                (λ a.
                  Turns {E = TreasuryError}
                    (IsBackedBy t token env.current_contract (amount +ℤ pos 0)) Backed
                    (client_transfer t a env.current_contract to amount))
                e (paid to amount positive))
              (λ _. published (tokens_rescued to other amount))))
    | inr different ↦ rw different (
        Keeps-bind {m = only_if false (spend amount)}
          (Keeps-only_if false {m = spend amount} (λ e. cc))
          λ _.
            Keeps-bind (paid_other to other amount (λ e. ground (arith, e)))
              (λ _. published (tokens_rescued to other amount)))
  ]

  rescue_checked :
      (to other : Address) (amount : ℤ)
      → Keeps {S = Store W} {E = TreasuryError} Backed (do
        fail_if (leb_ℤ amount (pos 0)) invalid_amount
        own ← load (λ s. s.token) not_initialized
        only_if (own == other) (spend amount)
        client_transfer t other env.current_contract to amount
        publish (tokens_rescued to other amount))
  rescue_checked to other amount = Keeps-unless (leb_ℤ amount (pos 0)) invalid_amount _ λ positive.
      Turns-Keeps (
        Turns-known (λ s. s.token) not_initialized
          (λ own. do
            only_if (own == other) (spend amount)
            client_transfer t other env.current_contract to amount
            publish (tokens_rescued to other amount))
          token (λ s h. h.0) (Keeps-Turns (rescued to other amount (ground arith))))

  rescue_tokens-IsBacked :
      (admin to other : Address) (amount : ℤ)
      → Keeps Backed (Ledger.rescue_tokens t env admin to other amount)
  unfolding Ledger.rescue_tokens
  rescue_tokens-IsBacked admin to other amount = Keeps-bind (keeps_admin admin) λ _.
      Keeps-guarded _ (λ b s h. h)
        (Keeps-bind (Keeps-gets is_paused) λ paused.
          Keeps-bind (Keeps-fail_if (not paused) contract_not_paused)
            (λ _. rescue_checked to other amount))

  pub apply-IsBacked : (c : Call) → IsForeign env.current_contract c → Keeps Backed (apply t env c)
  unfolding apply Ledger.pause Ledger.unpause Pause.pause Pause.unpause
  apply-IsBacked (Call.deposit from amount circle_id) foreign =
      deposit-IsBacked from circle_id amount foreign
  apply-IsBacked (Call.withdraw admin to amount) foreign = withdraw-IsBacked admin to amount
  apply-IsBacked (Call.rescue_tokens admin to other amount) foreign =
      rescue_tokens-IsBacked admin to other amount
  apply-IsBacked c foreign = search keeping depth 14

abbrev pub IsOn : Address → Env × Call → Type 0
IsOn self call = (call.0.current_contract ≡ self) × IsForeign self call.1

module _ {W : Type 0} (t : TokenLedger W) (standard : IsStandard t) (token self : Address) where
  -- However the treasury is called after its initialization, failed calls included, if the token
  -- contract keeps to its interface and no deposit names the treasury itself as the payer: from a
  -- storage whose recorded balance is not negative and is covered by the tokens that the treasury
  -- holds, it reaches only such storages, whatever is withdrawn or rescued.
  pub run-IsBacked :
      (cs : List (Env × Call)) (s : Store W)
      → Each (IsOn self) cs
      → IsBacked t token self s
      → IsBacked t token self (run t cs s)
  unfolding run step
  run-IsBacked [] s on h = h
  run-IsBacked ((env, c) ∷ cs) s on h = run-IsBacked cs (step t env c s) on.1 (
      commit_keeps (IsBacked t token self) s (apply t env c s) h (
        (subst (λ a. Keeps (IsBacked t token a) (apply t env c)) on.0.0
            (apply-IsBacked t standard token env c
              (subst (λ a. IsForeign a c) (sym on.0.0) on.0.1))).holds
          s h))
