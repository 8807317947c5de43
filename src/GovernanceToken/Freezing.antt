-- ===== src/GovernanceToken/Freezing.antt =====
-- Frozen accounts of packages/governance-token/src/contract.rs.
use Prim.Native.String.{String}
use moistello_contracts.Prelude.{
  ℕ, ◌≡◌, refl, ℤ, pos, Bool, true, false, some, arith, ◌==◌, Bool-cases, inl, inr, ◌∙◌, ltb_ℤ,
  checked_add, checked_sub,
}
use moistello_contracts.Soroban.Contract.{Address, Env, M, ◌>>=◌, unwrap_or}
use moistello_contracts.Soroban.Outcome.{after_fail_if, after_ok_or, commit_keeps}
use moistello_contracts.Soroban.Keeps.{Keeps, keeping}
use moistello_contracts.Soroban.Map.{Map, set, get_or, get_or-set, address_key}
use moistello_contracts.Common.Pause
use moistello_contracts.Common.Pause.{Keeps-when_not_paused}
use moistello_contracts.GovernanceToken.Types.{Store, TokenError}
use moistello_contracts.GovernanceToken.Views.{
  is_initialized, is_frozen, balance, validate_non_frozen, consume_allowance,
}
use moistello_contracts.GovernanceToken.Transfers
use moistello_contracts.GovernanceToken.Transfers.{move_balance}
use moistello_contracts.GovernanceToken.Supply
use moistello_contracts.GovernanceToken.Supply.{mint_balance, burn_balance}
use moistello_contracts.GovernanceToken.Admin
use moistello_contracts.GovernanceToken.Calls.{Call, apply, step}

-- The token is initialized, and the account is frozen with this balance.
abbrev pub IsHeld : Address → ℤ → Store → Type 0
IsHeld account held s =
    (is_initialized s ≡ true) × (is_frozen s account ≡ true) × (balance s account ≡ held)

-- The calls that leave a frozen account alone: all but a clawback and the lifting of a freeze.
abbrev pub spares_frozen : Call → Bool
spares_frozen (Call.clawback admin from amount) = false
spares_frozen (Call.unfreeze admin account) = false
spares_frozen c = true

module _ (account : Address) (held : ℤ) where
  -- What follows the guard on an account may use that it is not the frozen one.
  Keeps-non_frozen :
      {B : Type 0} (a : Address) (k : Unit {0} → M Store TokenError B)
      → ((a == account) ≡ false → Keeps (IsHeld account held) (k tt))
      → Keeps (IsHeld account held) (validate_non_frozen a >>= k)
  Keeps-non_frozen a k h = record {
    holds = λ s p. after_fail_if _ (is_frozen s a) _ k s λ open_account.
        (h (elim (Bool-cases (a == account)) [
          | inl same ↦
              let e : a ≡ account = ground arith in
              let clash : is_frozen s account ≡ false = rw e at open_account in cc
          | inr other ↦ other
        ])).holds
          s p;
  }

  get_or_other :
      (a : Address) (v : ℤ) (m : Map Address ℤ)
      → (a == account) ≡ false
      → get_or (pos 0) account (set a v m) ≡ get_or (pos 0) account m
  get_or_other a v m other = rw (get_or-set (pos 0) a account v m) (rw other)

  move_balance-IsHeld :
      (from to : Address) (amount : ℤ)
      → (from == account) ≡ false
      → (to == account) ≡ false
      → Keeps (IsHeld account held) (move_balance from to amount)
  unfolding move_balance
  move_balance-IsHeld from to amount f t = record {
    holds = λ s p. after_ok_or _ s.balances _ _ s λ m found.
        after_fail_if _ (ltb_ℤ (get_or (pos 0) from m) amount) _ _ s λ covered.
          after_ok_or _ (checked_sub (get_or (pos 0) from m) amount) _ _ s λ left taken.
            after_ok_or _ (checked_add (get_or (pos 0) to (set from left m)) amount) _ _ s
              λ new given.
                let before : get_or (pos 0) account m ≡ held = rw found at p.2 in
                (
                  p.0,
                  p.1,
                  get_or_other to new (set from left m) t ∙ get_or_other from left m f ∙ before,
                );
  }

  mint_balance-IsHeld :
      (to : Address) (amount : ℤ)
      → (to == account) ≡ false
      → Keeps (IsHeld account held) (mint_balance to amount)
  unfolding mint_balance
  mint_balance-IsHeld to amount t = record {
    holds = λ s p. after_ok_or _ s.balances _ _ s λ m found.
        after_ok_or _ (checked_add (get_or (pos 0) to m) amount) _ _ s λ new given.
          after_ok_or _ (checked_add (unwrap_or (pos 0) s.total) amount) _ _ _ λ total raised.
            let before : get_or (pos 0) account m ≡ held = rw found at p.2 in
            (p.0, p.1, get_or_other to new m t ∙ before);
  }

  burn_balance-IsHeld :
      (from : Address) (amount : ℤ)
      → (from == account) ≡ false
      → Keeps (IsHeld account held) (burn_balance from amount)
  unfolding burn_balance
  burn_balance-IsHeld from amount f = record {
    holds = λ s p. after_ok_or _ s.balances _ _ s λ m found.
        after_fail_if _ (ltb_ℤ (get_or (pos 0) from m) amount) _ _ s λ covered.
          after_ok_or _ (checked_sub (get_or (pos 0) from m) amount) _ _ s λ left taken.
            after_ok_or _ (checked_sub (unwrap_or (pos 0) s.total) amount) _ _ _ λ total lowered.
              let before : get_or (pos 0) account m ≡ held = rw found at p.2 in
              (p.0, p.1, get_or_other from left m f ∙ before);
  }

  ruleset holding = (
    keeping, Keeps-when_not_paused, Keeps-non_frozen, move_balance-IsHeld, mint_balance-IsHeld,
    burn_balance-IsHeld,
  )

  consume_allowance-IsHeld :
      (env : Env) (from spender : Address) (amount : ℤ)
      → Keeps (IsHeld account held) (consume_allowance env from spender amount)
  unfolding consume_allowance
  consume_allowance-IsHeld env from spender amount = search holding depth 14

  freeze-IsHeld : (other : Address) → Keeps (IsHeld account held) (Admin.write_frozen other true)
  unfolding Admin.write_frozen
  freeze-IsHeld other = record {
    holds = λ s p. after_ok_or _ s.frozen_accounts _ _ s λ m found.
        let before : get_or false account m ≡ true = rw found at p.1 in
        (p.0, rw (get_or-set false other account true m) (ground arith), p.2);
  }

  new_admin-IsHeld :
      (new_admin : Address) (s : Store)
      → IsHeld account held s
      → IsHeld account held (record s { admin = some new_admin })
  new_admin-IsHeld new_admin s p = (refl, p.1, p.2)

  initialize-IsHeld :
      (admin : Address) (name symbol : String) (decimals : ℕ)
      → Keeps (IsHeld account held) (Supply.initialize admin name symbol decimals)
  unfolding Supply.initialize
  initialize-IsHeld admin name symbol decimals = record {
    holds = λ s p. after_fail_if _ (is_initialized s) _ _ s λ first. cc;
  }

  apply-IsHeld :
      (env : Env) (c : Call) → spares_frozen c ≡ true → Keeps (IsHeld account held) (apply env c)
  unfolding Transfers.transfer Transfers.transfer_from Transfers.approve Supply.mint Supply.burn
      Supply.burn_from Supply.admin_burn_from Supply.clawback Admin.freeze Admin.set_admin
      Admin.pause Admin.unpause Admin.set_allowlist_mode Admin.add_to_allowlist
      Admin.remove_from_allowlist Transfers.write_allowance Pause.pause Pause.unpause
  apply-IsHeld env (Call.initialize admin name symbol decimals) i =
      initialize-IsHeld admin name symbol decimals
  apply-IsHeld env (Call.clawback admin from amount) i = cc
  apply-IsHeld env (Call.unfreeze admin other) i = cc
  apply-IsHeld env c i =
      search (holding, consume_allowance-IsHeld, freeze-IsHeld, new_admin-IsHeld) depth 26

-- While the token is initialized, a frozen account stays frozen and keeps its balance under every
-- call but a clawback and an unfreeze, whoever makes the call and whether or not it succeeds.
pub step_frozen :
    (env : Env) (c : Call) (s : Store) (account : Address)
    → spares_frozen c ≡ true
    → is_initialized s ≡ true
    → is_frozen s account ≡ true
    → (is_frozen (step env c s) account ≡ true)
      × (balance (step env c s) account ≡ balance s account)
unfolding step
step_frozen env c s account spared ready held =
    let after =
      commit_keeps (IsHeld account (balance s account)) s (apply env c s) (ready, held, refl)
        ((apply-IsHeld account (balance s account) env c spared).holds s (ready, held, refl)) in
    (after.1, after.2)
