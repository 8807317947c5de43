-- ===== src/GovernanceToken/Availability.antt =====
-- When the calls of packages/governance-token/src/contract.rs go through, and when they are refused.
use moistello_contracts.Prelude.{
  ◌≡◌, ℤ, pos, ◌≤ℤ◌, ◌<ℤ◌, ◌+ℤ◌, ◌-ℤ◌, Bool, true, false, some, arith, int_laws, ◌==◌, ◌&&◌, not,
  i128_max, ltb_ℤ, leb_ℤ, checked_add, checked_sub, checked_add-some, checked_sub-some,
  InI128-nonneg, ap, pos_part, neg_part,
}
use moistello_contracts.Soroban.Result.{err}
use moistello_contracts.Soroban.Contract.{Address, Env, M, fail_if, unwrap_or, ◌>>=◌}
use moistello_contracts.Soroban.Outcome.{Returns, past_fail_if, past_require, past_ok_or, past_call}
use moistello_contracts.Soroban.Map.{Map, set, get_or, get_or_bounds, sum, address_key}
use moistello_contracts.GovernanceToken.Types.{Store, TokenError, contract_paused, MuxedAddress}
use moistello_contracts.GovernanceToken.Views.{
  is_frozen, balance, total_supply, is_allowlist_mode_enabled, is_allowlisted, when_not_paused,
}
use moistello_contracts.GovernanceToken.Transfers
use moistello_contracts.GovernanceToken.Transfers.{transfer, move_balance}
use moistello_contracts.GovernanceToken.Supply
use moistello_contracts.GovernanceToken.Admin
use moistello_contracts.GovernanceToken.Calls.{Call, apply}
use moistello_contracts.GovernanceToken.Conservation.{IsBacked, Backed, Backed-debit}

abbrev pub is_paused : Store → Bool
is_paused s = unwrap_or false s.paused_flag

-- The calls that the emergency stop refuses.
abbrev pub is_stoppable : Call → Bool
is_stoppable (Call.initialize admin name symbol decimals) = false
is_stoppable (Call.pause admin) = false
is_stoppable (Call.unpause admin) = false
is_stoppable c = true

stopped :
    {A : Type 0} (f : Unit {0} → M Store TokenError A) (s : Store)
    → is_paused s ≡ true
    → (when_not_paused >>= f) s ≡ err contract_paused
stopped f s h = rw (h, fail_if)

-- While the token is paused every call but `initialize`, `pause` and `unpause` is refused with the
-- error that says so, whoever makes it and whatever its arguments.
pub apply_paused :
    (env : Env) (c : Call) (s : Store)
    → is_stoppable c ≡ true
    → is_paused s ≡ true
    → apply env c s ≡ err contract_paused
unfolding Transfers.transfer Transfers.transfer_from Transfers.approve Supply.mint Supply.burn
    Supply.burn_from Supply.admin_burn_from Supply.clawback Admin.freeze Admin.unfreeze
    Admin.set_admin Admin.set_allowlist_mode Admin.add_to_allowlist Admin.remove_from_allowlist
apply_paused env (Call.initialize admin name symbol decimals) s i h = cc
apply_paused env (Call.pause admin) s i h = cc
apply_paused env (Call.unpause admin) s i h = cc
apply_paused env c s i h = stopped _ s h

past_live :
    (Q : Store → Type 0) (f : Unit {0} → M Store TokenError (Unit {0})) (s : Store)
    → is_paused s ≡ false
    → Returns Q (f tt s)
    → Returns Q ((when_not_paused >>= f) s)
past_live Q f s live h = rw (live, fail_if) h

within_total :
    (m : Map Address ℤ) (total : ℤ) → Backed m total → (sum m ≤ℤ total) × (total ≤ℤ pos i128_max)
within_total m total b = (omega (arith, ap pos_part b.supply, ap neg_part b.supply), b.bounded)

-- In a backed store a covered amount can always be moved: no arithmetic check fails.
move_balance-Returns :
    (s : Store) (m : Map Address ℤ) (from to : Address) (amount : ℤ)
    → IsBacked s
    → s.balances ≡ some m
    → pos 0 ≤ℤ amount
    → amount ≤ℤ balance s from
    → Returns (λ s'. Unit {0}) (move_balance from to amount s)
unfolding move_balance
move_balance-Returns s m from to amount b found positive covered =
    let backed : Backed m (total_supply s) = rw found at b in
    let enough : amount ≤ℤ get_or (pos 0) from m = rw found at covered in
    let left = get_or (pos 0) from m -ℤ amount in
    let low = get_or_bounds from m backed.nonneg in
    let taken : checked_sub (get_or (pos 0) from m) amount ≡ some left = checked_sub-some _ amount (
      InI128-nonneg left (omega (int_laws, enough))
        (omega (int_laws, low, within_total m (total_supply s) backed))) in
    let debited =
      Backed-debit from amount left m (total_supply s) backed positive (ground arith) taken in
    let high = get_or_bounds to (set from left m) debited.nonneg in
    let room = within_total (set from left m) _ debited in
    past_ok_or _ s.balances _ _ s m found (
      past_fail_if _ (ltb_ℤ (get_or (pos 0) from m) amount) _ _ s (ground arith) (
        past_ok_or _ (checked_sub (get_or (pos 0) from m) amount) _ _ s left taken (
          past_ok_or _ (checked_add (get_or (pos 0) to (set from left m)) amount) _ _ s
            (get_or (pos 0) to (set from left m) +ℤ amount)
            (checked_add-some _ amount (
              InI128-nonneg _ (omega (int_laws, high))
                (omega (int_laws, high, room, backed.bounded))))
            tt)))

-- A transfer between accounts goes through whenever the token is running, the sender has authorized
-- it, the recipient is not the token contract, neither account is frozen, the allowlist (if it is
-- on) has the recipient, and the amount is positive and covered: in a store whose supply is backed
-- no arithmetic check stands in the way.
pub transfer-Returns :
    (env : Env) (from : Address) (to : MuxedAddress) (amount : ℤ) (s : Store) (m : Map Address ℤ)
    → IsBacked s
    → s.balances ≡ some m
    → is_paused s ≡ false
    → env.authorized from ≡ true
    → (to.address == env.current_contract) ≡ false
    → is_frozen s from ≡ false
    → is_frozen s to.address ≡ false
    → (is_allowlist_mode_enabled s && not (is_allowlisted s to.address)) ≡ false
    → pos 0 <ℤ amount
    → amount ≤ℤ balance s from
    → Returns (λ s'. Unit {0}) (transfer env from to amount s)
unfolding transfer
transfer-Returns env from to amount s m b found live agreed apart ff ft listed positive covered =
    past_live _ _ s live (
      past_require _ (env.authorized from) _ s agreed (
        past_fail_if _ (to.address == env.current_contract) _ _ s apart (
          past_fail_if _ (is_frozen s from) _ _ s ff (
            past_fail_if _ (is_frozen s to.address) _ _ s ft (
              past_fail_if _ (is_allowlist_mode_enabled s && not (is_allowlisted s to.address)) _ _
                s listed
                (past_fail_if _ (leb_ℤ amount (pos 0)) _ _ s (ground arith) (
                  past_call _ (move_balance from to.address amount s) _
                    (move_balance-Returns s m from to.address amount b found (omega arith) covered)
                    (λ u s'. tt))))))))
