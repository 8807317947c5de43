-- ===== src/Circle/Distribution.antt =====
-- The part of `trigger_payout_internal` of packages/circle/src/contract.rs that pays the pool: the
-- time-weighted shares of a random round, the fee, and the rest to the recipient.
use moistello_contracts.Prelude.{
  ℕ, ℤ, pos, ◌-◌, ◌/◌, ◌&&◌, ◌==◌, ltb, ltb_ℤ, eqb_ℤ, if◌then◌else◌, Option, none, some, List, [],
  ◌∷◌, push_back, saturating_add_u128, saturating_mul_u128, as_u128, as_i128,
}
use moistello_contracts.Soroban.Result
use moistello_contracts.Soroban.Result.{Result, ok, result_or_err}
use moistello_contracts.Soroban.Contract.{
  Address, M, ◌>>=◌, ◌>>◌, pure, gets, lift, or_err, only_if, if_some, if_else,
}
use moistello_contracts.Soroban.Map.{Map, get, get_or, set, address_key}
use moistello_contracts.Common.Math.{safe_add, safe_sub}
use moistello_contracts.Common.TokenTransfer.{client_transfer}
use moistello_contracts.Circle.Types.{
  Circle, Member, Contribution, PayoutRecipient, CircleError, invalid_amount, payout_random, Store,
  Op, circle_ledger,
}
use moistello_contracts.Circle.Contribute.{record_round_fee}
use moistello_contracts.Circle.Externals.{Externals, deposit_protocol_fee}

-- The weight of a round's contributions, in all and by member.
pub record Weights : Type 0 where
  pub total : ℕ
  pub by_member : Map Address ℕ

-- The body of the loop over the contributions. A contribution weighs its amount times its age.
abbrev pub weigh : ℕ → Contribution → Weights → Weights
weigh now c w =
    let weight = saturating_mul_u128 (as_u128 c.amount) (now - c.timestamp) in
    record {
      total = saturating_add_u128 w.total weight;
      by_member =
          set c.member (saturating_add_u128 (get_or 0 c.member w.by_member) weight) w.by_member;
    }

abbrev pub weigh_all : ℕ → ℕ → List Contribution → Weights → Weights
weigh_all now round [] w = w
weigh_all now round (c ∷ cs) w =
    weigh_all now round cs (if c.round == round then weigh now c w else w)

-- The local variables of the loop over the members.
pub record Paid : Type 0 where
  pub distributed : ℤ
  pub payouts : List PayoutRecipient
  pub members : List Member

-- The loop that adds an amount to what the member has received.
unfoldable pub credit_received : Address → ℤ → List Member → Result CircleError (List Member)
credit_received account amount [] = ok []
credit_received account amount (m ∷ members) =
    let rest = credit_received account amount members in
    if m.address == account
    then Result.◌>>=◌ (result_or_err (safe_add m.total_received amount) invalid_amount) (λ received.
      Result.◌>>=◌ rest (λ after. ok (record m { total_received = received } ∷ after)))
    else Result.◌>>=◌ rest (λ after. ok (m ∷ after))

-- A member's share of the net pool, for a weight in a total weight.
abbrev pub share_of : ℤ → ℤ → ℕ → ℕ → ℤ
share_of net distributed weight total =
    if eqb_ℤ distributed (pos 0) && weight == total
    then net
    else as_i128 (saturating_mul_u128 (as_u128 net) weight / total)

module _ {W : Type 0} (x : Externals W) where
  -- One payment of the circle to an account, and its records.
  unfoldable pub pay_account : Circle → ℕ → ℕ → Address → ℤ → Paid → M (Store W) CircleError Paid
  pay_account circle round now account amount paid = do
    client_transfer x.tokens circle.token circle.id account amount
    distributed ← or_err (safe_add paid.distributed amount) invalid_amount
    members ← lift (credit_received account amount paid.members)
    pure (record {
      distributed = distributed;
      payouts = push_back paid.payouts (record {
        recipient = account;
        round = round;
        amount = amount;
        fee = pos 0;
        payout_type = circle.payout_type;
        timestamp = now;
      });
      members = members;
    })

  unfoldable pub pay_positive : Circle → ℕ → ℕ → Address → ℤ → Paid → M (Store W) CircleError Paid
  pay_positive circle round now account amount paid =
      if_else (ltb_ℤ (pos 0) amount) (pay_account circle round now account amount paid) (pure paid)

  -- The body of the loop over the members.
  unfoldable pub pay_share :
      Circle → ℕ → ℕ → ℤ → ℕ → Address → Option ℕ → Paid → M (Store W) CircleError Paid
  pay_share circle round now net total account none paid = pure paid
  pay_share circle round now net total account (some weight) paid =
      if_else (ltb 0 total)
        (pay_positive circle round now account (share_of net paid.distributed weight total) paid)
        (pure paid)

  unfoldable pub pay_shares :
      Circle → ℕ → ℕ → ℤ → Weights → List Member → Paid → M (Store W) CircleError Paid
  pay_shares circle round now net w [] paid = pure paid
  pay_shares circle round now net w (m ∷ members) paid = do
    after ← pay_share circle round now net w.total m.address (get m.address w.by_member) paid
    pay_shares circle round now net w members after

  -- Only a random round is shared out.
  unfoldable pub distribute : Circle → ℕ → ℕ → ℤ → Weights → Paid → M (Store W) CircleError Paid
  distribute circle round now net w paid =
      if_else (circle.payout_type == payout_random)
        (pay_shares circle round now net w paid.members paid) (pure paid)

  unfoldable pub pay_fee : Circle → ℕ → ℤ → Op W
  pay_fee circle round fee = do
    treasury ← gets (λ s. s.treasury)
    if_some treasury (λ to. deposit_protocol_fee x to circle.id fee)
    record_round_fee round fee (pos 0)

  -- What has not been distributed goes to the recipient.
  unfoldable pub pay_dust : Circle → ℕ → ℕ → Address → ℤ → Paid → M (Store W) CircleError Paid
  pay_dust circle round now recipient net paid = do
    dust ← or_err (safe_sub net paid.distributed) invalid_amount
    pay_account circle round now recipient dust paid

  unfoldable pub pay_pool :
      Circle → ℕ → ℕ → Address → ℤ → ℤ → Weights → Paid → M (Store W) CircleError Paid
  pay_pool circle round now recipient net fee w paid = do
    shared ← distribute circle round now net w paid
    only_if (ltb_ℤ (pos 0) fee) (pay_fee circle round fee)
    if_else (ltb_ℤ shared.distributed net) (pay_dust circle round now recipient net shared)
        (pure shared)
