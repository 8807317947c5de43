-- ===== src/Circle/Fixed.antt =====
-- The parts of a payout of packages/circle/src/contract.rs that leave the stored circle alone.
use moistello_contracts.Prelude.{
  ℕ, ℤ, Option, none, some, List, [], ◌∷◌, ◌==◌, Bool-cases, inl, inr,
}
use moistello_contracts.Soroban.Contract.{Address, Env, lift}
use moistello_contracts.Soroban.Result.{Result}
use moistello_contracts.Soroban.Outcome.{Post}
use moistello_contracts.Soroban.Keeps.{
  Keeps, keeping, Keeps-map_err, Keeps-bind, Keeps-only_if, Keeps-lift, Keeps-throw,
}
use moistello_contracts.Soroban.Map.{get, address_key}
use moistello_contracts.Common.Pause.{Keeps-when_not_paused}
use moistello_contracts.Common.TokenTransfer.{client_transfer, settle, Keeps-client_transfer}
use moistello_contracts.Circle.Types.{
  Circle, Member, CircleError, Store, circle_ledger, circle_pause, member_active,
}
use moistello_contracts.Circle.Contribute.{when_not_paused, record_round_fee}
use moistello_contracts.Circle.Resolve.{resolve_recipient, resolve_random}
use moistello_contracts.Circle.Externals.{
  Externals, use_fallback, ask_fallback, use_primary, ask_primary, get_yield_rate,
  deposit_protocol_fee,
}
use moistello_contracts.Circle.Distribution.{
  Weights, Paid, pay_account, pay_positive, pay_share, pay_shares, distribute, pay_fee, pay_dust,
  pay_pool,
}
use moistello_contracts.Circle.Settlement.{
  check_round, check_awaited, return_collateral, record_completions, complete,
}

module _ {W : Type 0} (x : Externals W) (C : Option Circle → Type 0) where
  -- A property of the stored circle alone.
  abbrev pub OnCircle : Store W → Type 0
  OnCircle s = C s.circle

  transfer-Keeps :
      (token from to : Address) (amount : ℤ)
      → Keeps {E = CircleError} OnCircle (client_transfer x.tokens token from to amount)
  transfer-Keeps token from to amount =
      Keeps-client_transfer x.tokens token from to amount (λ w s h. h)

  use_fallback-Keeps :
      (round : ℕ) (primary fallback : Address) (o : Option ℤ)
      → Keeps OnCircle (use_fallback x round primary fallback o)
  unfolding use_fallback
  use_fallback-Keeps round primary fallback none = record { holds = λ s h. tt }
  use_fallback-Keeps round primary fallback (some rate) = record { holds = λ s h. h }

  ask_fallback-Keeps :
      (round : ℕ) (primary : Address) (o : Option Address)
      → Keeps OnCircle (ask_fallback x round primary o)
  unfolding ask_fallback
  ask_fallback-Keeps round primary none = record { holds = λ s h. tt }
  ask_fallback-Keeps round primary (some fallback) = record {
    holds = λ s.
        (use_fallback-Keeps round primary fallback (x.yield_rate fallback round s.tokens)).holds s;
  }

  use_primary-Keeps :
      (round : ℕ) (primary : Address) (o : Option ℤ)
      → Keeps OnCircle (use_primary x round primary o)
  unfolding use_primary
  use_primary-Keeps round primary none = record {
    holds = λ s. (ask_fallback-Keeps round primary s.fallback_oracle).holds s;
  }
  use_primary-Keeps round primary (some rate) = record { holds = λ s h. h }

  ask_primary-Keeps : (round : ℕ) (o : Option Address) → Keeps OnCircle (ask_primary x round o)
  unfolding ask_primary
  ask_primary-Keeps round none = record { holds = λ s h. h }
  ask_primary-Keeps round (some primary) = record {
    holds = λ s. (use_primary-Keeps round primary (x.yield_rate primary round s.tokens)).holds s;
  }

  pub get_yield_rate-Keeps : (round : ℕ) → Keeps OnCircle (get_yield_rate x round)
  unfolding get_yield_rate
  get_yield_rate-Keeps round = search (keeping, ask_primary-Keeps) depth 4

  pay_account-Keeps :
      (circle : Circle) (round now : ℕ) (account : Address) (amount : ℤ) (paid : Paid)
      → Keeps OnCircle (pay_account x circle round now account amount paid)
  unfolding pay_account
  pay_account-Keeps circle round now account amount paid = search (keeping, transfer-Keeps) depth 10

  pay_share-Keeps :
      (circle : Circle) (round now : ℕ) (net : ℤ) (total : ℕ) (account : Address) (o : Option ℕ)
      (paid : Paid)
      → Keeps OnCircle (pay_share x circle round now net total account o paid)
  unfolding pay_share pay_positive
  pay_share-Keeps circle round now net total account none paid = search keeping depth 3
  pay_share-Keeps circle round now net total account (some weight) paid =
      search (keeping, pay_account-Keeps) depth 6

  pay_shares-Keeps :
      (circle : Circle) (round now : ℕ) (net : ℤ) (w : Weights) (members : List Member)
      (paid : Paid)
      → Keeps OnCircle (pay_shares x circle round now net w members paid)
  unfolding pay_shares
  pay_shares-Keeps circle round now net w [] paid = search keeping depth 3
  pay_shares-Keeps circle round now net w (m ∷ members) paid =
      Keeps-bind
        (pay_share-Keeps circle round now net w.total m.address (get m.address w.by_member) paid)
        (λ after. pay_shares-Keeps circle round now net w members after)

  deposit-Keeps :
      (treasury circle_id : Address) (amount : ℤ)
      → Keeps OnCircle (deposit_protocol_fee x treasury circle_id amount)
  unfolding deposit_protocol_fee
  deposit-Keeps treasury circle_id amount = record {
    holds = λ s h. by_outcome (x.deposit_fee treasury circle_id amount s.tokens) s h;
  }
    where
      by_outcome :
          (o : Option W) (s : Store W) → OnCircle s → Post {E = CircleError} OnCircle (settle o s)
      by_outcome none s h = tt
      by_outcome (some w) s h = h

  pub pay_pool-Keeps :
      (circle : Circle) (round now : ℕ) (recipient : Address) (net fee : ℤ) (w : Weights)
      (paid : Paid)
      → Keeps OnCircle (pay_pool x circle round now recipient net fee w paid)
  unfolding pay_pool distribute pay_fee pay_dust record_round_fee
  pay_pool-Keeps circle round now recipient net fee w paid =
      search (keeping, pay_shares-Keeps, pay_account-Keeps, deposit-Keeps) depth 20

  return_collateral-Keeps :
      (circle : Circle) (members : List Member)
      → Keeps OnCircle (return_collateral x circle members)
  unfolding return_collateral
  return_collateral-Keeps circle [] = search keeping depth 3
  return_collateral-Keeps circle (m ∷ members) =
      Keeps-bind
        (Keeps-only_if (m.status == member_active)
          (λ _. transfer-Keeps circle.token circle.id m.address circle.collateral_amount))
        (λ _. return_collateral-Keeps circle members)

  recorded :
      (env : Env) (members : List Member) (s : Store W)
      → OnCircle s
      → OnCircle (record_completions env members s)
  recorded env [] s h = h
  recorded env (m ∷ members) s h = elim (Bool-cases (m.status == member_active)) [
    | inl active ↦ rw (active, record_completions) (recorded env members _ h)
    | inr other ↦ rw (other, record_completions) (recorded env members s h)
  ]

  pub complete-Keeps :
      (env : Env) (circle : Circle) (members : List Member)
      → Keeps OnCircle (complete x env circle members)
  unfolding complete
  complete-Keeps env circle members = search (keeping, return_collateral-Keeps, recorded) depth 10

  pub check_round-Keeps :
      (env : Env) (circle : Circle) (round : ℕ) → Keeps OnCircle (check_round env circle round)
  unfolding check_round
  check_round-Keeps env circle round = search keeping depth 8

  pub check_awaited-Keeps :
      (env : Env) (circle : Circle) (round : ℕ) (members : List Member)
      → Keeps OnCircle (check_awaited env circle round members)
  unfolding check_awaited
  check_awaited-Keeps env circle round members = search keeping depth 8

  pub pause-Keeps : Keeps {S = Store W} OnCircle when_not_paused
  unfolding when_not_paused
  pause-Keeps = Keeps-map_err _ Keeps-when_not_paused

  by_storage :
      {A : Type 0} (f : Store W → Result CircleError A) → Keeps OnCircle (λ s. lift (f s) s)
  by_storage f = record { holds = λ s h. (Keeps-lift {P = OnCircle} (f s)).holds s h }

  pub resolve_recipient-Keeps :
      (sha256 : List ℕ → List ℕ) (circle : Circle) (round : ℕ)
      → Keeps OnCircle (resolve_recipient sha256 circle round)
  unfolding resolve_recipient resolve_random
  resolve_recipient-Keeps sha256 circle round = search (keeping, by_storage, Keeps-throw) depth 12
