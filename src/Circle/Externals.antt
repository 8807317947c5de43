-- ===== src/Circle/Externals.antt =====
-- What the circle contract calls outside of this repository's modelled code, and oracle.rs.
use Prim.Native.String.{String}
use moistello_contracts.Prelude.{ℕ, ℤ, pos, Option, none, some, List}
use moistello_contracts.Soroban.Contract.{Address, M, ◌>>=◌, ◌>>◌, pure, throw, gets, modify}
use moistello_contracts.Soroban.Map.{set, address_key}
use moistello_contracts.Common.TokenTransfer.{TokenLedger, settle}
use moistello_contracts.Circle.Types.{
  Circle, CircleError, oracle_unavailable, oracle_fallback_used, Store, Op, publish, circle_ledger,
}

pub record CircleConfig : Type 0 where
  pub organizer : Address
  pub token : Address
  pub name : String
  pub contribution_amount : ℤ
  pub max_members : ℕ
  pub payout_type : ℕ
  pub total_rounds : ℕ
  pub contribution_deadline_seconds : ℕ
  pub min_moi_score : ℕ
  pub collateral_amount : ℤ
  pub penalty_bps : ℕ
  pub grace_period_seconds : ℕ
  pub max_strikes : ℕ
  pub slug : String
  pub max_withdrawal_per_tx : ℤ
  pub daily_withdrawal_limit : ℤ
  pub min_duration_seconds : ℕ

-- The token contracts; the host's `sha256` on bytes, and on the XDR of a configuration; the oracle
-- contract's `yld_rate`, none if the call fails; and `deposit_fee` of the treasury at an address, by
-- which the circle at another deposits an amount, none if it traps.
pub record Externals (W : Type 0) : Type 0 where
  pub tokens : TokenLedger W
  pub sha256 : List ℕ → List ℕ
  pub sha256_config : CircleConfig → ℕ
  pub yield_rate : Address → ℕ → W → Option ℤ
  pub deposit_fee : Address → Address → ℤ → W → Option W

module _ {W : Type 0} (x : Externals W) where
  unfoldable pub compute_circle_config_hash : Circle → ℕ
  compute_circle_config_hash circle = x.sha256_config (record {
    organizer = circle.organizer;
    token = circle.token;
    name = circle.name;
    contribution_amount = circle.contribution_amount;
    max_members = circle.max_members;
    payout_type = circle.payout_type;
    total_rounds = circle.total_rounds;
    contribution_deadline_seconds = circle.contribution_deadline_seconds;
    min_moi_score = circle.min_moi_score;
    collateral_amount = circle.collateral_amount;
    penalty_bps = circle.penalty_bps;
    grace_period_seconds = circle.grace_period_seconds;
    max_strikes = circle.max_strikes;
    slug = circle.slug;
    max_withdrawal_per_tx = circle.max_withdrawal_per_tx;
    daily_withdrawal_limit = circle.daily_withdrawal_limit;
    min_duration_seconds = circle.min_duration_seconds;
  })

  -- `env.storage().persistent().set(&DataKey::RoundConfigSnapshot(current_round), &hash)`
  abbrev pub snapshot_config : Circle → Op W
  snapshot_config circle = modify (λ s. record s {
    round_config_snapshot =
        set circle.current_round (compute_circle_config_hash circle) s.round_config_snapshot;
  })

  -- The answer of the fallback, which is asked after the primary has failed.
  unfoldable pub use_fallback : ℕ → Address → Address → Option ℤ → M (Store W) CircleError ℤ
  use_fallback round primary fallback none s = throw oracle_unavailable s
  use_fallback round primary fallback (some rate) s =
      (publish (oracle_fallback_used round primary fallback) >> pure rate) s

  unfoldable pub ask_fallback : ℕ → Address → Option Address → M (Store W) CircleError ℤ
  ask_fallback round primary none s = throw oracle_unavailable s
  ask_fallback round primary (some fallback) s =
      use_fallback round primary fallback (x.yield_rate fallback round s.tokens) s

  unfoldable pub use_primary : ℕ → Address → Option ℤ → M (Store W) CircleError ℤ
  use_primary round primary none s = ask_fallback round primary s.fallback_oracle s
  use_primary round primary (some rate) s = pure rate s

  unfoldable pub ask_primary : ℕ → Option Address → M (Store W) CircleError ℤ
  ask_primary round none s = pure (pos 0) s
  ask_primary round (some primary) s =
      use_primary round primary (x.yield_rate primary round s.tokens) s

  unfoldable pub get_yield_rate : ℕ → M (Store W) CircleError ℤ
  get_yield_rate round = do primary ← gets (λ s. s.oracle_contract); ask_primary round primary

  -- The circle authorizes the treasury to take the fee, and the treasury takes it.
  unfoldable pub deposit_protocol_fee : Address → Address → ℤ → Op W
  deposit_protocol_fee treasury circle_id amount s =
      settle (x.deposit_fee treasury circle_id amount s.tokens) s
