-- ===== src/Reputation/Types.antt =====
-- packages/reputation-registry/src/types.rs, and the entries of the storage that storage.rs keeps.
-- The circle contract calls scoring.rs as a library, so its storage has the same entries.
use moistello_contracts.Prelude.{ℕ, List}
use moistello_contracts.Soroban.Contract.{Address}
use moistello_contracts.Soroban.Map.{Map}

abbrev pub activity_contribute : ℕ
activity_contribute = 1

abbrev pub activity_complete : ℕ
activity_complete = 2

abbrev pub activity_default : ℕ
activity_default = 3

abbrev pub tier_bronze : ℕ
tier_bronze = 0

abbrev pub tier_silver : ℕ
tier_silver = 1

abbrev pub tier_gold : ℕ
tier_gold = 2

abbrev pub tier_platinum : ℕ
tier_platinum = 3

abbrev pub tier_diamond : ℕ
tier_diamond = 4

pub record Activity : Type 0 where
  pub user : Address
  pub activity_type : ℕ
  pub score_impact : ℕ
  pub timestamp : ℕ

-- The keys `MemberScore`, `Streak`, `Completions`, `Defaults`, `MemberLog` and `LastRound`.
pub record Registry : Type 0 where
  pub member_score : Map Address ℕ
  pub streak : Map (Address × Address) ℕ
  pub completions : Map Address ℕ
  pub defaults : Map Address ℕ
  pub member_log : Map Address (List Activity)
  pub last_round : Map (Address × Address) ℕ
