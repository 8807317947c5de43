-- ===== src/Circle/Advance.antt =====
-- The step from one round to the next in packages/circle/src/contract.rs.
use moistello_contracts.Prelude.{
  ℕ, ℤ, ◌+◌, ◌≡◌, refl, leb, Bool-cases, inl, inr, Option, some, List, arith, checked_add_u32,
}
use moistello_contracts.Soroban.Contract.{Address, Env}
use moistello_contracts.Soroban.Outcome.{Gives, Post}
use moistello_contracts.Soroban.Keeps.{Keeps, keeping, Keeps-bind, Keeps-require, Keeps-pure}
use moistello_contracts.Soroban.Turns.{
  Turns, turning, Turns-last, Turns-first, Turns-known, Turns-ok_or, Turns-value, Turns-if_else,
}
use moistello_contracts.Soroban.Map.{Map}
use moistello_contracts.Common.Reentrancy.{Turns-guarded}
use moistello_contracts.Circle.Types.{
  Circle, Member, PayoutRecipient, Store, circle_ledger, circle_lock, circle_pause,
}
use moistello_contracts.Circle.Externals.{Externals}
use moistello_contracts.Circle.Fixed.{
  get_yield_rate-Keeps, pay_pool-Keeps, complete-Keeps, check_round-Keeps, check_awaited-Keeps,
  pause-Keeps, resolve_recipient-Keeps,
}
use moistello_contracts.Circle.Settlement.{
  trigger_payout, require_organizer_or_admin, write_round, close_round, end_round, settle_empty,
  settle_pool, trigger_payout_internal,
}

module _ {W : Type 0} (x : Externals W) where
  -- The stored circle is in this round.
  abbrev pub IsInRound : ℕ → Store W → Type 0
  IsInRound n s = (circle : Circle) × ((s.circle ≡ some circle) × (circle.current_round ≡ n))

  write_round-IsInRound :
      (P : Store W → Type 0) (circle : Circle) (round : ℕ) (recipient : Address) (amount fee : ℤ)
      (members : List Member) (payouts : List PayoutRecipient) (n : ℕ)
      → circle.current_round ≡ n
      → Turns P (IsInRound n) (write_round circle round recipient amount fee members payouts)
  unfolding write_round
  write_round-IsInRound P circle round recipient amount fee members payouts n e = record {
    turned = λ s h. (_, (refl, e));
  }

  close_round-same :
      (P : Store W → Type 0) (circle : Circle) (n : ℕ)
      → circle.current_round ≡ n
      → ((s : Store W) (m : Map ℕ ℕ) → P s → P (record s { round_config_snapshot = m }))
      → (s : Store W) → P s
      → Gives (λ c s'. (c.current_round ≡ n) × P s') (close_round x circle s)
  unfolding close_round
  close_round-same P circle n e stable s h =
      elim (Bool-cases (leb circle.total_rounds circle.current_round)) [
        | inl over ↦ rw over (e, h)
        | inr more ↦ rw more (e, stable s _ h)
      ]

  end_round-IsInRound :
      (P : Store W → Type 0) (circle : Circle) (round : ℕ) (recipient : Address) (amount fee : ℤ)
      (members : List Member) (payouts : List PayoutRecipient) (n : ℕ)
      → circle.current_round ≡ n
      → ((s : Store W) (m : Map ℕ ℕ) → P s → P (record s { round_config_snapshot = m }))
      → Turns P (IsInRound n) (end_round x circle round recipient amount fee members payouts)
  unfolding end_round
  end_round-IsInRound P circle round recipient amount fee members payouts n e stable =
      Turns-value (λ c. c.current_round ≡ n) (close_round x circle) _
        (close_round-same P circle n e stable)
        λ closed same.
          Turns-first _
            (write_round-IsInRound P closed round recipient amount fee members payouts n same)
            (λ _. Keeps-pure closed)

  one_more : (n next : ℕ) → checked_add_u32 n 1 ≡ some next → next ≡ n + 1
  one_more n next added = ground arith

  settle_empty-IsInRound :
      (P : Store W → Type 0) (env : Env) (circle : Circle) (round : ℕ) (recipient : Address)
      → ((s : Store W) (m : Map ℕ ℕ) → P s → P (record s { round_config_snapshot = m }))
      → Turns P (IsInRound (circle.current_round + 1)) (settle_empty x env circle round recipient)
  unfolding settle_empty
  settle_empty-IsInRound P env circle round recipient stable =
      search (turning, Turns-ok_or, end_round-IsInRound, one_more) depth 12

  abbrev IsStored : Circle → Option Circle → Type 0
  IsStored circle o = o ≡ some circle

  abbrev IsAt : ℕ → Option Circle → Type 0
  IsAt n o = (circle : Circle) × ((o ≡ some circle) × (circle.current_round ≡ n))

  settle_pool-IsInRound :
      (env : Env) (circle : Circle) (round : ℕ) (recipient : Address) (net fee : ℤ)
      → Turns
          (λ s. s.circle ≡ some circle)
          (IsInRound (circle.current_round + 1))
          (settle_pool x env circle round recipient net fee)
  unfolding settle_pool
  settle_pool-IsInRound env circle round recipient net fee =
      search
        (
          turning,
          Turns-ok_or,
          end_round-IsInRound,
          one_more,
          get_yield_rate-Keeps x (IsStored circle),
          pay_pool-Keeps x (IsStored circle),
          complete-Keeps x (IsAt (circle.current_round + 1)),
        )
        depth 24

  trigger_payout_internal-IsInRound :
      (env : Env) (circle : Circle) (round : ℕ)
      → Turns
          (λ s. s.circle ≡ some circle)
          (IsInRound (circle.current_round + 1))
          (trigger_payout_internal x env round)
  unfolding trigger_payout_internal
  trigger_payout_internal-IsInRound env circle round =
      Turns-last _ (pause-Keeps x (IsStored circle)) λ _.
        Turns-known (λ s. s.circle) _ _ circle (λ s h. h)
          (search
            (
              turning,
              Turns-if_else,
              settle_empty-IsInRound,
              settle_pool-IsInRound,
              check_round-Keeps x (IsStored circle),
              check_awaited-Keeps x (IsStored circle),
              resolve_recipient-Keeps x (IsStored circle),
            )
            depth 24)

  organizer-Keeps :
      (env : Env) (caller : Address) (circle : Circle)
      → Keeps {S = Store W} (λ s. s.circle ≡ some circle) (require_organizer_or_admin x env caller)
  unfolding require_organizer_or_admin
  organizer-Keeps env caller circle = search keeping depth 10

  -- A payout that succeeds takes the stored circle to the next round, by exactly one, whatever the
  -- payout type, whether the pool is empty and whether the circle is completed by it.
  pub trigger_payout-IsInRound :
      (env : Env) (caller : Address) (circle : Circle) (round : ℕ) (s : Store W)
      → s.circle ≡ some circle
      → Post (IsInRound (circle.current_round + 1)) (trigger_payout x env caller round s)
  unfolding trigger_payout
  trigger_payout-IsInRound env caller circle round s stored =
      (Turns-last _ (pause-Keeps x (IsStored circle)) λ _.
          Turns-guarded _ (λ b s h. h) (λ b s h. h)
            (Turns-last _ (Keeps-bind (organizer-Keeps env caller circle) (λ c. Keeps-pure tt)) λ _.
              Turns-last _ (Keeps-require (env.authorized caller))
                λ _. trigger_payout_internal-IsInRound env circle round)).turned
        s stored
