-- ===== src/Circle/Resolve.antt =====
-- `resolve_random` of packages/circle/src/payout.rs, and the choice by the circle's payout type in
-- `trigger_payout_internal` of packages/circle/src/contract.rs.
use moistello_contracts.Prelude.{ℕ, ◌*◌, ◌==◌, List, wrapping_u32}
use moistello_contracts.Soroban.Contract.{
  Address, M, ◌>>=◌, ◌>>◌, load, lift, modify, pure, throw, if_else, within,
}
use moistello_contracts.Soroban.Map.{set, address_key}
use moistello_contracts.Common.Vrf.{shuffle_positions}
use moistello_contracts.Circle.Types.{
  Circle, CircleError, not_initialized, invalid_amount, invalid_payout_type, payout_random,
  payout_fixed, payout_auction, payout_vote, Store,
}
use moistello_contracts.Circle.Payout.{draw_recipient, resolve_fixed, resolve_auction, resolve_vote}

module _ {W : Type 0} where
  abbrev pub auction_recipient : Circle → ℕ → M (Store W) CircleError Address
  auction_recipient circle round = do
    winner ← λ s. lift (resolve_auction s circle round) s
    modify (λ s. record s { auction_winner = set round winner.0 s.auction_winner })
    pure winner.0

module _ {W : Type 0} (sha256 : List ℕ → List ℕ) where
  abbrev pub draw_positions : Circle → ℕ → M (Store W) CircleError (List ℕ)
  draw_positions circle round =
      within (λ s. s.vrf) (λ v s. record s { vrf = v }) invalid_amount
        (shuffle_positions sha256 circle.max_members (wrapping_u32 (round * 1000)))

  unfoldable pub resolve_random : Circle → ℕ → M (Store W) CircleError Address
  resolve_random circle round = do
    positions ← draw_positions circle round
    members ← load (λ s. s.members) not_initialized
    lift (draw_recipient circle positions members)

  -- The recipient by the circle's payout type.
  unfoldable pub resolve_recipient : Circle → ℕ → M (Store W) CircleError Address
  resolve_recipient circle round =
      if_else (circle.payout_type == payout_random) (resolve_random circle round) (
        if_else (circle.payout_type == payout_fixed) (λ s. lift (resolve_fixed s circle round) s)
          (if_else (circle.payout_type == payout_auction) (auction_recipient circle round) (
            if_else (circle.payout_type == payout_vote) (λ s. lift (resolve_vote s circle round) s)
              (throw invalid_payout_type))))
