-- ===== src/Circle/Tests/Ledger.antt =====
-- A contribution on a token ledger that keeps to the interface.
use moistello_contracts.Prelude.{pos, ◌≡◌, ◌≢◌, refl, true, [], ◌∷◌, arith}
use moistello_contracts.Soroban.Result.{ok}
use moistello_contracts.Soroban.Outcome.{Post}
use moistello_contracts.Soroban.Map.{pair_key}
use moistello_contracts.Common.Coins.{Coins, coins, coins-IsStandard}
use moistello_contracts.Circle.Types.{Store}
use moistello_contracts.Circle.Contribute.{payment_timing, take_contribution}
use moistello_contracts.Circle.Money.{HasPaid, take_contribution-HasPaid}
use moistello_contracts.Circle.Tests.{opened_with, savings, at}

abbrev pub funded : Store Coins
funded = opened_with (((8, 1), pos 1000) ∷ [])

on_time : payment_timing (at 20) savings ≡ ok true
unfolding payment_timing
on_time = refl

not_member : 1 ≢ savings.id
not_member e = omega (arith, e)

take_contribution-HasPaid_example :
    Post
      (λ s'. HasPaid coins savings 1 (pos 100) funded.tokens s'.tokens)
      (take_contribution coins (at 20) savings 1 (pos 100) 0 funded)
take_contribution-HasPaid_example =
    take_contribution-HasPaid coins (at 20) savings 1 (pos 100) 0 funded coins-IsStandard not_member
      on_time
