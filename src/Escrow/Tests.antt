-- ===== src/Escrow/Tests.antt =====
-- Runs of the swap contract.
use moistello_contracts.Prelude.{
  ℕ, pos, ◌≡◌, refl, not, ◌==◌, ◌+◌, List, [], ◌∷◌, some, none, arith,
}
use moistello_contracts.Soroban.Contract.{Env}
use moistello_contracts.Soroban.Outcome.{Post}
use moistello_contracts.Soroban.Map.{get}
use moistello_contracts.Common.Coins.{Coins, coins, coins-IsStandard}
use moistello_contracts.Escrow.Types.{Store, SwapRequest, status_active}
use moistello_contracts.Escrow.Swaps.{find_swap, accept_swap, swaps_of}
use moistello_contracts.Escrow.Calls.{Call, run}
use moistello_contracts.Escrow.Lifecycle.{Accepted, here}
use moistello_contracts.Escrow.History.{HasEvolved, run-HasEvolved}
use moistello_contracts.Escrow.Holdings.{IsHeld}
use moistello_contracts.Escrow.Solvency.{run-IsHeld}
use moistello_contracts.Escrow.Acceptance.{accept_swap-IsOpened}

abbrev at : ℕ → Env
at now = record {
  authorized = λ a. not (a == 9);
  current_contract = 9;
  sequence = 1;
  timestamp = now;
}

-- 5 offers 100 of the token 8 to 6 for 70 of the token 7, under a secret whose hash is 43.
abbrev offer : SwapRequest
offer = record {
  id = 0;
  initiator = 5;
  responder = 6;
  token_a = 8;
  token_b = 7;
  initiator_amount = pos 100;
  responder_amount = pos 70;
  hash_lock = 43;
  time_lock = 50;
  status = 0;
  created_at = 5;
}

abbrev start : Store Coins
start = record {
  admin = some 1;
  swap_requests = some [];
  next_swap_id = some 0;
  paused_flag = none;
  lock = none;
  events = [];
  tokens = [];
}

abbrev offered : Store Coins
offered = record start {
  swap_requests = some (offer ∷ []);
  next_swap_id = some 1;
  tokens = ((8, 9), pos 100) ∷ ((7, 6), pos 90) ∷ [];
}

abbrev hash : ℕ → ℕ
hash n = n + 1

abbrev history : List (Env × Call)
history =
    (at 10, Call.accept_swap 0 6 41)
    ∷ (at 11, Call.accept_swap 0 6 42)
    ∷ (at 12, Call.complete_swap 0 5)
    ∷ (at 13, Call.cancel_swap 0 5)
    ∷ []

run-HasEvolved_example : HasEvolved (offer ∷ []) (run coins hash history offered)
run-HasEvolved_example = run-HasEvolved coins hash history (offer ∷ []) offered (refl, (here, tt))

abbrev from_start : List (Env × Call)
from_start = (at 9, Call.create_swap 5 6 8 7 (pos 100) (pos 70) 43 50) ∷ []

run-IsHeld_example : IsHeld coins 9 (run coins hash from_start start)
unfolding get
run-IsHeld_example =
    run-IsHeld coins coins-IsStandard hash 9 from_start start ((refl, refl), tt)
      (refl, λ token. omega arith)

accept_swap-IsOpened_example :
    Post
      (λ s'.
        (swap : SwapRequest) × (Accepted hash (at 11) swap 6 42
          × ((find_swap 0 (offer ∷ []) ≡ some swap)
              × (find_swap 0 (swaps_of s') ≡ some (record swap { status = status_active })))))
      (accept_swap coins hash (at 11) 0 6 42 offered)
accept_swap-IsOpened_example =
    accept_swap-IsOpened coins hash (at 11) 0 6 42 (offer ∷ []) offered refl
