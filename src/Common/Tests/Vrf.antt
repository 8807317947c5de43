-- ===== src/Common/Tests/Vrf.antt =====
-- Runs of the VRF, with the identity as the hash.
use moistello_contracts.Prelude.{ℕ, ◌≤◌, List, [], ◌∷◌, some, none}
use moistello_contracts.Soroban.Outcome.{Post}
use moistello_contracts.Common.Vrf.{Vrf, evaluate_vrf}
use moistello_contracts.Common.Vrf.Replay.{evaluate_vrf-once}

abbrev same_bytes : List ℕ → List ℕ
same_bytes bytes = bytes

abbrev seeded : Vrf
seeded = record {
  admin_key = none;
  salt = some (7 ∷ []);
  counter = some 0;
  owner = some 1;
  pending_key = none;
  pending_at = none;
  nonce = none;
  events = [];
}

evaluate_vrf-once_example :
    Post
      (λ v'. (again : ℕ) → again ≤ 4 → Post (λ _. ⊥) (evaluate_vrf same_bytes again v'))
      (evaluate_vrf same_bytes 4 seeded)
evaluate_vrf-once_example = evaluate_vrf-once same_bytes 4 seeded
