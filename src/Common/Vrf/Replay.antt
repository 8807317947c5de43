-- ===== src/Common/Vrf/Replay.antt =====
-- The seeds of packages/common/src/vrf.rs.
use moistello_contracts.Prelude.{ℕ, ◌≤◌, ◌≡◌, refl, false, leb, some, arith, List}
use moistello_contracts.Soroban.Contract.{modify}
use moistello_contracts.Soroban.Outcome.{Post, Post-map, after_fail_if}
use moistello_contracts.Soroban.Turns.{Turns, turning}
use moistello_contracts.Common.Vrf.{Vrf, VrfError, evaluate_vrf, publish_vrf, is_replay}

module _ (sha256 : List ℕ → List ℕ) where
  abbrev HasUsed : ℕ → Vrf → Type 0
  HasUsed seed v = v.nonce ≡ some seed

  used_now :
      (seed : ℕ)
      → Turns {E = VrfError}
          (λ v. Unit {0})
          (HasUsed seed)
          (modify (λ v. record v { nonce = some seed }))
  used_now seed = record { turned = λ v h. refl }

  evaluated : (seed : ℕ) → Turns (λ v. Unit {0}) (HasUsed seed) (evaluate_vrf sha256 seed)
  unfolding evaluate_vrf publish_vrf
  evaluated seed = search (turning, used_now) depth 16

  refused :
      (seed used : ℕ)
      → seed ≤ used
      → (v : Vrf) → HasUsed used v
      → Post (λ _. ⊥) (evaluate_vrf sha256 seed v)
  unfolding evaluate_vrf
  refused seed used below v h =
      after_fail_if _ (is_replay sha256 seed v) _ _ v
        λ fresh. let answer : leb seed used ≡ false = rw h at fresh in ground arith

  -- A seed is used once: after an evaluation that succeeds, one at the same seed or at a smaller one
  -- is refused.
  pub evaluate_vrf-once :
      (seed : ℕ) (v : Vrf)
      → Post
          (λ v'. (again : ℕ) → again ≤ seed → Post (λ _. ⊥) (evaluate_vrf sha256 again v'))
          (evaluate_vrf sha256 seed v)
  evaluate_vrf-once seed v =
      Post-map _ _ (evaluate_vrf sha256 seed v) (λ v' h again below. refused again seed below v' h)
        ((evaluated seed).turned v tt)
