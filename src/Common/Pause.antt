-- ===== src/Common/Pause.antt =====
-- packages/common/src/pause.rs: the emergency stop. Each contract keeps the flag in its own
-- instance storage, so the functions take the contract's storage as an interface.
use moistello_contracts.Prelude.{◌≡◌, refl, Bool, true, false, Option, some, not}
use moistello_contracts.Soroban.Contract.{
  Address, Env, M, ◌>>=◌, ◌>>◌, fail_if, require_auth, gets, when, unwrap_or,
}
use moistello_contracts.Soroban.Outcome.{Post, after_require}
use moistello_contracts.Soroban.Keeps.{Keeps, Keeps-fail_if}

pub data PauseError : Type 0 where
  contract_paused : PauseError

-- A storage with the entry "paused" and a log of events.
pub record PauseStore (S : Type 0) : Type 0 where
  pub paused : S → Option Bool
  pub set_paused : Bool → S → S
  pub publish_paused : Address → S → S
  pub publish_unpaused : Address → S → S
  pub paused-set : (b : Bool) (s : S) → paused (set_paused b s) ≡ some b
  pub paused-publish : (a : Address) (s : S) → paused (publish_paused a s) ≡ paused s
  pub unpaused-publish : (a : Address) (s : S) → paused (publish_unpaused a s) ≡ paused s

module _ {S : Type 0} ⦃p : PauseStore S⦄ where
  abbrev pub is_paused : S → Bool
  is_paused s = unwrap_or false (p.paused s)

  unfoldable pub pause : Env → Address → M S PauseError (Unit {0})
  pause env admin = do
    require_auth env admin
    already ← gets is_paused
    when (not already) (λ s. p.publish_paused admin (p.set_paused true s))

  unfoldable pub unpause : Env → Address → M S PauseError (Unit {0})
  unpause env admin = do
    require_auth env admin
    paused ← gets is_paused
    when paused (λ s. p.publish_unpaused admin (p.set_paused false s))

  abbrev pub when_not_paused : M S PauseError (Unit {0})
  when_not_paused s = fail_if (is_paused s) contract_paused s

  pub Keeps-when_not_paused : {P : S → Type 0} → Keeps P when_not_paused
  Keeps-when_not_paused {P} = record {
    holds = λ s h. (Keeps-fail_if {P = P} (is_paused s) contract_paused).holds s h;
  }

  -- A pause that succeeds leaves the contract paused.
  pub pause_lem :
      (env : Env) (admin : Address) (s : S) → Post (λ s'. is_paused s' ≡ true) (pause env admin s)
  unfolding pause
  pause_lem env admin s =
      after_require _ (env.authorized admin) _ s (λ _. by_cases (is_paused s) refl)
    where
      by_cases :
          (b : Bool)
          → is_paused s ≡ b
          → Post {E = PauseError}
              (λ s'. is_paused s' ≡ true)
              (when (not b) (λ s'. p.publish_paused admin (p.set_paused true s')) s)
      by_cases true already = already
      by_cases false live =
          rw (p.paused-publish admin (p.set_paused true s)) (rw (p.paused-set true s))

  -- An unpause that succeeds leaves it running.
  pub unpause_lem :
      (env : Env) (admin : Address) (s : S)
      → Post (λ s'. is_paused s' ≡ false) (unpause env admin s)
  unfolding unpause
  unpause_lem env admin s =
      after_require _ (env.authorized admin) _ s (λ _. by_cases (is_paused s) refl)
    where
      by_cases :
          (b : Bool)
          → is_paused s ≡ b
          → Post {E = PauseError}
              (λ s'. is_paused s' ≡ false)
              (when b (λ s'. p.publish_unpaused admin (p.set_paused false s')) s)
      by_cases false already = already
      by_cases true halted =
          rw (p.unpaused-publish admin (p.set_paused false s)) (rw (p.paused-set false s))
