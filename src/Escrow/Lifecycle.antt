-- ===== src/Escrow/Lifecycle.antt =====
-- The states of a swap of packages/escrow-swap/src/contract.rs.
use moistello_contracts.Prelude.{
  ℕ, ◌≡◌, ◌≢◌, refl, subst, sym, not, ◌==◌, ◌<◌, leb, arith, ◌⊎◌, inl, inr, Bool-cases, some, List,
  [], ◌∷◌, push_back,
}
use moistello_contracts.Soroban.Contract.{Address, Env}
use moistello_contracts.Soroban.Outcome.{after_fail_if, last_fail_if}
use moistello_contracts.Soroban.Turns.{Turns}
use moistello_contracts.Escrow.Types.{
  SwapRequest, status_pending, status_active, status_completed, status_cancelled, Store,
}
use moistello_contracts.Escrow.Swaps.{find_swap, set_status, check_accept}

-- One step of a swap: it is accepted, completed after that, or cancelled before
-- it is completed.
pub data Moves (s u : SwapRequest) : Type 0 where
  accepts : s.status ≡ status_pending → u ≡ record s { status = status_active } → Moves s u
  completes : s.status ≡ status_active → u ≡ record s { status = status_completed } → Moves s u
  cancels :
      s.status ≢ status_completed
      → s.status ≢ status_cancelled
      → u ≡ record s { status = status_cancelled }
      → Moves s u

-- Any number of steps.
pub data Reaches (s : SwapRequest) : SwapRequest → Type 0 where
  here : Reaches s s
  next : {u v : SwapRequest} → Reaches s u → Moves u v → Reaches s v

-- Every old swap stands at its place, some steps further; the new swaps come after.
abbrev pub Evolved : List SwapRequest → List SwapRequest → Type 0
Evolved [] swaps = Unit
Evolved (s ∷ old) [] = ⊥
Evolved (s ∷ old) (u ∷ swaps) = Reaches s u × Evolved old swaps

pub Evolved-refl : (old : List SwapRequest) → Evolved old old
Evolved-refl [] = tt
Evolved-refl (s ∷ old) = (here, Evolved-refl old)

pub Evolved-push_back :
    (old swaps : List SwapRequest) (s : SwapRequest)
    → Evolved old swaps
    → Evolved old (push_back swaps s)
Evolved-push_back [] swaps s h = tt
Evolved-push_back (u ∷ old) [] s h = absurd h
Evolved-push_back (u ∷ old) (v ∷ swaps) s h = (h.0, Evolved-push_back old swaps s h.1)

pub Evolved-set_status :
    (old swaps : List SwapRequest) (id status : ℕ) (s : SwapRequest)
    → find_swap id swaps ≡ some s
    → Moves s (record s { status = status })
    → Evolved old swaps
    → Evolved old (set_status id status swaps)
Evolved-set_status [] swaps id status s found move h = tt
Evolved-set_status (u ∷ old) [] id status s found move h = absurd h
Evolved-set_status (u ∷ old) (v ∷ swaps) id status s found move h = elim (Bool-cases (v.id == id)) [
  | inl same ↦
      let first : some v ≡ some s = rw same at found in
      let e : v ≡ s = cc in
      rw same (next h.0 (subst (λ x. Moves x (record x { status = status })) (sym e) move), h.1)
  | inr other ↦
      rw other (h.0, Evolved-set_status old swaps id status s (rw other at found) move h.1)
]

-- What `accept_swap` has checked of a swap.
pub record Accepted (sha256 : ℕ → ℕ) (env : Env) (swap : SwapRequest) (responder : Address)
    (secret : ℕ) : Type 0 where
  pub pending : swap.status ≡ status_pending
  pub by_responder : swap.responder ≡ responder
  pub unlocked : sha256 secret ≡ swap.hash_lock
  pub in_time : env.timestamp < swap.time_lock

pub check_accept-Accepted :
    {W : Type 0} (sha256 : ℕ → ℕ) (env : Env) (swap : SwapRequest) (responder : Address)
    (secret : ℕ) (P : Store W → Type 0)
    → Turns P
        (λ s. P s × Accepted sha256 env swap responder secret)
        (check_accept sha256 env swap responder secret)
unfolding check_accept
check_accept-Accepted sha256 env swap responder secret P = record {
  turned = λ s h. after_fail_if _ (swap.status == status_active) _ _ s λ inactive.
      after_fail_if _ (not (swap.status == status_pending)) _ _ s λ waiting.
        after_fail_if _ (not (swap.responder == responder)) _ _ s λ own.
          after_fail_if _ (not (sha256 secret == swap.hash_lock)) _ _ s λ opened.
            last_fail_if (λ s. P s × Accepted sha256 env swap responder secret)
              (leb swap.time_lock env.timestamp) _ s
              λ early. (
                h,
                record {
                  pending = ground arith;
                  by_responder = ground arith;
                  unlocked = ground arith;
                  in_time = ground arith;
                },
              );
}

abbrev pub IsFinal : SwapRequest → Type 0
IsFinal s = (s.status ≡ status_completed) ⊎ (s.status ≡ status_cancelled)

Moves-IsFinal : (s u : SwapRequest) → IsFinal s → Moves s u → ⊥
Moves-IsFinal s u (inl done) (accepts pending e) = omega (arith, done, pending)
Moves-IsFinal s u (inr done) (accepts pending e) = omega (arith, done, pending)
Moves-IsFinal s u (inl done) (completes active e) = omega (arith, done, active)
Moves-IsFinal s u (inr done) (completes active e) = omega (arith, done, active)
Moves-IsFinal s u (inl done) (cancels incomplete live e) = incomplete done
Moves-IsFinal s u (inr done) (cancels incomplete live e) = live done

-- A swap that is completed or cancelled stays as it is.
pub Reaches-IsFinal : (s u : SwapRequest) → IsFinal s → Reaches s u → u ≡ s
Reaches-IsFinal s _ done here = refl
Reaches-IsFinal s v done (next {u} r m) =
    absurd (Moves-IsFinal u v (subst IsFinal (sym (Reaches-IsFinal s u done r)) done) m)
