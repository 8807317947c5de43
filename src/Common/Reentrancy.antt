-- ===== src/Common/Reentrancy.antt =====
-- packages/common/src/reentrancy.rs: the lock in temporary storage, taken by `new` and released by
-- `drop`. The host discards a failed invocation's writes, so the release matters on success.
use moistello_contracts.Prelude.{◌≡◌, Bool, true, false, Option, some}
use moistello_contracts.Soroban.Result.{err}
use moistello_contracts.Soroban.Contract.{
  M, ◌>>=◌, ◌>>◌, pure, modify, map_err, unwrap_or, fail_if, gets,
}
use moistello_contracts.Soroban.Outcome.{Post, after_call, Post-trivial}
use moistello_contracts.Soroban.Keeps.{
  Keeps, Keeps-bind, Keeps-map_err, Keeps-gets, Keeps-fail_if, Keeps-modify, Keeps-pure, Refuses,
  Refuses-rest, Refuses-first,
}
use moistello_contracts.Soroban.Turns.{Turns, Turns-last, Turns-first}

pub data ReentrancyError : Type 0 where
  reentrant_call : ReentrancyError

-- A storage with the temporary entry "reent".
pub record LockStore (S : Type 0) : Type 0 where
  pub locked : S → Option Bool
  pub set_locked : Bool → S → S
  pub locked-set : (b : Bool) (s : S) → locked (set_locked b s) ≡ some b

module _ {S : Type 0} ⦃l : LockStore S⦄ where
  abbrev pub is_locked : S → Bool
  is_locked s = unwrap_or false (l.locked s)

  -- `ReentrancyGuard::new`
  abbrev pub enter : M S ReentrancyError (Unit {0})
  enter = do held ← gets is_locked; fail_if held reentrant_call; modify (l.set_locked true)

  -- `ReentrancyGuard::leave`, which `drop` calls
  abbrev pub leave : {E : Type 0} → M S E (Unit {0})
  leave = modify (l.set_locked false)

  -- `let _guard = ReentrancyGuard::new(env).map_err(|_| e)?;` and the rest of the function's body
  abbrev pub guarded : {E A : Type 0} → E → M S E A → M S E A
  guarded e body = do map_err (λ _. e) enter; a ← body; leave; pure a

  Keeps-enter :
      {E : Type 0} {P : S → Type 0} (e : E)
      → ((s : S) → P s → P (l.set_locked true s))
      → Keeps P (map_err (λ _. e) enter)
  Keeps-enter {P = P} e k = Keeps-map_err _ (
      Keeps-bind (Keeps-gets {P = P} is_locked)
        (λ held. Keeps-bind (Keeps-fail_if held reentrant_call) (λ _. Keeps-modify k)))

  pub Keeps-guarded :
      {E A : Type 0} {P : S → Type 0} (e : E) {body : M S E A}
      → ((b : Bool) (s : S) → P s → P (l.set_locked b s))
      → Keeps P body
      → Keeps P (guarded e body)
  Keeps-guarded e k h =
      Keeps-bind (Keeps-enter e (k true))
        (λ _. Keeps-bind h (λ a. Keeps-bind (Keeps-modify (k false)) (λ _. Keeps-pure a)))

  pub Turns-guarded :
      {E A : Type 0} {P Q : S → Type 0} (e : E) {body : M S E A}
      → ((b : Bool) (s : S) → P s → P (l.set_locked b s))
      → ((b : Bool) (s : S) → Q s → Q (l.set_locked b s))
      → Turns P Q body
      → Turns P Q (guarded e body)
  Turns-guarded e k j h =
      Turns-last _ (Keeps-enter e (k true))
        (λ _. Turns-first _ h (λ a. Keeps-bind (Keeps-modify (j false)) (λ _. Keeps-pure a)))

  pub Refuses-guarded :
      {E A : Type 0} {P : S → Type 0} (e : E) {body : M S E A}
      → ((b : Bool) (s : S) → P s → P (l.set_locked b s))
      → Refuses P body
      → Refuses P (guarded e body)
  Refuses-guarded e k h = Refuses-rest (Keeps-enter e (k true)) (λ _. Refuses-first _ h)

  -- While the lock is taken no guarded body runs.
  pub guarded_refused :
      {E A : Type 0} (e : E) (body : M S E A) (s : S)
      → is_locked s ≡ true
      → guarded e body s ≡ err e
  guarded_refused e body s held = rw (held, fail_if)

  -- A guarded body that succeeds gives the lock back.
  pub guarded_released :
      {E A : Type 0} (e : E) (body : M S E A) (s : S)
      → Post (λ s'. is_locked s' ≡ false) (guarded e body s)
  guarded_released e body s =
      after_call _ (map_err (λ _. e) enter s) (λ _. Unit) _ (Post-trivial _)
        (λ _ s' _.
          after_call _ (body s') (λ _. Unit) _ (Post-trivial _)
            (λ a s'' _. rw (l.locked-set false s'')))
