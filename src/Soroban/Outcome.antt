-- ===== src/Soroban/Outcome.antt =====
-- What an invocation leaves behind, and one rule for each kind of step of a contract function: after
-- a success (`after_…`), and to a success (`past_…`).
use moistello_contracts.Prelude.{◌≡◌, refl, subst, Bool, true, false, Option, none, some}
use moistello_contracts.Soroban.Result.{Result, ok, err, trap}
use moistello_contracts.Soroban.Contract.{M, ◌>>=◌, and_then, fail_if, require, ok_or, map_error}

-- What holds of the storage if the invocation succeeds.
abbrev pub Post : {S E A : Type 0} → (S → Type 0) → Result E (A × S) → Type 0
Post Q (ok (a, s)) = Q s
Post Q (err e) = Unit
Post Q trap = Unit

-- The invocation as the ledger sees it: the storage after it, unchanged on failure.
abbrev pub commit : {S E A : Type 0} → S → Result E (A × S) → S
commit s (ok (a, s')) = s'
commit s (err e) = s
commit s trap = s

pub commit_keeps :
    {S E A : Type 0} (P : S → Type 0) (s : S) (r : Result E (A × S))
    → P s
    → Post P r
    → P (commit s r)
commit_keeps P s (ok (a, s')) h q = q
commit_keeps P s (err e) h q = h
commit_keeps P s trap h q = h

pub Post-trivial : {S E A : Type 0} (r : Result E (A × S)) → Post (λ _. Unit) r
Post-trivial (ok (a, s)) = tt
Post-trivial (err e) = tt
Post-trivial trap = tt

pub Post-absurd :
    {S E A : Type 0} (Q : S → Type 0) (r : Result E (A × S)) → Post (λ _. ⊥) r → Post Q r
Post-absurd Q (ok (a, s)) n = absurd n
Post-absurd Q (err e) n = tt
Post-absurd Q trap n = tt

pub Post-map :
    {S E A : Type 0} (P Q : S → Type 0) (r : Result E (A × S))
    → ((s : S) → P s → Q s)
    → Post P r
    → Post Q r
Post-map P Q (ok (a, s)) f p = f s p
Post-map P Q (err e) f p = tt
Post-map P Q trap f p = tt

-- One rule for each kind of step: what is left to prove of the rest, with what the step has tested.
module _ {S E B : Type 0} (Q : S → Type 0) where
  pub after_fail_if :
      (b : Bool) (e : E) (k : Unit {0} → M S E B) (s : S)
      → (b ≡ false → Post Q (k tt s))
      → Post Q ((fail_if b e >>= k) s)
  after_fail_if true e k s h = tt
  after_fail_if false e k s h = h refl

  pub after_require :
      (b : Bool) (k : Unit {0} → M S E B) (s : S)
      → (b ≡ true → Post Q (k tt s))
      → Post Q ((require b >>= k) s)
  after_require true k s h = h refl
  after_require false k s h = tt

  pub after_ok_or :
      {A : Type 0} (o : Option A) (e : E) (k : A → M S E B) (s : S)
      → ((a : A) → o ≡ some a → Post Q (k a s))
      → Post Q ((ok_or o e >>= k) s)
  after_ok_or none e k s h = tt
  after_ok_or (some a) e k s h = h a refl

  pub after_call :
      {A : Type 0} (r : Result E (A × S)) (R : S → Type 0) (k : A → M S E B)
      → Post R r
      → ((a : A) (s' : S) → R s' → Post Q (k a s'))
      → Post Q (and_then r k)
  after_call (ok (a, s')) R k p h = h a s' p
  after_call (err e) R k p h = tt
  after_call trap R k p h = tt

  pub Post-map_error :
      {F : Type 0} (f : F → E) (r : Result F (B × S)) → Post Q r → Post Q (map_error f r)
  Post-map_error f (ok r) h = h
  Post-map_error f (err e) h = tt
  Post-map_error f trap h = tt

-- The same for a test that comes last.
pub last_fail_if :
    {S E : Type 0} (Q : S → Type 0) (b : Bool) (e : E) (s : S)
    → (b ≡ false → Q s)
    → Post Q (fail_if b e s)
last_fail_if Q true e s h = tt
last_fail_if Q false e s h = h refl

-- What holds of the storage after an invocation that does succeed.
abbrev pub Returns : {S E A : Type 0} → (S → Type 0) → Result E (A × S) → Type 0
Returns Q (ok (a, s)) = Q s
Returns Q (err e) = ⊥
Returns Q trap = ⊥

-- One rule for each kind of step: what has to hold for the step to go through.
module _ {S E B : Type 0} (Q : S → Type 0) where
  pub past_fail_if :
      (b : Bool) (e : E) (k : Unit {0} → M S E B) (s : S)
      → b ≡ false
      → Returns Q (k tt s)
      → Returns Q ((fail_if b e >>= k) s)
  past_fail_if true e k s t h = cc
  past_fail_if false e k s t h = h

  pub past_require :
      (b : Bool) (k : Unit {0} → M S E B) (s : S)
      → b ≡ true
      → Returns Q (k tt s)
      → Returns Q ((require b >>= k) s)
  past_require true k s t h = h
  past_require false k s t h = cc

  pub past_ok_or :
      {A : Type 0} (o : Option A) (e : E) (k : A → M S E B) (s : S) (a : A)
      → o ≡ some a
      → Returns Q (k a s)
      → Returns Q ((ok_or o e >>= k) s)
  past_ok_or none e k s a t h = cc
  past_ok_or (some b) e k s a t h = let same : a ≡ b = cc in subst (λ c. Returns Q (k c s)) same h

  pub past_call :
      {A : Type 0} (r : Result E (A × S)) (k : A → M S E B)
      → Returns (λ s. Unit {0}) r
      → ((a : A) (s : S) → Returns Q (k a s))
      → Returns Q (and_then r k)
  past_call (ok (a, s)) k p h = h a s
  past_call (err e) k p h = absurd p
  past_call trap k p h = absurd p

-- What holds of the value and the storage that an invocation returns, if it succeeds.
abbrev pub Gives : {S E A : Type 0} → (A → S → Type 0) → Result E (A × S) → Type 0
Gives Q (ok (a, s)) = Q a s
Gives Q (err e) = Unit
Gives Q trap = Unit

module _ {S E B : Type 0} (Q : B → S → Type 0) where
  pub Gives-call :
      {A : Type 0} (r : Result E (A × S)) (R : A → S → Type 0) (k : A → M S E B)
      → Gives R r
      → ((a : A) (s' : S) → R a s' → Gives Q (k a s'))
      → Gives Q (and_then r k)
  Gives-call (ok (a, s')) R k p h = h a s' p
  Gives-call (err e) R k p h = tt
  Gives-call trap R k p h = tt

  pub Gives-ok_or :
      {A : Type 0} (o : Option A) (e : E) (k : A → M S E B) (s : S)
      → ((a : A) → o ≡ some a → Gives Q (k a s))
      → Gives Q ((ok_or o e >>= k) s)
  Gives-ok_or none e k s h = tt
  Gives-ok_or (some a) e k s h = h a refl

  pub Gives-fail_if :
      (b : Bool) (e : E) (k : Unit {0} → M S E B) (s : S)
      → (b ≡ false → Gives Q (k tt s))
      → Gives Q ((fail_if b e >>= k) s)
  Gives-fail_if true e k s h = tt
  Gives-fail_if false e k s h = h refl

pub Gives-any : {S E A : Type 0} (r : Result E (A × S)) → Gives (λ _ _. Unit) r
Gives-any (ok (a, s)) = tt
Gives-any (err e) = tt
Gives-any trap = tt

pub Gives-map :
    {S E A : Type 0} (P Q : A → S → Type 0) (r : Result E (A × S))
    → ((a : A) (s : S) → P a s → Q a s)
    → Gives P r
    → Gives Q r
Gives-map P Q (ok (a, s)) f p = f a s p
Gives-map P Q (err e) f p = tt
Gives-map P Q trap f p = tt
