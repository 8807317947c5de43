-- ===== src/Soroban/Keeps.antt =====
-- A property of the storage that a contract function keeps, whatever the function returns, with one
-- rule for each kind of step.
use moistello_contracts.Prelude.{◌≡◌, refl, Bool, true, false, Option, none, some}
use moistello_contracts.Soroban.Result.{Result, ok, err, trap}
use moistello_contracts.Soroban.Contract.{
  M, ◌>>=◌, pure, throw, gets, modify, ok_or, load, fail_if, require, when, map_err, lift, or_err,
  only_if, if_some, if_else, within, put_back,
}
use moistello_contracts.Soroban.Outcome.{Post, after_call, Post-map_error}

pub record Keeps {S E A : Type 0} (P : S → Type 0) (m : M S E A) : Type 0 where
  pub holds : (s : S) → P s → Post P (m s)

module _ {S E : Type 0} {P : S → Type 0} where
  pub Keeps-bind :
      {A B : Type 0} {m : M S E A} {f : A → M S E B}
      → Keeps P m
      → ((a : A) → Keeps P (f a))
      → Keeps P (m >>= f)
  Keeps-bind {m = m} {f = f} k h = record {
    holds = λ s p. after_call P (m s) P f (k.holds s p) (λ a s' q. (h a).holds s' q);
  }

  pub Keeps-pure : {A : Type 0} (a : A) → Keeps {E = E} P (pure a)
  Keeps-pure a = record { holds = λ s p. p }

  pub Keeps-gets : {A : Type 0} (f : S → A) → Keeps {E = E} P (gets f)
  Keeps-gets f = record { holds = λ s p. p }

  pub Keeps-modify : {f : S → S} → ((s : S) → P s → P (f s)) → Keeps {E = E} P (modify f)
  Keeps-modify h = record { holds = h }

  pub Keeps-ok_or : {A : Type 0} (o : Option A) (e : E) → Keeps P (ok_or o e)
  Keeps-ok_or none e = record { holds = λ s p. tt }
  Keeps-ok_or (some a) e = record { holds = λ s p. p }

  pub Keeps-load : {A : Type 0} (f : S → Option A) (e : E) → Keeps P (load f e)
  Keeps-load f e = record { holds = λ s p. (Keeps-ok_or (f s) e).holds s p }

  pub Keeps-fail_if : (b : Bool) (e : E) → Keeps P (fail_if b e)
  Keeps-fail_if true e = record { holds = λ s p. tt }
  Keeps-fail_if false e = record { holds = λ s p. p }

  pub Keeps-require : (b : Bool) → Keeps {E = E} P (require b)
  Keeps-require true = record { holds = λ s p. p }
  Keeps-require false = record { holds = λ s p. tt }

  pub Keeps-when : (b : Bool) (f : S → S) → ((s : S) → P s → P (f s)) → Keeps {E = E} P (when b f)
  Keeps-when true f h = record { holds = h }
  Keeps-when false f h = record { holds = λ s p. p }

  pub Keeps-map_err : {F A : Type 0} (f : F → E) {m : M S F A} → Keeps P m → Keeps P (map_err f m)
  Keeps-map_err f {m} k = record { holds = λ s p. Post-map_error P f (m s) (k.holds s p) }

  pub Keeps-lift : {A : Type 0} (r : Result E A) → Keeps P (lift r)
  Keeps-lift (ok a) = record { holds = λ s p. p }
  Keeps-lift (err e) = record { holds = λ s p. tt }
  Keeps-lift trap = record { holds = λ s p. tt }

  pub Keeps-or_err : {F A : Type 0} (r : Result F A) (e : E) → Keeps P (or_err r e)
  Keeps-or_err (ok a) e = record { holds = λ s p. p }
  Keeps-or_err (err f) e = record { holds = λ s p. tt }
  Keeps-or_err trap e = record { holds = λ s p. tt }

  pub Keeps-only_if :
      (b : Bool) {m : M S E (Unit {0})} → (b ≡ true → Keeps P m) → Keeps P (only_if b m)
  Keeps-only_if true k = record { holds = λ s p. (k refl).holds s p }
  Keeps-only_if false k = record { holds = λ s p. p }

  pub Keeps-if_some :
      {A : Type 0} (o : Option A) {f : A → M S E (Unit {0})}
      → ((a : A) → Keeps P (f a))
      → Keeps P (if_some o f)
  Keeps-if_some none k = record { holds = λ s p. p }
  Keeps-if_some (some a) k = record { holds = λ s p. (k a).holds s p }

  pub Keeps-throw : {A : Type 0} (e : E) → Keeps {A = A} P (throw e)
  Keeps-throw e = record { holds = λ s p. tt }

  pub Keeps-if_else :
      {A : Type 0} (b : Bool) {m n : M S E A} → Keeps P m → Keeps P n → Keeps P (if_else b m n)
  Keeps-if_else true k l = record { holds = k.holds }
  Keeps-if_else false k l = record { holds = l.holds }

  pub Keeps-within :
      {V F A : Type 0} (part : S → V) (put : V → S → S) (e : E) (m : M V F A)
      → ((v : V) (s : S) → P s → P (put v s))
      → Keeps P (within part put e m)
  Keeps-within {V} {F} {A} part put e m stable = record {
    holds = λ s p. by_result (m (part s)) s p;
  }
    where
      by_result : (r : Result F (A × V)) (s : S) → P s → Post P (put_back put s e r)
      by_result (ok (a, v)) s p = stable v s p
      by_result (err f) s p = tt
      by_result trap s p = tt

  -- What follows a test may use that the test has not failed.
  pub Keeps-unless :
      {B : Type 0} (b : Bool) (e : E) (k : Unit {0} → M S E B)
      → (b ≡ false → Keeps P (k tt))
      → Keeps P (fail_if b e >>= k)
  Keeps-unless true e k h = record { holds = λ s p. tt }
  Keeps-unless false e k h = h refl

  pub Keeps-given :
      {B : Type 0} (b : Bool) (k : Unit {0} → M S E B)
      → (b ≡ true → Keeps P (k tt))
      → Keeps P (require b >>= k)
  Keeps-given true k h = h refl
  Keeps-given false k h = record { holds = λ s p. tt }

pub ruleset keeping = (
  Keeps-bind, Keeps-pure, Keeps-gets, Keeps-modify, Keeps-ok_or, Keeps-load, Keeps-fail_if,
  Keeps-require, Keeps-when, Keeps-map_err, Keeps-lift, Keeps-or_err, Keeps-only_if, Keeps-if_some,
  Keeps-if_else, Keeps-within,
)

-- A contract function that does not succeed on a storage with the property.
pub record Refuses {S E A : Type 0} (P : S → Type 0) (m : M S E A) : Type 0 where
  pub refused : (s : S) → P s → Post (λ _. ⊥) (m s)

module _ {S E : Type 0} {P : S → Type 0} where
  pub Refuses-first :
      {A B : Type 0} {m : M S E A} (f : A → M S E B) → Refuses P m → Refuses P (m >>= f)
  Refuses-first {m = m} f r = record {
    refused = λ s p. after_call (λ _. ⊥) (m s) (λ _. ⊥) f (r.refused s p) (λ a s' n. absurd n);
  }

  pub Refuses-rest :
      {A B : Type 0} {m : M S E A} {f : A → M S E B}
      → Keeps P m
      → ((a : A) → Refuses P (f a))
      → Refuses P (m >>= f)
  Refuses-rest {m = m} {f = f} k r = record {
    refused = λ s p. after_call (λ _. ⊥) (m s) P f (k.holds s p) (λ a s' q. (r a).refused s' q);
  }

  pub Refuses-require : (b : Bool) → b ≡ false → Refuses {E = E} P (require b)
  Refuses-require true e = cc
  Refuses-require false e = record { refused = λ s p. tt }

  pub Refuses-map_err :
      {F A : Type 0} (f : F → E) {m : M S F A} → Refuses P m → Refuses P (map_err f m)
  Refuses-map_err f {m} r = record {
    refused = λ s p. Post-map_error (λ _. ⊥) f (m s) (r.refused s p);
  }

pub ruleset refusing = (keeping, Refuses-first, Refuses-rest, Refuses-require, Refuses-map_err)
