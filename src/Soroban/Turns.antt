-- ===== src/Soroban/Turns.antt =====
-- What a contract function that succeeds turns one property of the storage into, with one rule for
-- each kind of step.
use moistello_contracts.Prelude.{◌≡◌, refl, sym, ◌∙◌, subst, Bool, true, false, Option, none, some}
use moistello_contracts.Soroban.Result.{Result, ok, err, trap}
use moistello_contracts.Soroban.Contract.{
  M, and_then, ◌>>=◌, gets, ok_or, load, fail_if, map_err, if_else,
}
use moistello_contracts.Soroban.Outcome.{
  Gives, Post, Post-map, after_ok_or, after_call, Post-map_error,
}
use moistello_contracts.Soroban.Keeps.{Keeps, keeping}

-- From a storage with one property a contract function that succeeds reaches one with another.
pub record Turns {S E A : Type 0} (P Q : S → Type 0) (m : M S E A) : Type 0 where
  pub turned : (s : S) → P s → Post Q (m s)

module _ {S E : Type 0} {P Q : S → Type 0} where
  pub Turns-last :
      {A B : Type 0} {m : M S E A} (f : A → M S E B)
      → Keeps P m
      → ((a : A) → Turns P Q (f a))
      → Turns P Q (m >>= f)
  Turns-last {m = m} f k r = record {
    turned = λ s p. after_call Q (m s) P f (k.holds s p) (λ a s' q. (r a).turned s' q);
  }

  pub Turns-first :
      {A B : Type 0} {m : M S E A} (f : A → M S E B)
      → Turns P Q m
      → ((a : A) → Keeps Q (f a))
      → Turns P Q (m >>= f)
  Turns-first {m = m} f t k = record {
    turned = λ s p. after_call Q (m s) Q f (t.turned s p) (λ a s' q. (k a).holds s' q);
  }

  pub Turns-through :
      {A B : Type 0} {R : S → Type 0} {m : M S E A} (f : A → M S E B)
      → Turns P R m
      → ((a : A) → Turns R Q (f a))
      → Turns P Q (m >>= f)
  Turns-through {R = R} {m = m} f t k = record {
    turned = λ s p. after_call Q (m s) R f (t.turned s p) (λ a s' q. (k a).turned s' q);
  }

  pub Turns-unless :
      {B : Type 0} (b : Bool) (e : E) (k : Unit {0} → M S E B)
      → (b ≡ false → Turns P Q (k tt))
      → Turns P Q (fail_if b e >>= k)
  Turns-unless true e k h = record { turned = λ s p. tt }
  Turns-unless false e k h = h refl

-- A property that is lost for a while and then restored.
pub Keeps-through :
    {S E A B : Type 0} {P R : S → Type 0} {m : M S E A} (f : A → M S E B)
    → Turns P R m
    → ((a : A) → Turns R P (f a))
    → Keeps P (m >>= f)
Keeps-through {P = P} {R = R} {m = m} f t k = record {
  holds = λ s p. after_call P (m s) R f (t.turned s p) (λ a s' q. (k a).turned s' q);
}

module _ {S E : Type 0} {P : S → Type 0} where
  -- What has passed a test on the storage has the test's answer.
  pub Turns-gate :
      (f : S → Bool) (e : E) → Turns P (λ s. P s × (f s ≡ false)) (gets f >>= λ b. fail_if b e)
  Turns-gate f e = record { turned = λ s p. by_test s p (f s) refl }
    where
      by_test :
          (s : S) → P s → (b : Bool) → f s ≡ b → Post (λ s'. P s' × (f s' ≡ false)) (fail_if b e s)
      by_test s p true h = tt
      by_test s p false h = (p, h)

pub ruleset turning = (keeping, Turns-last, Turns-first, Turns-unless)

module _ {S E : Type 0} {P Q : S → Type 0} where
  -- What follows a read may use what has been read.
  pub Turns-reading :
      {A B : Type 0} (f : S → Option A) (e : E) {k : A → M S E B}
      → ((a : A) → Turns (λ s. P s × (f s ≡ some a)) Q (k a))
      → Turns P Q (load f e >>= k)
  Turns-reading f e {k} h = record { turned = λ s p. by_value s p (f s) refl }
    where
      by_value : (s : S) → P s → (o : Option _) → f s ≡ o → Post Q ((ok_or o e >>= k) s)
      by_value s p none read = tt
      by_value s p (some a) read = (h a).turned s (p, read)

  pub Turns-ok_or :
      {A B : Type 0} (o : Option A) (e : E) {k : A → M S E B}
      → ((a : A) → o ≡ some a → Turns P Q (k a))
      → Turns P Q (ok_or o e >>= k)
  Turns-ok_or none e h = record { turned = λ s p. tt }
  Turns-ok_or (some a) e h = h a refl

pub Turns-Keeps : {S E A : Type 0} {P : S → Type 0} {m : M S E A} → Turns P P m → Keeps P m
Turns-Keeps t = record { holds = t.turned }

pub Keeps-Turns : {S E A : Type 0} {P : S → Type 0} {m : M S E A} → Keeps P m → Turns P P m
Keeps-Turns k = record { turned = k.holds }

pub Keeps-reading :
    {S E A B : Type 0} {P : S → Type 0} (f : S → Option A) (e : E) {k : A → M S E B}
    → ((a : A) → Turns (λ s. P s × (f s ≡ some a)) P (k a))
    → Keeps P (load f e >>= k)
Keeps-reading f e h = Turns-Keeps (Turns-reading f e h)

-- A step that turns one property and keeps another.
pub Turns-both :
    {S E A : Type 0} {P Q N : S → Type 0} {m : M S E A}
    → Turns P Q m
    → Keeps N m
    → Turns (λ s. P s × N s) (λ s. Q s × N s) m
Turns-both {S} {E} {A} {P} {Q} {N} {m} t k = record {
  turned = λ s h. both (m s) (t.turned s h.0) (k.holds s h.1);
}
  where
    both : (r : Result E (A × S)) → Post Q r → Post N r → Post (λ s. Q s × N s) r
    both (ok r) q n = (q, n)
    both (err e) q n = tt
    both trap q n = tt

-- A read whose value is known.
pub Turns-known :
    {S E A B : Type 0} {P Q : S → Type 0} (f : S → Option A) (e : E) (k : A → M S E B) (a : A)
    → ((s : S) → P s → f s ≡ some a)
    → Turns P Q (k a)
    → Turns P Q (load f e >>= k)
Turns-known {Q = Q} f e k a known t = record {
  turned = λ s p. after_ok_or Q (f s) e k s λ b read.
      let same : some a ≡ some b = sym (known s p) ∙ read in
      let here : a ≡ b = cc in subst (λ c. Post Q (k c s)) here (t.turned s p);
}

-- The property that holds at the end may be weakened.
pub Turns-weaken :
    {S E A : Type 0} {P Q R : S → Type 0} {m : M S E A}
    → ((s : S) → Q s → R s)
    → Turns P Q m
    → Turns P R m
Turns-weaken {Q = Q} {R = R} {m = m} f t = record {
  turned = λ s p. Post-map Q R (m s) f (t.turned s p);
}

pub Turns-map_err :
    {S E F A : Type 0} {P Q : S → Type 0} (f : F → E) {m : M S F A}
    → Turns P Q m
    → Turns P Q (map_err f m)
Turns-map_err {Q = Q} f {m} t = record { turned = λ s p. Post-map_error Q f (m s) (t.turned s p) }

pub Turns-if_else :
    {S E A : Type 0} {P Q : S → Type 0} (b : Bool) {m n : M S E A}
    → Turns P Q m
    → Turns P Q n
    → Turns P Q (if_else b m n)
Turns-if_else true t u = record { turned = t.turned }
Turns-if_else false t u = record { turned = u.turned }

-- What follows a step may use what holds of its value.
pub Turns-value :
    {S E A B : Type 0} {P Q : S → Type 0} (R : A → Type 0) (m : M S E A) (f : A → M S E B)
    → ((s : S) → P s → Gives (λ a s'. R a × P s') (m s))
    → ((a : A) → R a → Turns P Q (f a))
    → Turns P Q (m >>= f)
Turns-value {S} {E} {A} {B} {P} {Q} R m f g h = record { turned = λ s p. by_result (m s) (g s p) }
  where
    by_result : (r : Result E (A × S)) → Gives (λ a s'. R a × P s') r → Post Q (and_then r f)
    by_result (ok (a, s')) given = (h a given.0).turned s' given.1
    by_result (err e) given = tt
    by_result trap given = tt
