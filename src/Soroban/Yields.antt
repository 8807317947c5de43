-- ===== src/Soroban/Yields.antt =====
-- What holds of the value of a function that reads the storage, with one rule for each kind of step,
-- and what holds of the elements of a list.
use moistello_contracts.Prelude.{
  ◌≡◌, refl, Bool, true, false, Option, none, some, List, [], ◌∷◌, ◌⊎◌, inl, inr,
}
use moistello_contracts.Soroban.Result.{Result, ok, err, trap, ◌>>=◌, result_ok_or, result_fail_if}

-- What holds of the value if the function returns one.
abbrev pub Yields : {E A : Type 0} → (A → Type 0) → Result E A → Type 0
Yields Q (ok a) = Q a
Yields Q (err e) = Unit
Yields Q trap = Unit

module _ {E B : Type 0} (Q : B → Type 0) where
  pub Yields-fail_if :
      (b : Bool) (e : E) (k : Unit {0} → Result E B)
      → (b ≡ false → Yields Q (k tt))
      → Yields Q (result_fail_if b e >>= k)
  Yields-fail_if true e k h = tt
  Yields-fail_if false e k h = h refl

  pub Yields-ok_or :
      {A : Type 0} (o : Option A) (e : E) (k : A → Result E B)
      → ((a : A) → o ≡ some a → Yields Q (k a))
      → Yields Q (result_ok_or o e >>= k)
  Yields-ok_or none e k h = tt
  Yields-ok_or (some a) e k h = h a refl

  pub Yields-last :
      (o : Option B) (e : E) → ((b : B) → o ≡ some b → Q b) → Yields Q (result_ok_or o e)
  Yields-last none e h = tt
  Yields-last (some b) e h = h b refl

  pub Yields-call :
      {A : Type 0} (P : A → Type 0) (r : Result E A) (k : A → Result E B)
      → Yields P r
      → ((a : A) → P a → Yields Q (k a))
      → Yields Q (r >>= k)
  Yields-call P (ok a) k p h = h a p
  Yields-call P (err e) k p h = tt
  Yields-call P trap k p h = tt

pub Yields-always : {E A Q : Type 0} (r : Result E A) → Q → Yields (λ _. Q) r
Yields-always (ok a) q = q
Yields-always (err e) q = tt
Yields-always trap q = tt

pub Yields-weaken :
    {E A : Type 0} {P Q : A → Type 0}
    → ((a : A) → P a → Q a)
    → (r : Result E A) → Yields P r
    → Yields Q r
Yields-weaken f (ok a) p = f a p
Yields-weaken f (err e) p = tt
Yields-weaken f trap p = tt

-- Some element of the list has the property.
abbrev pub Any : {A : Type 0} → (A → Type 0) → List A → Type 0
Any P [] = ⊥
Any P (a ∷ l) = P a ⊎ Any P l

pub Any-map :
    {A : Type 0} {P : A → Type 0} (Q : A → Type 0)
    → ((a : A) → P a → Q a)
    → (l : List A) → Any P l
    → Any Q l
Any-map Q f [] n = n
Any-map Q f (a ∷ l) (inl p) = inl (f a p)
Any-map Q f (a ∷ l) (inr later) = inr (Any-map Q f l later)

abbrev pub Each : {A : Type 0} → (A → Type 0) → List A → Type 0
Each P [] = Unit
Each P (a ∷ l) = P a × Each P l
