-- ===== src/Soroban/Totals.antt =====
-- Removal from a map, and the sum of an amount over the values of a map.
use moistello_contracts.Prelude.{
  ◌≡◌, subst, Bool-cases, inl, inr, Option, none, some, [], ◌∷◌, if◌then◌else◌, ℤ, pos, ◌+ℤ◌,
  int_laws,
}
use moistello_contracts.Soroban.Map.{Key, Map, get, set, All}

-- What a value weighs; no value weighs nothing.
abbrev pub amount_of {κ} : {V : Type κ} → (V → ℤ) → Option V → ℤ
amount_of f none = pos 0
amount_of f (some v) = f v

module _ {ℓ κ} {K : Type ℓ} {V : Type κ} ⦃e : Key K⦄ where
  -- `m.remove(k)`, of the one entry of a key.
  unfoldable pub remove : K → Map K V → Map K V
  remove k [] = []
  remove k ((j, w) ∷ m) = if e.beq j k then m else (j, w) ∷ remove k m

  pub remove-All {ι} : (P : V → Type ι) (k : K) (m : Map K V) → All P m → All P (remove k m)
  unfolding remove
  remove-All P k [] h = tt
  remove-All P k ((j, w) ∷ m) h = elim (Bool-cases (e.beq j k)) [
    | inl same ↦ rw same h.1
    | inr other ↦ rw other (h.0, remove-All P k m h.1)
  ]

  -- A value that is read has what every value has.
  pub get-All {ι} :
      (P : V → Type ι) (k : K) (m : Map K V) (v : V) → All P m → get k m ≡ some v → P v
  unfolding get
  get-All P k [] v h found = cc
  get-All P k ((j, w) ∷ m) v h found = elim (Bool-cases (e.beq j k)) [
    | inl same ↦ subst_first P w v h.0 (rw same at found)
    | inr other ↦ get-All P k m v h.1 (rw other at found)
  ]
    where
      subst_first : (P : V → Type ι) (w v : V) → P w → some w ≡ some v → P v
      subst_first P w v p h = let same : w ≡ v = cc in subst P same p

  module _ (f : V → ℤ) where
    abbrev pub total : Map K V → ℤ
    total [] = pos 0
    total ((j, v) ∷ m) = f v +ℤ total m

    pub total-set :
        (k : K) (v : V) (m : Map K V) → total (set k v m) +ℤ amount_of f (get k m) ≡ total m +ℤ f v
    unfolding set get
    total-set k v [] = omega int_laws
    total-set k v ((j, w) ∷ m) = elim (Bool-cases (e.beq j k)) [
      | inl same ↦ rw same (omega int_laws)
      | inr other ↦ rw other (grind (int_laws, total-set k v m))
    ]

    pub total-remove : (k : K) (m : Map K V) → total (remove k m) +ℤ amount_of f (get k m) ≡ total m
    unfolding remove get
    total-remove k [] = omega int_laws
    total-remove k ((j, w) ∷ m) = elim (Bool-cases (e.beq j k)) [
      | inl same ↦ rw same (omega int_laws)
      | inr other ↦ rw other (grind (int_laws, total-remove k m))
    ]
