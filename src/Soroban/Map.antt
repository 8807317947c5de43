-- ===== src/Soroban/Map.antt =====
-- `soroban_sdk::Map` with `get` and `set`, for the maps whose order of iteration is not observed:
-- an association list that holds a key at most once.
use moistello_contracts.Prelude.{
  ℕ, ◌≡◌, refl, ◌↔◌, Bool, true, ◌&&◌, Option, none, some, List, [], ◌∷◌, arith, ◌==◌ as nat_beq,
  ==_iff, if◌then◌else◌, ℤ, pos, ◌+ℤ◌, ◌≤ℤ◌, int_laws, Bool-cases, inl, inr,
}
use moistello_contracts.Soroban.Contract.{unwrap_or}

-- The keys of a map: a type with a Boolean equality.
pub record Key {ℓ} (K : Type ℓ) : Type ℓ where
  pub beq : K → K → Bool
  pub beq_iff : (a b : K) → (beq a b ≡ true) ↔ (a ≡ b)

abbrev pub pair_beq : ℕ × ℕ → ℕ × ℕ → Bool
pair_beq p q = nat_beq p.0 q.0 && nat_beq p.1 q.1

pub pair_beq_iff : (p q : ℕ × ℕ) → (pair_beq p q ≡ true) ↔ (p ≡ q)
pair_beq_iff p q = ground arith

instance abbrev pub address_key : Key ℕ
address_key = record { beq = nat_beq; beq_iff = ==_iff }

instance abbrev pub pair_key : Key (ℕ × ℕ)
pair_key = record { beq = pair_beq; beq_iff = pair_beq_iff }

abbrev pub Map {ℓ κ} : Type ℓ → Type κ → Type (ℓ ⊔ κ)
Map K V = List (K × V)

module _ {ℓ κ} {K : Type ℓ} {V : Type κ} ⦃e : Key K⦄ where
  unfoldable pub get : K → Map K V → Option V
  get k [] = none
  get k ((j, v) ∷ m) = if e.beq j k then some v else get k m

  unfoldable pub set : K → V → Map K V → Map K V
  set k v [] = (k, v) ∷ []
  set k v ((j, w) ∷ m) = if e.beq j k then (k, v) ∷ m else (j, w) ∷ set k v m

  pub get-set :
      (k j : K) (v : V) (m : Map K V) → get j (set k v m) ≡ (if e.beq k j then some v else get j m)
  unfolding get set
  get-set k j v [] = refl
  get-set k j v ((i, w) ∷ m) =
      ground (arith, e.beq_iff k j, e.beq_iff i k, e.beq_iff i j, get-set k j v m)

  -- `m.get(k).unwrap_or(d)`
  abbrev pub get_or : V → K → Map K V → V
  get_or d k m = unwrap_or d (get k m)

  pub get_or-set :
      (d : V) (k j : K) (v : V) (m : Map K V)
      → get_or d j (set k v m) ≡ (if e.beq k j then v else get_or d j m)
  get_or-set d k j v m = elim (Bool-cases (e.beq k j)) [
    | inl same ↦ rw (get-set k j v m) (rw same)
    | inr other ↦ rw (get-set k j v m) (rw other)
  ]

  -- Every value of the map satisfies the predicate.
  abbrev pub All {ι} : (V → Type ι) → Map K V → Type ι
  All P [] = Unit
  All P ((j, v) ∷ m) = P v × All P m

  pub set-All {ι} :
      (P : V → Type ι) (k : K) (v : V) (m : Map K V) → P v → All P m → All P (set k v m)
  unfolding set
  set-All P k v [] p h = (p, tt)
  set-All P k v ((j, w) ∷ m) p h = elim (Bool-cases (e.beq j k)) [
    | inl same ↦ rw same (p, h.1)
    | inr other ↦ rw other (h.0, set-All P k v m p h.1)
  ]

-- Maps from keys to amounts, and the sum of the amounts.
module _ {ℓ} {K : Type ℓ} ⦃e : Key K⦄ where
  abbrev pub sum : Map K ℤ → ℤ
  sum [] = pos 0
  sum ((j, v) ∷ m) = v +ℤ sum m

  -- An update moves the sum by the change of the one value.
  pub sum-set : (k : K) (v : ℤ) (m : Map K ℤ) → sum (set k v m) +ℤ get_or (pos 0) k m ≡ sum m +ℤ v
  unfolding set get
  sum-set k v [] = omega int_laws
  sum-set k v ((j, w) ∷ m) = elim (Bool-cases (e.beq j k)) [
    | inl same ↦ rw same (omega int_laws)
    | inr other ↦ rw other (grind (int_laws, sum-set k v m))
  ]

  abbrev pub Nonneg : Map K ℤ → Type 0
  Nonneg = All (λ v. pos 0 ≤ℤ v)

  pub sum_nonneg : (m : Map K ℤ) → Nonneg m → pos 0 ≤ℤ sum m
  sum_nonneg [] h = omega arith
  sum_nonneg ((j, v) ∷ m) h = omega (int_laws, sum_nonneg m h.1)

  -- No value exceeds the sum of a map without negative values.
  pub get_or_bounds :
      (k : K) (m : Map K ℤ)
      → Nonneg m
      → (pos 0 ≤ℤ get_or (pos 0) k m) × (get_or (pos 0) k m ≤ℤ sum m)
  unfolding get
  get_or_bounds k [] h = omega arith
  get_or_bounds k ((j, v) ∷ m) h = elim (Bool-cases (e.beq j k)) [
    | inl same ↦ rw same (omega (int_laws, sum_nonneg m h.1))
    | inr other ↦ rw other (omega (int_laws, get_or_bounds k m h.1))
  ]
