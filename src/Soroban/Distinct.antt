-- ===== src/Soroban/Distinct.antt =====
-- Maps that hold a key at most once, as `soroban_sdk::Map` does.
use moistello_contracts.Prelude.{
  ◌≡◌, refl, subst, Bool-cases, inl, inr, none, [], ◌∷◌, if◌then◌else◌, arith,
}
use moistello_contracts.Soroban.Map.{Key, Map, get, set, get-set}
use moistello_contracts.Soroban.Totals.{remove}

module _ {ℓ κ} {K : Type ℓ} {V : Type κ} ⦃e : Key K⦄ where
  abbrev pub IsDistinct : Map K V → Type κ
  IsDistinct [] = Unit
  IsDistinct ((j, v) ∷ m) = (get j m ≡ none) × IsDistinct m

  pub get-remove :
      (k j : K) (m : Map K V)
      → IsDistinct m
      → get j (remove k m) ≡ (if e.beq k j then none else get j m)
  unfolding get remove
  get-remove k j [] h = ground arith
  get-remove k j ((i, w) ∷ m) h =
      ground (arith, e.beq_iff k j, e.beq_iff i k, e.beq_iff i j, get-remove k j m h.1, h.0)

  pub set-IsDistinct : (k : K) (v : V) (m : Map K V) → IsDistinct m → IsDistinct (set k v m)
  unfolding set get
  set-IsDistinct k v [] h = (refl, tt)
  set-IsDistinct k v ((i, w) ∷ m) h = elim (Bool-cases (e.beq i k)) [
    | inl same ↦ rw same (subst (λ x. get x m ≡ none) ((e.beq_iff i k).0 same) h.0, h.1)
    | inr other ↦
        let kept : get i (set k v m) ≡ none =
          ground (arith, e.beq_iff k i, e.beq_iff i k, get-set k i v m, h.0) in
        rw other (kept, set-IsDistinct k v m h.1)
  ]

  pub remove-IsDistinct : (k : K) (m : Map K V) → IsDistinct m → IsDistinct (remove k m)
  unfolding remove
  remove-IsDistinct k [] h = tt
  remove-IsDistinct k ((i, w) ∷ m) h = elim (Bool-cases (e.beq i k)) [
    | inl same ↦ rw same h.1
    | inr other ↦ rw other (ground (arith, get-remove k i m h.1, h.0), remove-IsDistinct k m h.1)
  ]
