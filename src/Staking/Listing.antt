-- ===== src/Staking/Listing.antt =====
-- The list of stakers of packages/staking/src/contract.rs and the stakes.
use moistello_contracts.Prelude.{
  ◌≡◌, refl, ap, subst, ◌∙◌, Bool, true, false, ◌==◌, some, List, [], ◌∷◌, push_back, if◌then◌else◌,
  arith, Bool-cases, inl, inr,
}
use moistello_contracts.Soroban.Contract.{is_some, Address}
use moistello_contracts.Soroban.Map.{get, set, get-set, address_key}
use moistello_contracts.Soroban.Totals.{remove}
use moistello_contracts.Soroban.Distinct.{IsDistinct, get-remove, set-IsDistinct, remove-IsDistinct}
use moistello_contracts.Staking.Types.{StakePosition, Store}
use moistello_contracts.Staking.Positions.{without, stakers_of}

abbrev pub contains : Address → List Address → Bool
contains user [] = false
contains user (a ∷ stakers) = let rest = contains user stakers in if a == user then true else rest

contains-push_back :
    (user account : Address) (stakers : List Address)
    → contains user (push_back stakers account)
      ≡ (if account == user then true else contains user stakers)
contains-push_back user account [] = refl
contains-push_back user account (a ∷ stakers) =
    ground (arith, contains-push_back user account stakers)

contains-without :
    (user account : Address) (stakers : List Address)
    → contains user (without account stakers)
      ≡ (if account == user then false else contains user stakers)
contains-without user account [] = ground arith
contains-without user account (a ∷ stakers) = ground (arith, contains-without user account stakers)

module _ {W : Type 0} where
  -- No user has two stakes, and the list names the users that have one.
  abbrev pub IsListed : Store W → Type 0
  IsListed s =
      IsDistinct s.stakes
      × ((user : Address) → contains user (stakers_of s) ≡ is_some (get user s.stakes))

  -- A new stake and its user in the list.
  pub opened-IsListed :
      (user : Address) (position : StakePosition) (s : Store W)
      → IsListed s
      → IsListed (record s {
        stakes = set user position s.stakes;
        staker_list = some (push_back (stakers_of s) user);
      })
  opened-IsListed user position s h = (
    set-IsDistinct user position s.stakes h.0,
    λ account. ground (
      arith,
      contains-push_back account user (stakers_of s),
      get-set user account position s.stakes,
      h.1 account,
    ),
  )

  -- A new position in place of a stake.
  pub put-IsListed :
      (user : Address) (position old : StakePosition) (s : Store W)
      → IsListed s
      → get user s.stakes ≡ some old
      → IsListed (record s { stakes = set user position s.stakes })
  put-IsListed user position old s h held = (
    set-IsDistinct user position s.stakes h.0,
    λ account. elim (Bool-cases (user == account)) [
      | inl same ↦
          let e : user ≡ account = ground arith in
          let still = subst (λ a. get a s.stakes ≡ some old) e held in
          rw (get-set user account position s.stakes) (rw same (h.1 account ∙ ap is_some still))
      | inr other ↦ rw (get-set user account position s.stakes) (rw other (h.1 account))
    ],
  )

  pub dropped-IsListed :
      (user : Address) (s : Store W)
      → IsListed s
      → IsListed (record s {
        stakes = remove user s.stakes;
        staker_list = some (without user (stakers_of s));
      })
  dropped-IsListed user s h = (
    remove-IsDistinct user s.stakes h.0,
    λ account. ground (
      arith,
      contains-without account user (stakers_of s),
      get-remove user account s.stakes h.0,
      h.1 account,
    ),
  )
