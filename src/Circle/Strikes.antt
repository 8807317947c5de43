-- ===== src/Circle/Strikes.antt =====
-- What a strike in a round means: `strike_non_contributors` and `contribute` of
-- packages/circle/src/contract.rs.
use moistello_contracts.Prelude.{
  ℕ, ℤ, ◌≡◌, refl, sym, ◌∙◌, not, Bool, true, false, ◌&&◌, ◌||◌, ◌==◌, ltb, leb, if◌then◌else◌,
  List, [], ◌∷◌, arith, saturating_add_u32, Bool-cases, some, inl, inr, ==_iff,
}
use moistello_contracts.Soroban.Contract.{Address, Env}
use moistello_contracts.Soroban.Outcome.{
  Post, after_ok_or, after_require, after_call, after_fail_if,
}
use moistello_contracts.Soroban.Keeps.{Refuses, Refuses-rest, Keeps-map_err}
use moistello_contracts.Soroban.Map.{get_or, set, get_or-set, address_key}
use moistello_contracts.Common.Pause.{Keeps-when_not_paused}
use moistello_contracts.Common.Reentrancy.{Refuses-guarded}
use moistello_contracts.Common.TokenTransfer.{TokenLedger}
use moistello_contracts.Circle.Types.{
  Circle, Member, Store, not_active, status_active, circle_lock, circle_pause,
}
use moistello_contracts.Circle.Rounds.{is_awaited, strikes_in, struck_in_round, record_round_strike}
use moistello_contracts.Circle.Sweep.{
  default_member, strike_member, strike_each, strike_non_contributors, any_awaited, struck_members,
}
use moistello_contracts.Circle.Contribute.{
  when_not_paused, admit_contribution, contribute_unlocked, contribute,
}

-- Whether the round waits for a member with this address.
abbrev pub is_owing : List Address → Address → List Member → Bool
is_owing contributors account [] = false
is_owing contributors account (m ∷ members) =
    (m.address == account && is_awaited contributors m) || is_owing contributors account members

one_more : (n : ℕ) → ltb 0 (saturating_add_u32 n 1) ≡ true
one_more n = ground arith

module _ {W : Type 0} where
  -- A strike counts for its member, and for its member only.
  strikes_in-strike_member :
      (env : Env) (circle : Circle) (round : ℕ) (m : Member) (s : Store W) (account : Address)
      → strikes_in (strike_member env circle round m s) round account ≡ (
          if m.address == account
          then saturating_add_u32 (strikes_in s round m.address) 1
          else strikes_in s round account)
  strikes_in-strike_member env circle round m s account =
      by_limit (leb circle.max_strikes (saturating_add_u32 m.strikes 1))
    where
      recorded :
          (x : Store W)
          → strikes_in (record_round_strike round m.address x) round account ≡ (
              if m.address == account
              then saturating_add_u32 (strikes_in x round m.address) 1
              else strikes_in x round account)
      recorded x =
          rw
            (get_or-set [] round round
              (set m.address (saturating_add_u32 (strikes_in x round m.address) 1)
                (get_or [] round x.round_strikes))
              x.round_strikes)
            (rw ((==_iff round round).1 refl) (
              get_or-set 0 m.address account (saturating_add_u32 (strikes_in x round m.address) 1)
                (get_or [] round x.round_strikes)))

      by_limit :
          (b : Bool)
          → strikes_in
              (record_round_strike round m.address
                (if b then default_member env m.address s else s))
              round
              account
            ≡ (if m.address == account
                then saturating_add_u32 (strikes_in s round m.address) 1
                else strikes_in s round account)
      by_limit true = recorded (default_member env m.address s)
      by_limit false = recorded s

  strike_each_keeps :
      (env : Env) (circle : Circle) (round : ℕ) (contributors : List Address)
      (members : List Member) (s : Store W) (account : Address)
      → struck_in_round s round account ≡ true
      → struck_in_round (strike_each env circle round contributors members s) round account ≡ true
  unfolding strike_each
  strike_each_keeps env circle round contributors [] s account h = h
  strike_each_keeps env circle round contributors (m ∷ members) s account h =
      strike_each_keeps env circle round contributors members _ account
        (by_test (is_awaited contributors m))
    where
      by_test :
          (b : Bool)
          → struck_in_round (if b then strike_member env circle round m s else s) round account
            ≡ true
      by_test true =
          rw (strikes_in-strike_member env circle round m s account)
            (elim (Bool-cases (m.address == account)) [
              | inl same ↦ rw same (one_more (strikes_in s round m.address))
              | inr other ↦ rw other h
            ])
      by_test false = h

  strike_each_lem :
      (env : Env) (circle : Circle) (round : ℕ) (contributors : List Address)
      (members : List Member) (s : Store W) (account : Address)
      → is_owing contributors account members ≡ true
      → struck_in_round (strike_each env circle round contributors members s) round account ≡ true
  unfolding strike_each
  strike_each_lem env circle round contributors [] s account owing = cc
  strike_each_lem env circle round contributors (m ∷ members) s account owing =
      elim (Bool-cases (m.address == account && is_awaited contributors m)) [
        | inl due ↦ strike_each_keeps env circle round contributors members _ account (
            struck (is_awaited contributors m)
              (both (m.address == account) (is_awaited contributors m) due))
        | inr free ↦
            strike_each_lem env circle round contributors members _ account (rw free at owing)
      ]
    where
      both : (a b : Bool) → (a && b) ≡ true → (a ≡ true) × (b ≡ true)
      both true true e = (refl, refl)
      both true false e = cc
      both false b e = cc

      struck :
          (b : Bool)
          → ((m.address == account) ≡ true) × (b ≡ true)
          → struck_in_round (if b then strike_member env circle round m s else s) round account
            ≡ true
      struck true e =
          rw (strikes_in-strike_member env circle round m s account)
            (rw (e.0) (one_more (strikes_in s round m.address)))
      struck false e = cc

module _ {W : Type 0} (t : TokenLedger W) where
  contribute_unlocked_struck :
      (env : Env) (member : Address) (amount : ℤ) (round : ℕ)
      → Refuses
          (λ s. struck_in_round s round member ≡ true)
          (contribute_unlocked t env member amount round)
  unfolding contribute_unlocked admit_contribution
  contribute_unlocked_struck env member amount round = record {
    refused = λ s struck. after_require _ (env.authorized member) _ s λ _.
        after_ok_or _ s.circle _ _ s λ circle _.
          after_call _ (admit_contribution circle member amount round s) (λ _. ⊥) _
            (after_fail_if _ (not (circle.status == status_active)) _ _ s λ _.
              after_fail_if (λ _. ⊥) (struck_in_round s round member) _ _ s
                λ clean. let same : true ≡ false = sym struck ∙ clean in cc)
            (λ _ s' n. absurd n);
  }

  -- A member with a strike in a round cannot contribute for that round.
  pub contribute_struck :
      (env : Env) (member : Address) (amount : ℤ) (round : ℕ) (s : Store W)
      → struck_in_round s round member ≡ true
      → Post (λ _. ⊥) (contribute t env member amount round s)
  unfolding contribute when_not_paused
  contribute_struck env member amount round s struck =
      (Refuses-rest (Keeps-map_err _ Keeps-when_not_paused) (λ _.
          Refuses-guarded not_active (λ b x h. h)
            (contribute_unlocked_struck env member amount round))).refused
        s struck

  -- The sweep of a round shuts out every active member that has not contributed for it: whatever the
  -- environment and the amount, no contribution of theirs for that round succeeds afterwards.
  pub sweep_shuts_out :
      (env later : Env) (circle : Circle) (round : ℕ) (contributors : List Address)
      (members : List Member) (s : Store W) (account : Address) (amount : ℤ)
      → is_owing contributors account members ≡ true
      → Post
          (λ _. ⊥)
          (contribute t later account amount round
            (strike_non_contributors env circle round contributors members s))
  unfolding strike_non_contributors
  sweep_shuts_out env later circle round contributors members s account amount owing =
      contribute_struck later account amount round _ (by_any (any_awaited contributors members))
    where
      by_any :
          (b : Bool)
          → struck_in_round
              (let struck = strike_each env circle round contributors members s in
                if b
                then record struck { members = some (struck_members circle contributors members) }
                else struck)
              round
              account
            ≡ true
      by_any true = strike_each_lem env circle round contributors members s account owing
      by_any false = strike_each_lem env circle round contributors members s account owing
