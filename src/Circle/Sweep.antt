-- ===== src/Circle/Sweep.antt =====
-- `strike_non_contributors` of packages/circle/src/contract.rs: the strikes of a closed round.
use moistello_contracts.Prelude.{
  ℕ, Bool, false, ◌||◌, leb, if◌then◌else◌, List, [], ◌∷◌, some, saturating_add_u32,
}
use moistello_contracts.Soroban.Contract.{Address, Env}
use moistello_contracts.Soroban.Map.{set, address_key}
use moistello_contracts.Reputation.Scoring.{record_default}
use moistello_contracts.Circle.Types.{
  Circle, Member, member_struck, Store, with_event, member_defaulted,
}
use moistello_contracts.Circle.Rounds.{is_awaited, record_round_strike}

-- The member with one more strike, and defaulted if that was one too many.
abbrev pub with_strike : Circle → Member → Member
with_strike circle m =
    let strikes = saturating_add_u32 m.strikes 1 in
    if leb circle.max_strikes strikes
    then record m { strikes = strikes; status = member_defaulted }
    else record m { strikes = strikes }

-- The members after the loop.
unfoldable pub struck_members : Circle → List Address → List Member → List Member
struck_members circle contributors [] = []
struck_members circle contributors (m ∷ members) =
    (if is_awaited contributors m then with_strike circle m else m)
    ∷ struck_members circle contributors members

abbrev pub any_awaited : List Address → List Member → Bool
any_awaited contributors [] = false
any_awaited contributors (m ∷ members) =
    is_awaited contributors m || any_awaited contributors members

module _ {W : Type 0} where
  -- What is written when a member is defaulted.
  abbrev pub default_member : Env → Address → Store W → Store W
  default_member env member s = record s {
    registry = (record_default env member s.registry).1;
    member_status = set member member_defaulted s.member_status;
  }

  -- The body of the loop, apart from the update of the list.
  abbrev pub strike_member : Env → Circle → ℕ → Member → Store W → Store W
  strike_member env circle round m s =
      let strikes = saturating_add_u32 m.strikes 1 in
      with_event (member_struck m.address strikes) (
        record_round_strike round m.address
          (if leb circle.max_strikes strikes then default_member env m.address s else s))

  unfoldable pub strike_each : Env → Circle → ℕ → List Address → List Member → Store W → Store W
  strike_each env circle round contributors [] s = s
  strike_each env circle round contributors (m ∷ members) s =
      strike_each env circle round contributors members
        (if is_awaited contributors m then strike_member env circle round m s else s)

  unfoldable pub strike_non_contributors :
      Env → Circle → ℕ → List Address → List Member → Store W → Store W
  strike_non_contributors env circle round contributors members s =
      let struck = strike_each env circle round contributors members s in
      if any_awaited contributors members
      then record struck { members = some (struck_members circle contributors members) }
      else struck
