-- ===== src/Circle/Streaks.antt =====
-- `update_streak_internal` of packages/circle/src/contract.rs.
use moistello_contracts.Prelude.{
  ℕ, ◌+◌, ◌==◌, ltb, if◌then◌else◌, List, [], ◌∷◌, some, wrapping_u32,
}
use moistello_contracts.Soroban.Contract.{Address, unwrap_or}
use moistello_contracts.Circle.Types.{Streak, Store}

-- The body of the loop, for the member's entry.
abbrev pub advance_streak : ℕ → Streak → Streak
advance_streak round s =
    let next = wrapping_u32 (s.last_round + 1) in
    let grown = wrapping_u32 (s.current_streak + 1) in
    if s.current_streak == 0
    then record s {
      current_streak = 1;
      longest_streak = (if s.longest_streak == 0 then 1 else s.longest_streak);
      last_round = round;
    }
    else if round == next
    then record s {
      current_streak = grown;
      longest_streak = (if ltb s.longest_streak grown then grown else s.longest_streak);
      last_round = round;
    }
    else if ltb next round
    then record s { current_streak = 1; last_round = round }
    else s

abbrev pub new_streak : Address → ℕ → Streak
new_streak member round = record {
  member = member;
  current_streak = 1;
  longest_streak = 1;
  last_round = round;
}

unfoldable pub advance_streaks : Address → ℕ → List Streak → List Streak
advance_streaks member round [] = new_streak member round ∷ []
advance_streaks member round (s ∷ streaks) =
    if s.member == member
    then advance_streak round s ∷ streaks
    else s ∷ advance_streaks member round streaks

abbrev pub update_streak_internal : {W : Type 0} → Address → ℕ → Store W → Store W
update_streak_internal member round s = record s {
  streaks = some (advance_streaks member round (unwrap_or [] s.streaks));
}
