-- ===== src/Reputation/Storage.antt =====
-- packages/reputation-registry/src/storage.rs. A missing entry reads as 0 or as the empty log. The
-- extensions of an entry's time to live are not modelled.
use moistello_contracts.Prelude.{ℕ, ◌+◌, [], push_back, wrapping_u32}
use moistello_contracts.Soroban.Contract.{Address, Env}
use moistello_contracts.Soroban.Map.{get_or, set, address_key, pair_key}
use moistello_contracts.Reputation.Types.{Registry}

abbrev pub get_score : Address → Registry → ℕ
get_score member r = get_or 0 member r.member_score

abbrev pub set_score : Address → ℕ → Registry → Registry
set_score member score r = record r { member_score = set member score r.member_score }

abbrev pub get_streak : Address → Address → Registry → ℕ
get_streak member circle_id r = get_or 0 (member, circle_id) r.streak

abbrev pub set_streak : Address → Address → ℕ → Registry → Registry
set_streak member circle_id n r = record r { streak = set (member, circle_id) n r.streak }

abbrev pub increment_streak : Address → Address → Registry → Registry
increment_streak member circle_id r =
    set_streak member circle_id (wrapping_u32 (get_streak member circle_id r + 1)) r

abbrev pub get_completions : Address → Registry → ℕ
get_completions member r = get_or 0 member r.completions

abbrev pub increment_completions : Address → Registry → Registry
increment_completions member r = record r {
  completions = set member (wrapping_u32 (get_completions member r + 1)) r.completions;
}

abbrev pub get_defaults : Address → Registry → ℕ
get_defaults member r = get_or 0 member r.defaults

abbrev pub increment_defaults : Address → Registry → Registry
increment_defaults member r = record r {
  defaults = set member (wrapping_u32 (get_defaults member r + 1)) r.defaults;
}

abbrev pub add_activity : Env → Address → ℕ → ℕ → Registry → Registry
add_activity env member activity_type impact r = record r {
  member_log =
      set member
        (push_back (get_or [] member r.member_log) (record {
          user = member;
          activity_type = activity_type;
          score_impact = impact;
          timestamp = env.timestamp;
        }))
        r.member_log;
}

abbrev pub get_last_round : Address → Address → Registry → ℕ
get_last_round member circle_id r = get_or 0 (member, circle_id) r.last_round

abbrev pub set_last_round : Address → Address → ℕ → Registry → Registry
set_last_round member circle_id round r = record r {
  last_round = set (member, circle_id) round r.last_round;
}
