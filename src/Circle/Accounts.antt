-- ===== src/Circle/Accounts.antt =====
-- The records of contributions that packages/circle/src/contract.rs keeps next to its log.
use moistello_contracts.Prelude.{
  ℕ, ℤ, pos, ◌≡◌, refl, ap, subst, ◌∙◌, ◌+◌, ◌≤◌, Bool, true, false, ◌==◌, if◌then◌else◌, some,
  none, List, [], ◌∷◌, arith, push_back, saturating_add, Bool-cases, Option, inl, inr,
}
use moistello_contracts.Soroban.Contract.{Address, unwrap_or}
use moistello_contracts.Soroban.Map.{
  get, get_or, set, get-set, get_or-set, address_key, pair_key, pair_beq, pair_beq_iff, Map,
}
use moistello_contracts.Circle.Types.{Contribution, Store}
use moistello_contracts.Soroban.Turns.{Turns}
use moistello_contracts.Circle.Rounds.{
  derived_total, derived_contributors, add_contribution, add_contributor, contribution_log,
}
use moistello_contracts.Circle.Contribute.{has_contributed, with_contribution, record_contribution}

-- How often a member has contributed for a round, by the log.
abbrev pub times_contributed : Address → ℕ → List Contribution → ℕ
times_contributed member round [] = 0
times_contributed member round (c ∷ cs) =
    (if pair_beq (c.member, c.round) (member, round) then 1 else 0)
    + times_contributed member round cs

-- The entries for the rounds agree with the log, and no member is in the log twice for a round: not
-- at all unless it is known to have contributed.
pub record Accounts (log : List Contribution) (totals_of : Map ℕ ℤ)
    (contributors_of : Map ℕ (List Address)) (is_known : Address → ℕ → Bool) : Type 0 where
  pub totals : (round : ℕ) → get_or (pos 0) round totals_of ≡ derived_total round (pos 0) log
  pub contributors :
      (round : ℕ) → get_or [] round contributors_of ≡ derived_contributors round [] log
  pub once :
      (member : Address) (round : ℕ)
      → times_contributed member round log ≤ (if is_known member round then 1 else 0)

abbrev pub IsAccounted : {W : Type 0} → Store W → Type 0
IsAccounted s =
    Accounts (contribution_log s) s.round_total_contributed s.round_contributors
      (λ member round. has_contributed s member round)

pub derived_total-push_back :
    (round : ℕ) (total : ℤ) (cs : List Contribution) (c : Contribution)
    → derived_total round total (push_back cs c)
      ≡ add_contribution round (derived_total round total cs) c
derived_total-push_back round total [] c = refl
derived_total-push_back round total (d ∷ cs) c =
    derived_total-push_back round (add_contribution round total d) cs c

pub derived_contributors-push_back :
    (round : ℕ) (found : List Address) (cs : List Contribution) (c : Contribution)
    → derived_contributors round found (push_back cs c)
      ≡ add_contributor round (derived_contributors round found cs) c
derived_contributors-push_back round found [] c = refl
derived_contributors-push_back round found (d ∷ cs) c =
    derived_contributors-push_back round (add_contributor round found d) cs c

pub times_contributed-push_back :
    (member : Address) (round : ℕ) (cs : List Contribution) (c : Contribution)
    → times_contributed member round (push_back cs c)
      ≡ times_contributed member round cs
        + (if pair_beq (c.member, c.round) (member, round) then 1 else 0)
times_contributed-push_back member round [] c = omega arith
times_contributed-push_back member round (d ∷ cs) c =
    omega (arith, times_contributed-push_back member round cs c)

-- Two readings of all rounds that agree still agree after the same change of one round.
pub updates_agree :
    {V : Type 0} (g d : ℕ → V) (f : V → V) (round r : ℕ)
    → ((i : ℕ) → g i ≡ d i)
    → (if round == r then f (g round) else g r) ≡ (if round == r then f (d r) else d r)
updates_agree g d f round r h = elim (Bool-cases (round == r)) [
  | inl same ↦ let e : round ≡ r = ground arith in rw same (ap f (h round) ∙ ap (λ i. f (d i)) e)
  | inr other ↦ rw other (h r)
]

module _ {W : Type 0} where
  has_contributed-recorded :
      (s : Store W) (c : Contribution) (m : Address) (r : ℕ)
      → has_contributed (with_contribution s c) m r
        ≡ (if pair_beq (c.member, c.round) (m, r) then true else has_contributed s m r)
  has_contributed-recorded s c m r = elim (Bool-cases (pair_beq (c.member, c.round) (m, r))) [
    | inl same ↦
        rw (has_contributed, get-set (c.member, c.round) (m, r) true s.member_contributed)
          (rw same refl)
    | inr other ↦
        rw (has_contributed, get-set (c.member, c.round) (m, r) true s.member_contributed)
          (rw other (by_old s.contribs (get (m, r) s.member_contributed) other))
  ]
    where
      by_old :
          (contribs : Option (Map (Address × ℕ) Bool)) (found : Option Bool)
          → pair_beq (c.member, c.round) (m, r) ≡ false
          → elim found [
            | none ↦
                get_or false
                  (m, r)
                  (unwrap_or [] (elim contribs [
                    | none ↦ none
                    | some contrib_map ↦ some (set (c.member, c.round) true contrib_map)
                  ]))
            | some flag ↦ true
          ]
            ≡ elim found [ none ↦ get_or false (m, r) (unwrap_or [] contribs) | some flag ↦ true ]
      by_old contribs (some flag) other = refl
      by_old none none other = refl
      by_old (some old) none other =
          get_or-set false (c.member, c.round) (m, r) true old ∙ rw other refl

  -- A contribution that the records do not know yet keeps them in agreement.
  pub record_contribution-IsAccounted :
      (member : Address) (amount : ℤ) (round now : ℕ) (on_time : Bool)
      → Turns
          (λ s. IsAccounted s × (has_contributed s member round ≡ false))
          IsAccounted
          (record_contribution {W = W} member amount round now on_time)
  unfolding record_contribution
  record_contribution-IsAccounted member amount round now on_time = record {
    turned = λ s h.
        let c : Contribution = record {
          member = member;
          round = round;
          amount = amount;
          timestamp = now;
          on_time = on_time;
          time_weight = now;
        } in
        let log = contribution_log s in
        record {
          totals = λ r.
              rw
                (get_or-set (pos 0) round r
                  (saturating_add (get_or (pos 0) round s.round_total_contributed) amount)
                  s.round_total_contributed)
                (rw (derived_total-push_back r (pos 0) log c) (
                  updates_agree (λ i. get_or (pos 0) i s.round_total_contributed)
                    (λ i. derived_total i (pos 0) log) (λ total. saturating_add total amount) round
                    r h.0.totals));
          contributors = λ r.
              rw
                (get_or-set [] round r (push_back (get_or [] round s.round_contributors) member)
                  s.round_contributors)
                (rw (derived_contributors-push_back r [] log c) (
                  updates_agree (λ i. get_or [] i s.round_contributors)
                    (λ i. derived_contributors i [] log) (λ found. push_back found member) round r
                    h.0.contributors));
          once = λ m r. rw (times_contributed-push_back m r log c) (
              rw (has_contributed-recorded s c m r)
                (elim (Bool-cases (pair_beq (member, round) (m, r))) [
                  | inl same ↦
                      let e = (pair_beq_iff (member, round) (m, r)).0 same in
                      let fresh : times_contributed m r log ≤ 0 =
                        subst (λ q. times_contributed (q.0) (q.1) log ≤ 0) e
                          (rw h.1 at (h.0.once member round)) in
                      rw same (omega (arith, fresh))
                  | inr other ↦ rw other (omega (arith, h.0.once m r))
                ]));
        };
  }
