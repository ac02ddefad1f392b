-- ===== src/Compensation/Scoring/Basis.antt =====
-- What a score rests on: the salary of a day, the newest rules of a policy, and their weighted sum.
use payroll_management_syste.Prelude.{
  ℕ, ◌≡◌, refl, sym, ap, ◌∙◌, ◌⊎◌, inl, inr, true, false, ◌&&◌, Option, none, some, List, [], ◌∷◌,
  arith, ◌==◌, ==_iff, if◌then◌else◌, Bool-cases, Option-cases, map, Elem, select,
}
use payroll_management_syste.Outcome.{
  ok, validation_error, or_raise, or_raise-ok, Ensures, Ensures-bind, Ensures-elim,
}
use payroll_management_syste.Decimal.{
  Decimal, whole, add, sub, mul, div, quantize, le, lt, is_zero, max_of, min_of,
}
use payroll_management_syste.Effective.{is_effective, effective_sound, effective_complete, latest}
use payroll_management_syste.Effective.Newest.{
  IsWithin, IsNewest, latest-IsNewest, latest-Unmatched,
}
use payroll_management_syste.Compensation.Models.{
  CompensationCriterion, criterion_code, ScoringRule, ScoreLine, Salary,
}
use payroll_management_syste.Compensation.Scoring.{
  is_none, is_rule_for, rules_as_of, total_weight, normalized, score_rules, current_salary,
  SourceData,
}

-- A salary of the employee that is in force on the day.
abbrev pub IsSalaryOf : ℕ → ℕ → Salary → Type 0
IsSalaryOf employee date x =
    (x.employee ≡ employee) × (x.archived_at ≡ none) × IsWithin x.effective_from x.effective_to date

-- A rule of the policy for the criterion that is in force on the day.
abbrev IsRuleOf : ℕ → ℕ → CompensationCriterion → ScoringRule → Type 0
IsRuleOf policy date criterion r =
    (r.policy ≡ policy)
    × (criterion_code r.criterion ≡ criterion_code criterion)
    × (r.archived_at ≡ none)
    × IsWithin r.effective_from r.effective_to date

pub is_none_sound : (o : Option ℕ) → is_none o ≡ true → o ≡ none
is_none_sound none h = refl
is_none_sound (some x) h = cc

is_none_complete : (o : Option ℕ) → o ≡ none → is_none o ≡ true
is_none_complete none e = refl
is_none_complete (some x) e = cc

pub current_salary-IsNewest :
    (employee date : ℕ) (salaries : List Salary) (salary : Salary)
    → current_salary employee date salaries ≡ some salary
    → IsNewest (λ x. x.effective_from) (λ x. x.pk) (IsSalaryOf employee date) salary salaries
unfolding current_salary
current_salary-IsNewest employee date salaries salary e =
    latest-IsNewest (λ x. x.effective_from) (λ x. x.pk) (IsSalaryOf employee date)
      (λ x.
        x.employee == employee
        && is_none x.archived_at
        && is_effective x.effective_from x.effective_to date)
      (λ x h. (
        (==_iff x.employee employee).0 (ground arith),
        is_none_sound x.archived_at (ground arith),
        effective_sound x.effective_from x.effective_to date (ground arith),
      ))
      (λ x (own, kept, (starts, ends)).
        let own' = (==_iff x.employee employee).1 own in
        let kept' = is_none_complete x.archived_at kept in
        let within = effective_complete x.effective_from x.effective_to date starts ends in
        rw (own', kept', within) refl)
      salaries salary e

-- The rules are the newest ones in force, at most one for each criterion and in the order of the
-- criteria; a criterion without a rule has none in force.
abbrev pub AreNewestRules :
    ℕ → ℕ → List ScoringRule → List CompensationCriterion → List ScoringRule → Type 0
AreNewestRules policy date stored [] rules = rules ≡ []
AreNewestRules policy date stored (c ∷ cs) rules =
    (((x : ScoringRule) → Elem x stored → IsRuleOf policy date c x → ⊥)
      × AreNewestRules policy date stored cs rules)
    ⊎ ((r : ScoringRule) × (rest : List ScoringRule) × (rules ≡ r ∷ rest)
        × IsNewest (λ x. x.effective_from) (λ x. x.pk) (IsRuleOf policy date c) r stored
        × AreNewestRules policy date stored cs rest)

is_rule_for_sound :
    (policy date : ℕ) (c : CompensationCriterion) (r : ScoringRule)
    → is_rule_for policy date c r ≡ true
    → IsRuleOf policy date c r
is_rule_for_sound policy date c r h = (
  (==_iff r.policy policy).0 (ground arith),
  (==_iff (criterion_code r.criterion) (criterion_code c)).0 (ground arith),
  is_none_sound r.archived_at (ground arith),
  effective_sound r.effective_from r.effective_to date (ground arith),
)

is_rule_for_complete :
    (policy date : ℕ) (c : CompensationCriterion) (r : ScoringRule)
    → IsRuleOf policy date c r
    → is_rule_for policy date c r ≡ true
is_rule_for_complete policy date c r (own, same, kept, (starts, ends)) =
    let own' = (==_iff r.policy policy).1 own in
    let same' = (==_iff (criterion_code r.criterion) (criterion_code c)).1 same in
    let kept' = is_none_complete r.archived_at kept in
    let within = effective_complete r.effective_from r.effective_to date starts ends in
    rw (own', same', kept', within) refl

pub rules_as_of-AreNewestRules :
    (policy date : ℕ) (stored : List ScoringRule) (cs : List CompensationCriterion)
    → AreNewestRules policy date stored cs (rules_as_of policy date stored cs)
unfolding rules_as_of
rules_as_of-AreNewestRules policy date stored [] = refl
rules_as_of-AreNewestRules policy date stored (c ∷ cs) =
    let rest = rules_as_of-AreNewestRules policy date stored cs in
    let found =
      latest (λ (r : ScoringRule). r.effective_from) (λ r. r.pk)
        (select (is_rule_for policy date c) stored) in
    elim (Option-cases found) [
      | inl absent ↦ rw absent (
          inl (
            latest-Unmatched (λ x. x.effective_from) (λ x. x.pk) (IsRuleOf policy date c)
                (is_rule_for policy date c) (is_rule_for_sound policy date c)
                (is_rule_for_complete policy date c) stored absent,
            rest,
          ))
      | inr (r, e) ↦ rw e (
          inr (
            r,
            rules_as_of policy date stored cs,
            refl,
            latest-IsNewest (λ x. x.effective_from) (λ x. x.pk) (IsRuleOf policy date c)
                (is_rule_for policy date c) (is_rule_for_sound policy date c)
                (is_rule_for_complete policy date c) stored r e,
            rest,
          ))
    ]

abbrev pub summed : Decimal → List Decimal → Decimal
summed total [] = total
summed total (x ∷ xs) = summed (add total x) xs

pub total_weight-summed :
    (rules : List ScoringRule) (total : Decimal)
    → total_weight rules total ≡ summed total (map (λ (r : ScoringRule). r.weight) rules)
unfolding total_weight
total_weight-summed [] total = refl
total_weight-summed (r ∷ rs) total = total_weight-summed rs (add total r.weight)

-- Where the value lies between the thresholds of the rule: as a share of their span, or, if they
-- are equal or crossed, at one or zero.
abbrev IsShare : ScoringRule → Decimal → Decimal → Type 0
IsShare rule raw share =
    let span = sub rule.threshold_max rule.threshold_min in
    ((lt (whole 0) span ≡ true) × (div (sub raw rule.threshold_min) span ≡ ok share))
    ⊎ ((lt (whole 0) span ≡ false)
        × (share ≡ (if is_zero span && le rule.threshold_max raw then whole 1 else whole 0)))

-- One line of the breakdown, and the weighted value that it adds to the total.
abbrev IsScored : SourceData → Decimal → ScoringRule → ScoreLine → Decimal → Type 0
IsScored data_given weights rule line weighted =
    (share : Decimal) × (part : Decimal) × (line.rule ≡ rule.pk)
    × (data_given.value_of rule.criterion ≡ some line.raw_value)
    × IsShare rule line.raw_value share
    × (weighted ≡ mul (max_of (whole 0) (min_of (whole 1) share)) rule.weight)
    × (quantize 4 (mul (max_of (whole 0) (min_of (whole 1) share)) (whole 100))
        ≡ ok line.normalized_score)
    × (div weighted weights ≡ ok part)
    × (quantize 4 (mul part (whole 100)) ≡ ok line.weighted_points)

abbrev pub AreScored :
    SourceData → Decimal → List ScoringRule → List ScoreLine → List Decimal → Type 0
AreScored data_given weights [] lines points = (lines ≡ []) × (points ≡ [])
AreScored data_given weights (rule ∷ rules) lines points =
    (line : ScoreLine) × (more : List ScoreLine) × (weighted : Decimal) × (others : List Decimal)
    × (lines ≡ line ∷ more)
    × (points ≡ weighted ∷ others)
    × IsScored data_given weights rule line weighted
    × AreScored data_given weights rules more others

normalized-Ensures :
    (rule : ScoringRule) (raw : Decimal)
    → Ensures
        (λ n.
          (share : Decimal) × IsShare rule raw share
          × (n ≡ max_of (whole 0) (min_of (whole 1) share)))
        (normalized rule raw)
unfolding normalized
normalized-Ensures rule raw =
    let span = sub rule.threshold_max rule.threshold_min in
    let base = if is_zero span && le rule.threshold_max raw then whole 1 else whole 0 in
    let P = λ (n : Decimal).
      (share : Decimal) × IsShare rule raw share
      × (n ≡ max_of (whole 0) (min_of (whole 1) share)) in
    Ensures-bind P (if lt (whole 0) span then div (sub raw rule.threshold_min) span else ok base) _
      λ share e. elim (Bool-cases (lt (whole 0) span)) [
        | inl t ↦ (share, inl (t, rw t at e), refl)
        | inr f ↦ (share, inr (f, same share base (rw f at e)), refl)
      ]
  where
    same : (a b : Decimal) → ok b ≡ ok a → a ≡ b
    same a b e = cc

pub score_rules-Ensures :
    (data_given : SourceData) (weights : Decimal) (rules : List ScoringRule) (total : Decimal)
    → Ensures
        (λ (r : Decimal × List ScoreLine).
          (points : List Decimal) × AreScored data_given weights rules r.1 points
          × (r.0 ≡ summed total points))
        (score_rules data_given weights rules total)
unfolding score_rules
score_rules-Ensures data_given weights [] total = ([], (refl, refl), refl)
score_rules-Ensures data_given weights (rule ∷ rules) total =
    let P = λ (r : Decimal × List ScoreLine).
      (points : List Decimal) × AreScored data_given weights (rule ∷ rules) r.1 points
      × (r.0 ≡ summed total points) in
    Ensures-bind P
      (or_raise (data_given.value_of rule.criterion)
        (validation_error "missing source data for criteria"))
      _
      λ raw given. Ensures-bind P (normalized rule raw) _ λ n shared.
        let (share, is, same) =
          Ensures-elim
            (λ n.
              (share : Decimal) × IsShare rule raw share
              × (n ≡ max_of (whole 0) (min_of (whole 1) share)))
            (normalized rule raw) n (normalized-Ensures rule raw) shared in
        Ensures-bind P (quantize 4 (mul n (whole 100))) _ λ score rounded.
          Ensures-bind P (div (mul n rule.weight) weights) _ λ part divided.
            Ensures-bind P (quantize 4 (mul part (whole 100))) _ λ points counted.
              Ensures-bind P (score_rules data_given weights rules (add total (mul n rule.weight)))
                _
                λ rest more.
                  let (others, lines, sum) =
                    Ensures-elim
                      (λ (r : Decimal × List ScoreLine).
                        (points : List Decimal) × AreScored data_given weights rules r.1 points
                        × (r.0 ≡ summed (add total (mul n rule.weight)) points))
                      (score_rules data_given weights rules (add total (mul n rule.weight))) rest
                      (score_rules-Ensures data_given weights rules (add total (mul n rule.weight)))
                      more in
                  (
                    mul n rule.weight ∷ others,
                    (
                      _,
                      rest.1,
                      mul n rule.weight,
                      others,
                      refl,
                      refl,
                      (
                        share,
                        part,
                        refl,
                        or_raise-ok _ _ given,
                        is,
                        ap (λ m. mul m rule.weight) same,
                        ap (λ m. quantize 4 (mul m (whole 100))) (sym same) ∙ rounded,
                        divided,
                        counted,
                      ),
                      lines,
                    ),
                    sum,
                  )
