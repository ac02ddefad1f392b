-- ===== src/Compensation/Scoring.antt =====
-- `create_recommendation` of apps/compensation/services/recommendations.py, and its queries.
pub mod Basis
pub mod Computed
pub mod Proposal
use payroll_management_syste.Prelude.{
  ℕ, ◌+◌, String, Bool, true, false, ◌&&◌, Option, none, some, List, [], ◌∷◌, ◌++◌, str_eq, ◌==◌,
  if◌then◌else◌, length, any, select,
}
use payroll_management_syste.Outcome.{
  Result, ok, validation_error, or_raise, raise_if, raise_unless, ◌>>=◌, ◌>>◌,
}
use payroll_management_syste.Decimal.{
  Decimal, whole, add, sub, mul, div, abs, quantize, min_of, max_of, le, lt, is_zero,
}
use payroll_management_syste.Effective.{is_effective, latest}
use payroll_management_syste.Compensation.Models.{
  CompensationCriterion, criterion_code, CompensationPolicy, ScoringRule, Salary, Controls,
  ScoreLine, CompensationRecommendation, CompensationStore, pending_approval, budget_remaining,
  skills, education, role_level, experience, performance, tenure, market_benchmark, inflation_index,
}

abbrev pub is_none {ℓ} : {A : Type ℓ} → Option A → Bool
is_none none = true
is_none (some _) = false

-- The query of `policy_as_of`, less its organization and name.
abbrev pub is_in_force : ℕ → CompensationPolicy → Bool
is_in_force date p =
    p.is_active && is_none p.archived_at && is_effective p.effective_from p.effective_to date

abbrev pub is_rule_for : ℕ → ℕ → CompensationCriterion → ScoringRule → Bool
is_rule_for policy date criterion r =
    r.policy == policy
    && criterion_code r.criterion == criterion_code criterion
    && is_none r.archived_at
    && is_effective r.effective_from r.effective_to date

abbrev prepend {ℓ} : {A : Type ℓ} → Option A → List A → List A
prepend none xs = xs
prepend (some x) xs = x ∷ xs

abbrev pub criteria : List CompensationCriterion
criteria =
    education ∷ experience ∷ inflation_index ∷ market_benchmark ∷ performance ∷ role_level ∷ skills
    ∷ tenure ∷ []

-- The newest rule of each criterion, in the order of the criteria's texts.
unfoldable pub rules_as_of :
    ℕ → ℕ → List ScoringRule → List CompensationCriterion → List ScoringRule
rules_as_of policy date rules [] = []
rules_as_of policy date rules (criterion ∷ rest) =
    prepend
      (latest (λ r. r.effective_from) (λ r. r.pk)
        (select (is_rule_for policy date criterion) rules))
      (rules_as_of policy date rules rest)

unfoldable pub current_salary : ℕ → ℕ → List Salary → Option Salary
current_salary employee date salaries =
    latest (λ x. x.effective_from) (λ x. x.pk)
      (select
        (λ x.
          x.employee == employee
          && is_none x.archived_at
          && is_effective x.effective_from x.effective_to date)
        salaries)

-- `policy_as_of`
unfoldable pub policy_as_of : ℕ → String → ℕ → List CompensationPolicy → Option CompensationPolicy
policy_as_of organization name date policies =
    latest (λ p. p.effective_from) (λ p. p.pk)
      (select (λ p. p.organization == organization && str_eq p.name name && is_in_force date p)
        policies)

-- What a caller supplies: the values of the criteria, the names of all fields supplied, and the
-- deviation that the pay-equity control reads.
pub record SourceData : Type 0 where
  pub value_of : CompensationCriterion → Option Decimal
  pub fields : List String
  pub pay_equity_deviation_percent : Option Decimal

-- `set(prohibited).intersection(source_data)` is not empty.
abbrev pub has_prohibited : CompensationPolicy → SourceData → Bool
has_prohibited p data_given =
    any (λ name. any (str_eq name) data_given.fields) p.prohibited_criteria

unfoldable pub total_weight : List ScoringRule → Decimal → Decimal
total_weight [] total = total
total_weight (r ∷ rs) total = total_weight rs (add total r.weight)

-- The share of the criterion's span that the value reaches, between 0 and 1.
unfoldable pub normalized : ScoringRule → Decimal → Result Decimal
normalized rule raw = do
  let span = sub rule.threshold_max rule.threshold_min
  let base = if is_zero span && le rule.threshold_max raw then whole 1 else whole 0
  share ← (if lt (whole 0) span then div (sub raw rule.threshold_min) span else ok base)
  ok (max_of (whole 0) (min_of (whole 1) share))

-- The loop over the rules, on the weighted total so far.
unfoldable pub score_rules :
    SourceData → Decimal → List ScoringRule → Decimal → Result (Decimal × List ScoreLine)
score_rules data_given weights [] total = ok (total, [])
score_rules data_given weights (rule ∷ rules) total = do
  raw ←
      or_raise (data_given.value_of rule.criterion)
        (validation_error "missing source data for criteria")
  n ← normalized rule raw
  let weighted = mul n rule.weight
  normalized_score ← quantize 4 (mul n (whole 100))
  share ← div weighted weights
  weighted_points ← quantize 4 (mul share (whole 100))
  rest ← score_rules data_given weights rules (add total weighted)
  ok (
    rest.0,
    record {
      rule = rule.pk;
      raw_value = raw;
      normalized_score = normalized_score;
      weighted_points = weighted_points;
    }
        ∷ rest.1,
  )

-- `policy.budget_remaining is None or adjustment <= policy.budget_remaining`
abbrev pub within_budget : Option Decimal → Decimal → Bool
within_budget none adjustment = true
within_budget (some remaining) adjustment = le adjustment remaining

abbrev or_zero : Option Decimal → Decimal
or_zero none = whole 0
or_zero (some d) = d

abbrev pub has_missing : SourceData → List ScoringRule → Bool
has_missing data_given rules = any (λ r. is_none (data_given.value_of r.criterion)) rules

-- The amounts that a score proposes for a salary: midpoint, adjustment, least and largest.
unfoldable pub proposed :
    CompensationPolicy → Decimal → Decimal → Result (Decimal × Decimal × Decimal × Decimal)
proposed p amount score = do
  part ← div (mul (sub p.maximum_adjustment_percent p.minimum_adjustment_percent) score) (whole 100)
  midpoint ← quantize 2 (mul amount (add (whole 1) (add p.minimum_adjustment_percent part)))
  adjustment ← quantize 2 (sub midpoint amount)
  least ← quantize 2 (mul amount (add (whole 1) p.minimum_adjustment_percent))
  largest ← quantize 2 (mul amount (add (whole 1) p.maximum_adjustment_percent))
  ok (midpoint, adjustment, least, largest)

abbrev pub controls_of :
    CompensationPolicy → SourceData → Decimal × Decimal × Decimal × Decimal → Controls
controls_of p data_given (midpoint, adjustment, least, largest) = record {
  adjustment_within_bounds = le least midpoint && le midpoint largest;
  budget_within_limit = within_budget (budget_remaining p) adjustment;
  pay_equity_within_limit =
      le (abs (or_zero data_given.pay_equity_deviation_percent)) p.pay_equity_max_deviation_percent;
}

-- `create_recommendation`, for an employee of the organization.
unfoldable pub create_recommendation :
    ℕ
    → ℕ
    → CompensationPolicy
    → ℕ
    → SourceData
    → Option ℕ
    → Bool
    → CompensationStore
    → Result (CompensationRecommendation × CompensationStore)
create_recommendation organization employee p date data_given actor pay_equity_reviewed s = do
  raise_unless (p.organization == organization)
      (validation_error "policy and employee must belong to the same organization")
  raise_unless (is_in_force date p)
      (validation_error "the selected compensation policy is not effective")
  raise_if (has_prohibited p data_given)
      (validation_error "prohibited source-data criteria supplied")
  let rules = rules_as_of p.pk date s.rules criteria
  raise_if (length rules == 0) (validation_error "the policy has no scoring rules effective")
  raise_if (has_missing data_given rules) (validation_error "missing source data for criteria")
  let weights = total_weight rules (whole 0)
  raise_if (le weights (whole 0))
      (validation_error "effective scoring-rule weights must total more than zero")
  scored ← score_rules data_given weights rules (whole 0)
  ratio ← div scored.0 weights
  score ← quantize 4 (mul ratio (whole 100))
  salary ←
      or_raise (current_salary employee date s.salaries)
        (validation_error "employee has no salary effective")
  raise_unless (str_eq salary.currency p.currency)
      (validation_error "employee salary and policy currencies must match")
  amounts ← proposed p salary.amount score
  raise_unless (salary.organization == organization)
      (validation_error "salary must belong to the same organization")
  let recommendation : CompensationRecommendation = record {
    pk = s.next_recommendation;
    organization = organization;
    policy = p.pk;
    employee = employee;
    current_salary = salary.pk;
    resulting_salary = none;
    as_of_date = date;
    status = pending_approval;
    score = score;
    score_breakdown = scored.1;
    proposed_min = amounts.2;
    proposed_midpoint = amounts.0;
    proposed_max = amounts.3;
    proposed_adjustment = amounts.1;
    currency = p.currency;
    controls = controls_of p data_given amounts;
    pay_equity_reviewed = pay_equity_reviewed;
    created_by = actor;
  }
  ok (
    recommendation,
    record s {
      recommendations = s.recommendations ++ recommendation ∷ [];
      next_recommendation = s.next_recommendation + 1;
    },
  )
