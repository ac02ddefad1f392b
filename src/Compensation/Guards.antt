-- ===== src/Compensation/Guards.antt =====
-- `save`, `delete` and `clean` of the tables of apps/compensation/models.py. The snapshots and the
-- explanation of a recommendation, which are texts, are not among the fields that are compared here.
pub mod Terms
pub mod Retained
pub mod History
use payroll_management_syste.Prelude.{
  ℕ, zero, suc, ◌+◌, ◌-◌, ◌*◌, ◌/◌, ◌%◌, ◌^◌, ◌≤◌, ◌<◌, max, min, String, ◌≡◌, refl, sym, ap, subst,
  ◌∙◌, ◌≢◌, ◌↔◌, ◌⊎◌, inl, inr, Bool, true, false, not, ◌&&◌, ◌||◌, Option, none, some,
  some-injective, List, [], ◌∷◌, ◌++◌, map, append-nil, append_assoc, arith, str_eq, str_eq_iff,
  ltb, leb, ◌==◌, if◌then◌else◌, ==_iff, Bool-cases, Option-cases, length, length-append, any, all,
  select, find, update_where, All, All-append, any-append, Elem, find-Elem, Elem-any, find_sound,
  select-append, All-select, All-map, Elem-select, select-Elem, select-All, find-append_new,
  length-update_where,
}
use payroll_management_syste.Prelude.Compared.{
  Test, all_same, field_same, list_same, bool_same, option_same,
}
use payroll_management_syste.Outcome.{
  Result, ok, err, validation_error, does_not_exist, integrity_error, or_raise, raise_if,
  raise_unless, ◌>>=◌, ◌>>◌,
}
use payroll_management_syste.Decimal.{Decimal, whole, lt}
use payroll_management_syste.Decimal.Equality.{value_same}
use payroll_management_syste.Compensation.Models.{
  CompensationPolicy, ScoringRule, ScoreLine, Controls, CompensationRecommendation,
  CompensationApproval, CompensationStore, criterion_code, has_valid_dates,
}
use payroll_management_syste.Compensation.Scoring.{is_none}
use payroll_management_syste.Compensation.Workflow.{
  recommendation_by_key, policy_by_key, salary_by_key,
}

-- `immutable_fields` of a policy.
abbrev pub policy_terms : List (Test CompensationPolicy)
policy_terms =
    field_same (λ p. p.organization) ◌==◌
    ∷ field_same (λ p. p.name) str_eq
    ∷ field_same (λ p. p.version) str_eq
    ∷ field_same (λ p. p.currency) str_eq
    ∷ field_same (λ p. p.effective_from) ◌==◌
    ∷ field_same (λ p. p.minimum_adjustment_percent) value_same
    ∷ field_same (λ p. p.maximum_adjustment_percent) value_same
    ∷ field_same (λ p. p.budget_limit) value_same
    ∷ field_same (λ p. p.require_pay_equity_review) bool_same
    ∷ field_same (λ p. p.pay_equity_max_deviation_percent) value_same
    ∷ field_same (λ p. p.prohibited_criteria) (list_same str_eq)
    ∷ []

-- "unique_comp_policy_version", for another row.
abbrev pub is_same_version : CompensationPolicy → CompensationPolicy → Bool
is_same_version p x =
    not (x.pk == p.pk)
    && x.organization == p.organization
    && str_eq x.name p.name
    && str_eq x.version p.version

-- The constraints of the table of policies.
unfoldable pub check_policy : List CompensationPolicy → CompensationPolicy → Result (Unit {0})
check_policy policies p = do
  raise_if (any (is_same_version p) policies) integrity_error
  raise_unless (has_valid_dates p.effective_from p.effective_to) integrity_error
  raise_if
      (lt p.minimum_adjustment_percent (whole 0)
        || lt p.maximum_adjustment_percent p.minimum_adjustment_percent)
      integrity_error
  raise_if (lt p.budget_limit (whole 0) || lt p.budget_committed (whole 0)) integrity_error

-- Whether the row has a key already; a new row has the one that the table gives it.
pub data Saving : Type 0 where
  new existing : Saving

-- `CompensationPolicy.save`
unfoldable pub save_policy :
    Saving → CompensationPolicy → CompensationStore → Result CompensationStore
save_policy new p s = do
  check_policy s.policies p
  ok (record s { policies = s.policies ++ p ∷ [] })
save_policy existing p s = do
  previous ← or_raise (policy_by_key p.pk s.policies) does_not_exist
  raise_unless (all_same policy_terms previous p)
      (validation_error "published policy terms are immutable")
  check_policy s.policies p
  ok (record s { policies = update_where (λ x. x.pk == p.pk) (λ _. p) s.policies })

-- `self.effective_to or self.effective_from`
abbrev pub last_day : ScoringRule → ℕ
last_day r = elim r.effective_to [ none ↦ r.effective_from | some stop ↦ stop ]

abbrev pub reaches_day : Option ℕ → ℕ → Bool
reaches_day none day = true
reaches_day (some stop) day = leb day stop

-- `conflicts`
unfoldable pub is_rule_conflict : ScoringRule → ScoringRule → Bool
is_rule_conflict r x =
    not (x.pk == r.pk)
    && x.policy == r.policy
    && criterion_code x.criterion == criterion_code r.criterion
    && is_none x.archived_at
    && leb x.effective_from (last_day r)
    && reaches_day x.effective_to r.effective_from

-- `ScoringRule.clean`, with that of its base.
unfoldable pub clean_rule : CompensationStore → ScoringRule → Result (Unit {0})
clean_rule s r = do
  raise_unless (has_valid_dates r.effective_from r.effective_to)
      (validation_error "effective end date cannot precede the start date")
  p ← or_raise (policy_by_key r.policy s.policies) (validation_error "the policy does not exist")
  raise_unless (r.organization == p.organization)
      (validation_error "policy must belong to the same organization")
  raise_if (any (is_rule_conflict r) s.rules)
      (validation_error "effective date range overlaps an existing scoring rule")

abbrev pub rule_terms : List (Test ScoringRule)
rule_terms =
    field_same (λ r. r.organization) ◌==◌
    ∷ field_same (λ r. r.policy) ◌==◌
    ∷ field_same (λ r. criterion_code r.criterion) ◌==◌
    ∷ field_same (λ r. r.weight) value_same
    ∷ field_same (λ r. r.threshold_min) value_same
    ∷ field_same (λ r. r.threshold_max) value_same
    ∷ field_same (λ r. r.target_value) value_same
    ∷ field_same (λ r. r.effective_from) ◌==◌
    ∷ field_same (λ r. r.metadata) str_eq
    ∷ []

-- "unique_scoring_rule_start", for another row.
abbrev pub is_same_start : ScoringRule → ScoringRule → Bool
is_same_start r x =
    not (x.pk == r.pk)
    && x.policy == r.policy
    && criterion_code x.criterion == criterion_code r.criterion
    && x.effective_from == r.effective_from

-- The constraints of the table of rules.
unfoldable pub check_rule : List ScoringRule → ScoringRule → Result (Unit {0})
check_rule rules r = do
  raise_if (any (is_same_start r) rules) integrity_error
  raise_if (lt r.weight (whole 0)) integrity_error
  raise_if (lt r.threshold_max r.threshold_min) integrity_error
  raise_unless (has_valid_dates r.effective_from r.effective_to) integrity_error

abbrev pub rule_by_key : ℕ → List ScoringRule → Option ScoringRule
rule_by_key pk = find (λ r. r.pk == pk)

-- `ScoringRule.save`, which does not clean.
unfoldable pub save_rule : Saving → ScoringRule → CompensationStore → Result CompensationStore
save_rule new r s = do check_rule s.rules r; ok (record s { rules = s.rules ++ r ∷ [] })
save_rule existing r s = do
  previous ← or_raise (rule_by_key r.pk s.rules) does_not_exist
  raise_unless (all_same rule_terms previous r)
      (validation_error "published scoring rules are immutable")
  check_rule s.rules r
  ok (record s { rules = update_where (λ x. x.pk == r.pk) (λ _. r) s.rules })

abbrev pub line_terms : List (Test ScoreLine)
line_terms =
    field_same (λ l. l.rule) ◌==◌
    ∷ field_same (λ l. l.raw_value) value_same
    ∷ field_same (λ l. l.normalized_score) value_same
    ∷ field_same (λ l. l.weighted_points) value_same
    ∷ []

abbrev pub controls_terms : List (Test Controls)
controls_terms =
    field_same (λ c. c.adjustment_within_bounds) bool_same
    ∷ field_same (λ c. c.budget_within_limit) bool_same
    ∷ field_same (λ c. c.pay_equity_within_limit) bool_same
    ∷ []

abbrev pub result_terms : List (Test CompensationRecommendation)
result_terms =
    field_same (λ r. r.policy) ◌==◌
    ∷ field_same (λ r. r.employee) ◌==◌
    ∷ field_same (λ r. r.current_salary) ◌==◌
    ∷ field_same (λ r. r.as_of_date) ◌==◌
    ∷ field_same (λ r. r.score) value_same
    ∷ field_same (λ r. r.score_breakdown) (list_same (all_same line_terms))
    ∷ field_same (λ r. r.proposed_min) value_same
    ∷ field_same (λ r. r.proposed_midpoint) value_same
    ∷ field_same (λ r. r.proposed_max) value_same
    ∷ field_same (λ r. r.proposed_adjustment) value_same
    ∷ field_same (λ r. r.currency) str_eq
    ∷ field_same (λ r. r.controls) (all_same controls_terms)
    ∷ []

abbrev pub is_owned : Option ℕ → ℕ → Bool
is_owned none organization = false
is_owned (some owner) organization = owner == organization

-- The organization of a row that is named.
abbrev pub salary_owner : ℕ → CompensationStore → Option ℕ
salary_owner pk s = elim (salary_by_key pk s.salaries) [
  | none ↦ none
  | some x ↦ some x.organization
]

abbrev pub policy_owner : ℕ → CompensationStore → Option ℕ
policy_owner pk s = elim (policy_by_key pk s.policies) [
  | none ↦ none
  | some p ↦ some p.organization
]

abbrev pub is_result_owned : Option ℕ → ℕ → CompensationStore → Bool
is_result_owned none organization s = true
is_result_owned (some pk) organization s = is_owned (salary_owner pk s) organization

-- The unique `resulting_salary`, in another row.
abbrev pub is_same_result :
    Option ℕ → CompensationRecommendation → CompensationRecommendation → Bool
is_same_result none r x = false
is_same_result (some pk) r x = not (x.pk == r.pk) && option_same x.resulting_salary (some pk)

-- `full_clean`: `CompensationRecommendation.clean`, for the organization of each employee, and the
-- unique field.
unfoldable pub clean_recommendation :
    (ℕ → Option ℕ) → CompensationStore → CompensationRecommendation → Result (Unit {0})
clean_recommendation employee_owner s r = do
  raise_unless (is_owned (employee_owner r.employee) r.organization)
      (validation_error "employee must belong to the same organization")
  raise_unless (is_owned (policy_owner r.policy s) r.organization)
      (validation_error "policy must belong to the same organization")
  raise_unless (is_owned (salary_owner r.current_salary s) r.organization)
      (validation_error "salary must belong to the same organization")
  raise_unless (is_result_owned r.resulting_salary r.organization s)
      (validation_error "salary must belong to the same organization")
  raise_if (any (is_same_result r.resulting_salary r) s.recommendations)
      (validation_error "a recommendation with this resulting salary already exists")

-- `CompensationRecommendation.save`
unfoldable pub save_recommendation :
    (ℕ → Option ℕ)
    → Saving
    → CompensationRecommendation
    → CompensationStore
    → Result CompensationStore
save_recommendation employee_owner new r s = do
  clean_recommendation employee_owner s r
  ok (record s { recommendations = s.recommendations ++ r ∷ [] })
save_recommendation employee_owner existing r s = do
  previous ← or_raise (recommendation_by_key r.pk s.recommendations) does_not_exist
  raise_unless (all_same result_terms previous r)
      (validation_error "recommendation scoring results are immutable")
  clean_recommendation employee_owner s r
  ok (record s { recommendations = update_where (λ x. x.pk == r.pk) (λ _. r) s.recommendations })

-- `CompensationApproval.save`, with its `clean`.
unfoldable pub save_approval :
    Saving → CompensationApproval → CompensationStore → Result CompensationStore
save_approval existing a s = err (validation_error "compensation approval events are append-only")
save_approval new a s = do
  r ←
      or_raise (recommendation_by_key a.recommendation s.recommendations)
        (validation_error "the recommendation does not exist")
  raise_unless (a.organization == r.organization)
      (validation_error "recommendation must belong to the same organization")
  ok (record s { approvals = s.approvals ++ a ∷ [] })

pub data RetainedTable : Type 0 where
  policies rules recommendations approvals : RetainedTable

-- `delete` of a row of each of the tables.
unfoldable pub delete_row : RetainedTable → CompensationStore → Result CompensationStore
delete_row policies s = err (validation_error "compensation policy versions must be retained")
delete_row rules s = err (validation_error "scoring rules must be retained for audit")
delete_row recommendations s =
    err (validation_error "compensation recommendations must be retained for audit")
delete_row approvals s = err (validation_error "compensation approval events are append-only")
