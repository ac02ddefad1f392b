-- ===== src/Compensation/Guards/Terms.antt =====
-- Equality of the terms of two rows is reflexive and transitive.
use payroll_management_syste.Prelude.{str_eq}
use payroll_management_syste.Prelude.Compared.{
  IsStable, all_same, all_same-IsStable, field_same-IsStable, number-IsStable, text-IsStable,
  bool_same-IsStable, list_same-IsStable,
}
use payroll_management_syste.Decimal.Equality.{value_same-IsStable}
use payroll_management_syste.Compensation.Models.{criterion_code}
use payroll_management_syste.Compensation.Guards.{
  line_terms, controls_terms, policy_terms, rule_terms, result_terms, line_terms, controls_terms,
}

pub policy_terms-IsStable : IsStable (all_same policy_terms)
policy_terms-IsStable = all_same-IsStable policy_terms (
  field_same-IsStable (λ p. p.organization) _ number-IsStable,
  (
    field_same-IsStable (λ p. p.name) _ text-IsStable,
    (
      field_same-IsStable (λ p. p.version) _ text-IsStable,
      (
        field_same-IsStable (λ p. p.currency) _ text-IsStable,
        (
          field_same-IsStable (λ p. p.effective_from) _ number-IsStable,
          (
            field_same-IsStable (λ p. p.minimum_adjustment_percent) _ value_same-IsStable,
            (
              field_same-IsStable (λ p. p.maximum_adjustment_percent) _ value_same-IsStable,
              (
                field_same-IsStable (λ p. p.budget_limit) _ value_same-IsStable,
                (
                  field_same-IsStable (λ p. p.require_pay_equity_review) _ bool_same-IsStable,
                  (
                    field_same-IsStable (λ p. p.pay_equity_max_deviation_percent) _
                        value_same-IsStable,
                    (
                      field_same-IsStable (λ p. p.prohibited_criteria) _
                          (list_same-IsStable str_eq text-IsStable),
                      tt,
                    ),
                  ),
                ),
              ),
            ),
          ),
        ),
      ),
    ),
  ),
)

pub rule_terms-IsStable : IsStable (all_same rule_terms)
rule_terms-IsStable = all_same-IsStable rule_terms (
  field_same-IsStable (λ r. r.organization) _ number-IsStable,
  (
    field_same-IsStable (λ r. r.policy) _ number-IsStable,
    (
      field_same-IsStable (λ r. criterion_code r.criterion) _ number-IsStable,
      (
        field_same-IsStable (λ r. r.weight) _ value_same-IsStable,
        (
          field_same-IsStable (λ r. r.threshold_min) _ value_same-IsStable,
          (
            field_same-IsStable (λ r. r.threshold_max) _ value_same-IsStable,
            (
              field_same-IsStable (λ r. r.target_value) _ value_same-IsStable,
              (
                field_same-IsStable (λ r. r.effective_from) _ number-IsStable,
                (field_same-IsStable (λ r. r.metadata) _ text-IsStable, tt),
              ),
            ),
          ),
        ),
      ),
    ),
  ),
)

line_terms-IsStable : IsStable (all_same line_terms)
line_terms-IsStable = all_same-IsStable line_terms (
  field_same-IsStable (λ l. l.rule) _ number-IsStable,
  (
    field_same-IsStable (λ l. l.raw_value) _ value_same-IsStable,
    (
      field_same-IsStable (λ l. l.normalized_score) _ value_same-IsStable,
      (field_same-IsStable (λ l. l.weighted_points) _ value_same-IsStable, tt),
    ),
  ),
)

controls_terms-IsStable : IsStable (all_same controls_terms)
controls_terms-IsStable = all_same-IsStable controls_terms (
  field_same-IsStable (λ c. c.adjustment_within_bounds) _ bool_same-IsStable,
  (
    field_same-IsStable (λ c. c.budget_within_limit) _ bool_same-IsStable,
    (field_same-IsStable (λ c. c.pay_equity_within_limit) _ bool_same-IsStable, tt),
  ),
)

pub result_terms-IsStable : IsStable (all_same result_terms)
result_terms-IsStable = all_same-IsStable result_terms (
  field_same-IsStable (λ r. r.policy) _ number-IsStable,
  (
    field_same-IsStable (λ r. r.employee) _ number-IsStable,
    (
      field_same-IsStable (λ r. r.current_salary) _ number-IsStable,
      (
        field_same-IsStable (λ r. r.as_of_date) _ number-IsStable,
        (
          field_same-IsStable (λ r. r.score) _ value_same-IsStable,
          (
            field_same-IsStable (λ r. r.score_breakdown) _
                (list_same-IsStable (all_same line_terms) line_terms-IsStable),
            (
              field_same-IsStable (λ r. r.proposed_min) _ value_same-IsStable,
              (
                field_same-IsStable (λ r. r.proposed_midpoint) _ value_same-IsStable,
                (
                  field_same-IsStable (λ r. r.proposed_max) _ value_same-IsStable,
                  (
                    field_same-IsStable (λ r. r.proposed_adjustment) _ value_same-IsStable,
                    (
                      field_same-IsStable (λ r. r.currency) _ text-IsStable,
                      (field_same-IsStable (λ r. r.controls) _ controls_terms-IsStable, tt),
                    ),
                  ),
                ),
              ),
            ),
          ),
        ),
      ),
    ),
  ),
)
