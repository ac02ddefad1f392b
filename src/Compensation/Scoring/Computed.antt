-- ===== src/Compensation/Scoring/Computed.antt =====
-- The steps of `create_recommendation`, as they stand when it returns.
use payroll_management_syste.Prelude.{
  ℕ, ◌+◌, ◌≡◌, refl, Bool, true, false, Option, none, some, [], ◌∷◌, ◌++◌, str_eq, str_eq_iff, ◌==◌,
  ==_iff, length,
}
use payroll_management_syste.Outcome.{
  ok, validation_error, or_raise, or_raise-ok, raise_if, raise_if-ok, raise_unless, raise_unless-ok,
  Ensures, Ensures-bind,
}
use payroll_management_syste.Decimal.{Decimal, whole, mul, div, quantize, le}
use payroll_management_syste.Compensation.Models.{
  CompensationPolicy, Salary, CompensationRecommendation, CompensationStore, pending_approval,
}
use payroll_management_syste.Compensation.Scoring.{
  is_in_force, has_prohibited, rules_as_of, criteria, total_weight, has_missing, score_rules,
  current_salary, proposed, SourceData, create_recommendation,
}

-- What the steps of `create_recommendation` have computed when it returns.
abbrev pub IsComputed :
    ℕ
    → ℕ
    → CompensationPolicy
    → ℕ
    → SourceData
    → Option ℕ
    → CompensationStore
    → CompensationRecommendation × CompensationStore
    → Type 0
IsComputed organization employee p date data_given actor s (r, s') =
    (salary : Salary) × (scored : Decimal) × (ratio : Decimal) × (p.organization ≡ organization)
    × (is_in_force date p ≡ true)
    × (has_prohibited p data_given ≡ false)
    × (le (total_weight (rules_as_of p.pk date s.rules criteria) (whole 0)) (whole 0) ≡ false)
    × (score_rules data_given (total_weight (rules_as_of p.pk date s.rules criteria) (whole 0))
          (rules_as_of p.pk date s.rules criteria) (whole 0)
        ≡ ok (scored, r.score_breakdown))
    × (div scored (total_weight (rules_as_of p.pk date s.rules criteria) (whole 0)) ≡ ok ratio)
    × (quantize 4 (mul ratio (whole 100)) ≡ ok r.score)
    × (current_salary employee date s.salaries ≡ some salary)
    × (salary.currency ≡ p.currency)
    × (proposed p salary.amount r.score
        ≡ ok (r.proposed_midpoint, r.proposed_adjustment, r.proposed_min, r.proposed_max))
    × (r.current_salary ≡ salary.pk)
    × (r.status ≡ pending_approval)
    × (r.resulting_salary ≡ none)
    × (r.created_by ≡ actor)
    × (s' ≡ record s {
      recommendations = s.recommendations ++ r ∷ [];
      next_recommendation = s.next_recommendation + 1;
    })

pub create_recommendation-Ensures :
    (organization employee : ℕ) (p : CompensationPolicy) (date : ℕ) (data_given : SourceData)
    (actor : Option ℕ) (reviewed : Bool) (s : CompensationStore)
    → Ensures
        (IsComputed organization employee p date data_given actor s)
        (create_recommendation organization employee p date data_given actor reviewed s)
unfolding create_recommendation
create_recommendation-Ensures organization employee p date data_given actor reviewed s =
    let P = IsComputed organization employee p date data_given actor s in
    let rules = rules_as_of p.pk date s.rules criteria in
    let weights = total_weight rules (whole 0) in
    Ensures-bind P
      (raise_unless (p.organization == organization)
        (validation_error "policy and employee must belong to the same organization"))
      _
      λ _ own.
        Ensures-bind P
          (raise_unless (is_in_force date p)
            (validation_error "the selected compensation policy is not effective"))
          _
          λ _ in_force.
            Ensures-bind P
              (raise_if (has_prohibited p data_given)
                (validation_error "prohibited source-data criteria supplied"))
              _
              λ _ allowed.
                Ensures-bind P
                  (raise_if (length rules == 0)
                    (validation_error "the policy has no scoring rules effective"))
                  _
                  λ _ _.
                    Ensures-bind P
                      (raise_if (has_missing data_given rules)
                        (validation_error "missing source data for criteria"))
                      _
                      λ _ _.
                        Ensures-bind P
                          (raise_if (le weights (whole 0)) (
                            validation_error
                              "effective scoring-rule weights must total more than zero"))
                          _
                          λ _ weighty.
                            Ensures-bind P (score_rules data_given weights rules (whole 0)) _
                              λ scored summed.
                                Ensures-bind P (div scored.0 weights) _ λ ratio divided.
                                  Ensures-bind P (quantize 4 (mul ratio (whole 100))) _
                                    λ score rounded.
                                      Ensures-bind P
                                        (or_raise (current_salary employee date s.salaries)
                                          (validation_error "employee has no salary effective"))
                                        _
                                        λ salary found.
                                          Ensures-bind P
                                            (raise_unless (str_eq salary.currency p.currency) (
                                              validation_error
                                                "employee salary and policy currencies must match"))
                                            _
                                            λ _ currency.
                                              Ensures-bind P (proposed p salary.amount score) _
                                                λ amounts given.
                                                  Ensures-bind P
                                                    (raise_unless
                                                      (salary.organization == organization)
                                                      (validation_error
                                                        "salary must belong to the same organization"))
                                                    _
                                                    λ _ _. (
                                                      salary,
                                                      scored.0,
                                                      ratio,
                                                      (==_iff _ _).0 (raise_unless-ok _ _ own),
                                                      raise_unless-ok _ _ in_force,
                                                      raise_if-ok _ _ allowed,
                                                      raise_if-ok _ _ weighty,
                                                      summed,
                                                      divided,
                                                      rounded,
                                                      or_raise-ok _ _ found,
                                                      (str_eq_iff salary.currency p.currency).0
                                                          (raise_unless-ok _ _ currency),
                                                      given,
                                                      refl,
                                                      refl,
                                                      refl,
                                                      refl,
                                                      refl,
                                                    )
