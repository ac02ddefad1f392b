-- ===== src/Compensation/Workflow/Control.antt =====
-- No salary changes without the approval of another person, and none twice.
use payroll_management_syste.Prelude.{
  ℕ, String, ◌≡◌, refl, ap, true, false, not, ◌&&◌, some, List, [], ◌∷◌, ◌++◌, ltb, ◌==◌, any,
}
use payroll_management_syste.Decimal.{whole, lt}
use payroll_management_syste.Outcome.{
  ok, validation_error, permission_denied, does_not_exist, or_raise, or_raise-ok, raise_if,
  raise_if-ok, raise_unless, raise_unless-ok, integrity_error, atomic-ok, Ensures, Ensures-bind,
  Ensures-last, Ensures-elim,
}
use payroll_management_syste.Organizations.{
  User, OrganizationMembership, compensation_approve, compensation_apply,
}
use payroll_management_syste.Compensation.Models.{
  CompensationPolicy, Salary, CompensationRecommendation, CompensationApproval, CompensationStore,
  RecommendationStatus, is_pending, is_approved, budget_remaining, clean_policy,
}
use payroll_management_syste.Compensation.Scoring.{within_budget}
use payroll_management_syste.Compensation.Workflow.{
  apply_locked, apply_approved_recommendation, recommendation_by_key, policy_by_key, salary_by_key,
  authorized, has_failed, is_creator, check_approval, record_approval, approve_locked,
  approve_recommendation, has_approval, check_application, close_salary, salary_of, add_salary,
  committed, record_application, with_status,
}

-- The checks that an approval has passed.
abbrev pub IsApprovable :
    List OrganizationMembership → User → CompensationRecommendation → CompensationPolicy → Type 0
IsApprovable memberships actor r p =
    (authorized memberships actor r.organization compensation_approve ≡ ok tt)
    × (is_pending r.status ≡ true)
    × (is_creator r.created_by actor.pk ≡ false)
    × ((p.require_pay_equity_review && not r.pay_equity_reviewed) ≡ false)
    × (has_failed r.controls ≡ false)
    × (within_budget (budget_remaining p) r.proposed_adjustment ≡ true)

check_approval-Ensures :
    (memberships : List OrganizationMembership) (actor : User) (r : CompensationRecommendation)
    (p : CompensationPolicy)
    → Ensures (λ _. IsApprovable memberships actor r p) (check_approval memberships actor r p)
unfolding check_approval
check_approval-Ensures memberships actor r p =
    let P = λ (_ : Unit {0}). IsApprovable memberships actor r p in
    Ensures-bind P (authorized memberships actor r.organization compensation_approve) _ λ _ may.
      Ensures-bind P
        (raise_unless (is_pending r.status)
          (validation_error "only pending recommendations can be approved"))
        _
        λ _ pending.
          Ensures-bind P
            (raise_if (is_creator r.created_by actor.pk)
              (permission_denied "creators cannot approve their own recommendation"))
            _
            λ _ other.
              Ensures-bind P
                (raise_if (p.require_pay_equity_review && not r.pay_equity_reviewed)
                  (validation_error "the required pay-equity review has not been completed"))
                _
                λ _ reviewed.
                  Ensures-bind P
                    (raise_if (has_failed r.controls)
                      (validation_error "recommendation failed controls"))
                    _
                    λ _ controlled.
                      Ensures-last P
                        (raise_unless (within_budget (budget_remaining p) r.proposed_adjustment) (
                          validation_error
                            "the recommendation exceeds the policy's remaining budget"))
                        λ _ affordable. (
                          may,
                          raise_unless-ok _ _ pending,
                          raise_if-ok _ _ other,
                          raise_if-ok _ _ reviewed,
                          raise_if-ok _ _ controlled,
                          raise_unless-ok _ _ affordable,
                        )

-- The approval of the stored recommendation, and nothing else.
abbrev pub IsApproved :
    List OrganizationMembership
    → ℕ
    → User
    → String
    → CompensationStore
    → CompensationRecommendation × CompensationStore
    → Type 0
IsApproved memberships pk actor explanation s (r', s') =
    (r : CompensationRecommendation) × (p : CompensationPolicy) × (recommendation_by_key pk
        s.recommendations
      ≡ some r)
    × (policy_by_key r.policy s.policies ≡ some p)
    × IsApprovable memberships actor r p
    × (r' ≡ with_status RecommendationStatus.approved r)
    × (s' ≡ record_approval r actor explanation s)

pub approve_locked-Ensures :
    (memberships : List OrganizationMembership) (pk : ℕ) (actor : User) (explanation : String)
    (s : CompensationStore)
    → Ensures
        (IsApproved memberships pk actor explanation s)
        (approve_locked memberships pk actor explanation s)
unfolding approve_locked
approve_locked-Ensures memberships pk actor explanation s =
    let P = IsApproved memberships pk actor explanation s in
    Ensures-bind P (or_raise (recommendation_by_key pk s.recommendations) does_not_exist) _
      λ r found.
        Ensures-bind P (or_raise (policy_by_key r.policy s.policies) does_not_exist) _ λ p known.
          Ensures-bind P (check_approval memberships actor r p) _ λ u passed. (
            r,
            p,
            or_raise-ok _ _ found,
            or_raise-ok _ _ known,
            Ensures-elim (λ _. IsApprovable memberships actor r p)
                (check_approval memberships actor r p) u
                (check_approval-Ensures memberships actor r p) passed,
            refl,
            refl,
          )

-- An approval that returns was given to a pending recommendation by an actor who is authorized in
-- its organization and did not create it, with its pay-equity review done where the policy wants
-- one, all controls passed and the budget that remains not exceeded. It changes the status of the
-- recommendation and adds one approval; no salary and no policy changes.
pub approve_recommendation_separated :
    (memberships : List OrganizationMembership) (pk : ℕ) (actor : User) (explanation : String)
    (s s' : CompensationStore) (r' : CompensationRecommendation)
    → approve_recommendation memberships pk actor explanation s ≡ (ok r', s')
    → IsApproved memberships pk actor explanation s (r', s')
      × (s'.salaries ≡ s.salaries)
      × (s'.policies ≡ s.policies)
unfolding approve_recommendation record_approval
approve_recommendation_separated memberships pk actor explanation s s' r' e =
    let m = approve_locked memberships pk actor explanation s in
    let (r, p, found, known, passed, same, written) =
      Ensures-elim (IsApproved memberships pk actor explanation s) m (r', s')
        (approve_locked-Ensures memberships pk actor explanation s) (atomic-ok s s' r' m e) in
    (
      (r, p, found, known, passed, same, written),
      ap (λ (x : CompensationStore). x.salaries) written,
      ap (λ (x : CompensationStore). x.policies) written,
    )

-- The checks that an application has passed, and what it writes.
abbrev pub IsApplied :
    List OrganizationMembership
    → ℕ
    → User
    → ℕ
    → String
    → CompensationStore
    → Salary × CompensationStore
    → Type 0
IsApplied memberships pk actor effective_from explanation s (salary, s') =
    (r : CompensationRecommendation) × (current : Salary) × (p : CompensationPolicy)
    × (closed : List Salary) × (recommendation_by_key pk s.recommendations ≡ some r)
    × (authorized memberships actor r.organization compensation_apply ≡ ok tt)
    × ((is_approved r.status && has_approval r.pk s.approvals) ≡ true)
    × (ltb r.as_of_date effective_from ≡ true)
    × (salary_by_key r.current_salary s.salaries ≡ some current)
    × (close_salary current effective_from s.salaries ≡ ok closed)
    × (policy_by_key r.policy s.policies ≡ some p)
    × (clean_policy (committed r p) ≡ ok tt)
    × (salary ≡ salary_of r current effective_from s.next_salary)
    × (s' ≡ record_application r (committed r p) (closed ++ salary ∷ []) actor explanation s)

check_application-Ensures :
    (memberships : List OrganizationMembership) (actor : User) (effective_from : ℕ)
    (r : CompensationRecommendation) (approvals : List CompensationApproval)
    → Ensures
        (λ _.
          (authorized memberships actor r.organization compensation_apply ≡ ok tt)
          × ((is_approved r.status && has_approval r.pk approvals) ≡ true)
          × (ltb r.as_of_date effective_from ≡ true))
        (check_application memberships actor effective_from r approvals)
unfolding check_application
check_application-Ensures memberships actor effective_from r approvals =
    let P = λ (_ : Unit {0}).
      (authorized memberships actor r.organization compensation_apply ≡ ok tt)
      × ((is_approved r.status && has_approval r.pk approvals) ≡ true)
      × (ltb r.as_of_date effective_from ≡ true) in
    Ensures-bind P (authorized memberships actor r.organization compensation_apply) _ λ _ may.
      Ensures-bind P
        (raise_unless (is_approved r.status && has_approval r.pk approvals) (
          permission_denied
            "an authorized human approval is required before changing compensation"))
        _
        λ _ agreed.
          Ensures-last P
            (raise_unless (ltb r.as_of_date effective_from) (
              validation_error
                "the compensation change must take effect after the recommendation date"))
            λ _ later. (may, raise_unless-ok _ _ agreed, raise_unless-ok _ _ later)

add_salary-Ensures :
    (salary : Salary) (salaries : List Salary)
    → Ensures (λ xs. xs ≡ salaries ++ salary ∷ []) (add_salary salary salaries)
unfolding add_salary
add_salary-Ensures salary salaries =
    let P = λ (xs : List Salary). xs ≡ salaries ++ salary ∷ [] in
    Ensures-bind P
      (raise_if
        (any (λ x. x.employee == salary.employee && x.effective_from == salary.effective_from)
          salaries)
        integrity_error)
      _ λ _ _. Ensures-bind P (raise_if (lt salary.amount (whole 0)) integrity_error) _ λ _ _. refl

pub apply_locked-Ensures :
    (memberships : List OrganizationMembership) (pk : ℕ) (actor : User) (effective_from : ℕ)
    (explanation : String) (s : CompensationStore)
    → Ensures
        (IsApplied memberships pk actor effective_from explanation s)
        (apply_locked memberships pk actor effective_from explanation s)
unfolding apply_locked
apply_locked-Ensures memberships pk actor effective_from explanation s =
    let P = IsApplied memberships pk actor effective_from explanation s in
    Ensures-bind P (or_raise (recommendation_by_key pk s.recommendations) does_not_exist) _
      λ r found.
        Ensures-bind P (check_application memberships actor effective_from r s.approvals) _
          λ u passed.
            Ensures-bind P (or_raise (salary_by_key r.current_salary s.salaries) does_not_exist) _
              λ current known.
                Ensures-bind P (close_salary current effective_from s.salaries) _ λ closed ended.
                  let salary = salary_of r current effective_from s.next_salary in
                  Ensures-bind P (add_salary salary closed) _ λ salaries added.
                    Ensures-bind P (or_raise (policy_by_key r.policy s.policies) does_not_exist) _
                      λ p kept. Ensures-bind P (clean_policy (committed r p)) _ λ _ clean.
                        let (may, agreed, later) =
                          Ensures-elim
                            (λ _.
                              (authorized memberships actor r.organization compensation_apply
                                ≡ ok tt)
                              × ((is_approved r.status && has_approval r.pk s.approvals) ≡ true)
                              × (ltb r.as_of_date effective_from ≡ true))
                            (check_application memberships actor effective_from r s.approvals) u
                            (check_application-Ensures memberships actor effective_from r
                              s.approvals)
                            passed in
                        let grown =
                          Ensures-elim (λ xs. xs ≡ closed ++ salary ∷ []) (add_salary salary closed)
                            salaries (add_salary-Ensures salary closed) added in
                        (
                          r,
                          current,
                          p,
                          closed,
                          or_raise-ok _ _ found,
                          may,
                          agreed,
                          later,
                          or_raise-ok _ _ known,
                          ended,
                          or_raise-ok _ _ kept,
                          clean,
                          refl,
                          ap (λ xs. record_application r (committed r p) xs actor explanation s)
                              grown,
                        )

-- An application that returns was made by an authorized actor for a recommendation that is
-- approved and has an approval on record, from a day after the recommendation's. The table of
-- salaries is then the one with the current salary ended, and one new salary with the proposed
-- midpoint behind it; the policy with the adjustment committed has passed its own checks.
pub apply_approved_recommendation_approved :
    (memberships : List OrganizationMembership) (pk : ℕ) (actor : User) (effective_from : ℕ)
    (explanation : String) (s s' : CompensationStore) (salary : Salary)
    → apply_approved_recommendation memberships pk actor effective_from explanation s
      ≡ (ok salary, s')
    → IsApplied memberships pk actor effective_from explanation s (salary, s')
unfolding apply_approved_recommendation
apply_approved_recommendation_approved memberships pk actor effective_from explanation s s' salary
      e =
    let m = apply_locked memberships pk actor effective_from explanation s in
    Ensures-elim (IsApplied memberships pk actor effective_from explanation s) m (salary, s')
      (apply_locked-Ensures memberships pk actor effective_from explanation s)
      (atomic-ok s s' salary m e)
