-- ===== src/Compensation/Workflow.antt =====
-- `approve_recommendation` and `apply_approved_recommendation` of
-- apps/compensation/services/recommendations.py.
pub mod Control
pub mod Supervision
use payroll_management_syste.Prelude.{
  ℕ, zero, suc, ◌+◌, ◌-◌, ◌*◌, ◌/◌, ◌%◌, ◌^◌, ◌≤◌, ◌<◌, max, min, String, ◌≡◌, refl, sym, ap, subst,
  ◌∙◌, ◌≢◌, ◌↔◌, ◌⊎◌, inl, inr, Bool, true, false, not, ◌&&◌, ◌||◌, Option, none, some,
  some-injective, List, [], ◌∷◌, ◌++◌, map, append-nil, append_assoc, arith, str_eq, str_eq_iff,
  ltb, leb, ◌==◌, if◌then◌else◌, ==_iff, Bool-cases, Option-cases, length, length-append, any, all,
  select, find, update_where, All, All-append, any-append, Elem, find-Elem, Elem-any, find_sound,
  select-append, All-select, All-map, Elem-select, select-Elem, select-All, find-append_new,
  length-update_where,
}
use payroll_management_syste.Outcome.{
  Result, ok, err, validation_error, permission_denied, does_not_exist, integrity_error, or_raise,
  raise_if, raise_unless, ◌>>=◌, ◌>>◌, atomic,
}
use payroll_management_syste.Decimal.{Decimal, whole, add, lt}
use payroll_management_syste.Organizations.{
  User, OrganizationMembership, ActionName, authorize, compensation_approve, compensation_apply,
}
use payroll_management_syste.Compensation.Models.{
  CompensationPolicy, Salary, Controls, CompensationRecommendation, CompensationApproval,
  CompensationStore, ApprovalAction, RecommendationStatus, is_pending, is_approved, is_approval,
  budget_remaining, clean_policy,
}
use payroll_management_syste.Compensation.Scoring.{within_budget}

abbrev pub recommendation_by_key :
    ℕ → List CompensationRecommendation → Option CompensationRecommendation
recommendation_by_key pk = find (λ r. r.pk == pk)

abbrev pub policy_by_key : ℕ → List CompensationPolicy → Option CompensationPolicy
policy_by_key pk = find (λ p. p.pk == pk)

abbrev pub salary_by_key : ℕ → List Salary → Option Salary
salary_by_key pk = find (λ x. x.pk == pk)

-- `_authorized_role`, for its check: the name of the role is only recorded.
unfoldable pub authorized : List OrganizationMembership → User → ℕ → ActionName → Result (Unit {0})
authorized memberships actor organization action = do
  _ ← authorize memberships actor organization (some action)
  ok tt

-- `failed_controls or not controls.get("adjustment_within_bounds")`
abbrev pub has_failed : Controls → Bool
has_failed c =
    not c.budget_within_limit || not c.pay_equity_within_limit || not c.adjustment_within_bounds

abbrev pub is_creator : Option ℕ → ℕ → Bool
is_creator none actor = false
is_creator (some creator) actor = creator == actor

-- The checks of `approve_recommendation`, in their order.
unfoldable pub check_approval :
    List OrganizationMembership
    → User
    → CompensationRecommendation
    → CompensationPolicy
    → Result (Unit {0})
check_approval memberships actor r p = do
  authorized memberships actor r.organization compensation_approve
  raise_unless (is_pending r.status)
      (validation_error "only pending recommendations can be approved")
  raise_if (is_creator r.created_by actor.pk)
      (permission_denied "creators cannot approve their own recommendation")
  raise_if (p.require_pay_equity_review && not r.pay_equity_reviewed)
      (validation_error "the required pay-equity review has not been completed")
  raise_if (has_failed r.controls) (validation_error "recommendation failed controls")
  raise_unless (within_budget (budget_remaining p) r.proposed_adjustment)
      (validation_error "the recommendation exceeds the policy's remaining budget")

abbrev pub approval_of :
    CompensationRecommendation → ApprovalAction → User → String → CompensationApproval
approval_of r action actor explanation = record {
  organization = r.organization;
  recommendation = r.pk;
  action = action;
  actor = actor.pk;
  explanation = explanation;
}

abbrev pub with_status :
    RecommendationStatus → CompensationRecommendation → CompensationRecommendation
with_status status r = record r { status = status }

-- The writes of an approval.
unfoldable pub record_approval :
    CompensationRecommendation → User → String → CompensationStore → CompensationStore
record_approval r actor explanation s = record s {
  approvals = s.approvals ++ approval_of r ApprovalAction.approved actor explanation ∷ [];
  recommendations =
      update_where (λ x. x.pk == r.pk) (with_status RecommendationStatus.approved)
        s.recommendations;
}

unfoldable pub approve_locked :
    List OrganizationMembership
    → ℕ
    → User
    → String
    → CompensationStore
    → Result (CompensationRecommendation × CompensationStore)
approve_locked memberships pk actor explanation s = do
  r ← or_raise (recommendation_by_key pk s.recommendations) does_not_exist
  p ← or_raise (policy_by_key r.policy s.policies) does_not_exist
  check_approval memberships actor r p
  ok (with_status RecommendationStatus.approved r, record_approval r actor explanation s)

unfoldable pub approve_recommendation :
    List OrganizationMembership
    → ℕ
    → User
    → String
    → CompensationStore
    → Result CompensationRecommendation × CompensationStore
approve_recommendation memberships pk actor explanation s =
    atomic s (approve_locked memberships pk actor explanation s)

abbrev pub has_approval : ℕ → List CompensationApproval → Bool
has_approval pk = any (λ a. a.recommendation == pk && is_approval a.action)

-- The checks of `apply_approved_recommendation`, in their order.
unfoldable pub check_application :
    List OrganizationMembership
    → User
    → ℕ
    → CompensationRecommendation
    → List CompensationApproval
    → Result (Unit {0})
check_application memberships actor effective_from r approvals = do
  authorized memberships actor r.organization compensation_apply
  raise_unless (is_approved r.status && has_approval r.pk approvals)
      (permission_denied "an authorized human approval is required before changing compensation")
  raise_unless (ltb r.as_of_date effective_from)
      (validation_error "the compensation change must take effect after the recommendation date")

-- `current.effective_to is None or current.effective_to >= effective_from`
abbrev pub reaches : Option ℕ → ℕ → Bool
reaches none date = true
reaches (some stop) date = leb date stop

-- The current salary ends on the day before; the table refuses an end before its start.
unfoldable pub close_salary : Salary → ℕ → List Salary → Result (List Salary)
close_salary current effective_from salaries =
    if reaches current.effective_to effective_from
    then (do
      raise_unless (leb current.effective_from (effective_from - 1)) integrity_error
      ok (
          update_where (λ x. x.pk == current.pk)
            (λ x. record x { effective_to = some (effective_from - 1) }) salaries))
    else ok salaries

abbrev pub salary_of : CompensationRecommendation → Salary → ℕ → ℕ → Salary
salary_of r current effective_from pk = record {
  pk = pk;
  organization = r.organization;
  employee = r.employee;
  amount = r.proposed_midpoint;
  currency = r.currency;
  frequency = current.frequency;
  archived_at = none;
  effective_from = effective_from;
  effective_to = none;
}

-- `Salary.objects.create`: "unique_salary_period_start" and "salary_nonnegative".
unfoldable pub add_salary : Salary → List Salary → Result (List Salary)
add_salary salary salaries = do
  raise_if
      (any (λ x. x.employee == salary.employee && x.effective_from == salary.effective_from)
        salaries)
      integrity_error
  raise_if (lt salary.amount (whole 0)) integrity_error
  ok (salaries ++ salary ∷ [])

abbrev pub committed : CompensationRecommendation → CompensationPolicy → CompensationPolicy
committed r p = record p { budget_committed = add p.budget_committed r.proposed_adjustment }

-- The writes of an application, for the salaries and the policy that it has computed.
unfoldable pub record_application :
    CompensationRecommendation
    → CompensationPolicy
    → List Salary
    → User
    → String
    → CompensationStore
    → CompensationStore
record_application r p salaries actor explanation s = record s {
  salaries = salaries;
  next_salary = s.next_salary + 1;
  policies = update_where (λ x. x.pk == p.pk) (λ _. p) s.policies;
  approvals = s.approvals ++ approval_of r ApprovalAction.applied actor explanation ∷ [];
  recommendations =
      update_where (λ x. x.pk == r.pk)
        (λ x. record x {
          status = RecommendationStatus.applied;
          resulting_salary = some s.next_salary;
        })
        s.recommendations;
}

unfoldable pub apply_locked :
    List OrganizationMembership
    → ℕ
    → User
    → ℕ
    → String
    → CompensationStore
    → Result (Salary × CompensationStore)
apply_locked memberships pk actor effective_from explanation s = do
  r ← or_raise (recommendation_by_key pk s.recommendations) does_not_exist
  check_application memberships actor effective_from r s.approvals
  current ← or_raise (salary_by_key r.current_salary s.salaries) does_not_exist
  closed ← close_salary current effective_from s.salaries
  let salary = salary_of r current effective_from s.next_salary
  salaries ← add_salary salary closed
  p ← or_raise (policy_by_key r.policy s.policies) does_not_exist
  clean_policy (committed r p)
  ok (salary, record_application r (committed r p) salaries actor explanation s)

unfoldable pub apply_approved_recommendation :
    List OrganizationMembership
    → ℕ
    → User
    → ℕ
    → String
    → CompensationStore
    → Result Salary × CompensationStore
apply_approved_recommendation memberships pk actor effective_from explanation s =
    atomic s (apply_locked memberships pk actor effective_from explanation s)
