-- ===== src/Compensation/Tests.antt =====
-- One employee, scored, approved and given the new salary.
use payroll_management_syste.Prelude.Int.{pos}
use payroll_management_syste.Prelude.{
  ◌≡◌, refl, sym, ap, ◌∙◌, inl, inr, true, false, Option, none, some, some-injective, List, [], ◌∷◌,
  ◌==◌, Bool-cases,
}
use payroll_management_syste.Outcome.{ok, err, validation_error}
use payroll_management_syste.Decimal.{Decimal, whole, decimal, cents, computing}
use payroll_management_syste.Effective.{latest}
use payroll_management_syste.Organizations.{
  User, OrganizationMembership, administrator, authorize, membership_for, check_membership, permits,
  role_actions,
}
use payroll_management_syste.Compensation.Models.{
  CompensationPolicy, ScoringRule, Salary, CompensationRecommendation, CompensationStore,
  CompensationCriterion, RecommendationStatus, is_pending, budget_remaining, clean_policy,
  performance, pending_approval,
}
use payroll_management_syste.Compensation.Scoring.{
  SourceData, rules_as_of, current_salary, total_weight, normalized, score_rules, proposed,
  create_recommendation,
}
use payroll_management_syste.Compensation.Scoring.Proposal.{
  IsProposal, create_recommendation_proposes,
}
use payroll_management_syste.Compensation.Guards.{
  clean_rule, is_rule_conflict, save_policy, existing,
}
use payroll_management_syste.Compensation.Guards.Retained.{AreRetained}
use payroll_management_syste.Compensation.Guards.History.{
  CompensationHistory, CompensationHistory-AreRetained,
}
use payroll_management_syste.Compensation.Workflow.{
  authorized, check_approval, record_approval, approve_locked, approve_recommendation,
  check_application, close_salary, add_salary, record_application, apply_locked,
  apply_approved_recommendation, with_status,
}
use payroll_management_syste.Compensation.Workflow.Control.{
  IsApproved, IsApplied, approve_recommendation_separated, apply_approved_recommendation_approved,
}
use payroll_management_syste.Compensation.Workflow.Supervision.{
  IsSupervised, approve_recommendation-IsSupervised,
}

-- All that a recommendation unfolds.
unfoldable deciding : Unit {0}
unfolding computing latest authorize membership_for check_membership permits role_actions
    budget_remaining clean_policy rules_as_of current_salary total_weight normalized score_rules
    proposed create_recommendation authorized check_approval record_approval approve_locked
    approve_recommendation check_application close_salary add_salary record_application apply_locked
    apply_approved_recommendation
deciding = tt

abbrev admin : User
admin = record { pk = 7; is_authenticated = true; is_superuser = false }

abbrev memberships : List OrganizationMembership
memberships = record { user = 7; organization = 1; role = administrator; is_active = true } ∷ []

abbrev policy : CompensationPolicy
policy = record {
  pk = 2;
  organization = 1;
  name = "Annual review";
  version = "2026";
  currency = "USD";
  is_active = true;
  archived_at = none;
  effective_from = 10;
  effective_to = none;
  minimum_adjustment_percent = decimal (pos 0) 4;
  maximum_adjustment_percent = decimal (pos 1000) 4;
  budget_limit = cents (pos 1000000);
  budget_committed = cents (pos 0);
  require_pay_equity_review = true;
  pay_equity_max_deviation_percent = decimal (pos 500) 4;
  prohibited_criteria = "age" ∷ [];
}

abbrev rule : ScoringRule
rule = record {
  pk = 4;
  organization = 1;
  policy = 2;
  criterion = performance;
  weight = decimal (pos 10000) 4;
  threshold_min = decimal (pos 0) 4;
  threshold_max = decimal (pos 1000000) 4;
  target_value = decimal (pos 1000000) 4;
  metadata = "{}";
  archived_at = none;
  effective_from = 10;
  effective_to = none;
}

abbrev salary : Salary
salary = record {
  pk = 1;
  organization = 1;
  employee = 5;
  amount = cents (pos 5000000);
  currency = "USD";
  frequency = "annual";
  archived_at = none;
  effective_from = 12;
  effective_to = none;
}

abbrev store : CompensationStore
store = record {
  policies = policy ∷ [];
  rules = rule ∷ [];
  salaries = salary ∷ [];
  recommendations = [];
  approvals = [];
  next_salary = 2;
  next_recommendation = 1;
}

abbrev value_of : CompensationCriterion → Option Decimal
value_of performance = some (whole 80)
value_of _ = none

abbrev given : SourceData
given = record {
  value_of = value_of;
  fields = "performance" ∷ [];
  pay_equity_deviation_percent = none;
}

abbrev recommendation : CompensationRecommendation
recommendation = record {
  pk = 1;
  organization = 1;
  policy = 2;
  employee = 5;
  current_salary = 1;
  resulting_salary = none;
  as_of_date = 20;
  status = pending_approval;
  score = decimal (pos 800000) 4;
  score_breakdown =
      record {
        rule = 4;
        raw_value = whole 80;
        normalized_score = decimal (pos 800000) 4;
        weighted_points = decimal (pos 800000) 4;
      }
      ∷ [];
  proposed_min = cents (pos 5000000);
  proposed_midpoint = cents (pos 5400000);
  proposed_max = cents (pos 5500000);
  proposed_adjustment = cents (pos 400000);
  currency = "USD";
  controls = record {
    adjustment_within_bounds = true;
    budget_within_limit = true;
    pay_equity_within_limit = true;
  };
  pay_equity_reviewed = true;
  created_by = some 1;
}

abbrev proposed_store : CompensationStore
proposed_store = record store { recommendations = recommendation ∷ []; next_recommendation = 2 }

proposes :
    create_recommendation 1 5 policy 20 given (some 1) true store
    ≡ ok (recommendation, proposed_store)
unfolding deciding
proposes = refl

create_recommendation_proposes_example :
    IsProposal 1 5 policy 20 given (some 1) store (recommendation, proposed_store)
create_recommendation_proposes_example =
    create_recommendation_proposes 1 5 policy 20 given (some 1) true store proposed_store
      recommendation proposes

abbrev approved_store : CompensationStore
approved_store = record_approval recommendation admin "agreed" proposed_store

approves :
    approve_recommendation memberships 1 admin "agreed" proposed_store
    ≡ (ok (with_status RecommendationStatus.approved recommendation), approved_store)
unfolding deciding
approves = refl

approve_recommendation_separated_example :
    IsApproved memberships 1 admin "agreed" proposed_store
      (with_status RecommendationStatus.approved recommendation, approved_store)
    × (approved_store.salaries ≡ proposed_store.salaries)
    × (approved_store.policies ≡ proposed_store.policies)
approve_recommendation_separated_example =
    approve_recommendation_separated memberships 1 admin "agreed" proposed_store approved_store
      (with_status RecommendationStatus.approved recommendation) approves

abbrev raised : Salary
raised = record salary { pk = 2; amount = cents (pos 5400000); effective_from = 30 }

abbrev applied_store : CompensationStore
applied_store =
    record_application (with_status RecommendationStatus.approved recommendation)
      (record policy { budget_committed = cents (pos 400000) })
      (record salary { effective_to = some 29 } ∷ raised ∷ []) admin "done" approved_store

applies :
    apply_approved_recommendation memberships 1 admin 30 "done" approved_store
    ≡ (ok raised, applied_store)
unfolding deciding
applies = refl

apply_approved_recommendation_approved_example :
    IsApplied memberships 1 admin 30 "done" approved_store (raised, applied_store)
apply_approved_recommendation_approved_example =
    apply_approved_recommendation_approved memberships 1 admin 30 "done" approved_store
      applied_store raised applies

nothing_decided : IsSupervised proposed_store
nothing_decided pk r found decided = elim (Bool-cases (1 == pk)) [
  | inl here ↦
      let same : recommendation ≡ r = some-injective _ _ (rw here at found) in
      let pending : false ≡ true =
        sym decided ∙ ap (λ (x : CompensationRecommendation). is_pending x.status) (sym same) in
      cc
  | inr away ↦ let missing : none ≡ some r = rw away at found in cc
]

approve_recommendation-IsSupervised_example : IsSupervised approved_store
approve_recommendation-IsSupervised_example =
    approve_recommendation-IsSupervised memberships 1 admin "agreed" proposed_store approved_store
      (ok (with_status RecommendationStatus.approved recommendation)) nothing_decided approves

-- A new rule with an open end does not conflict with one of its criterion that starts later.
open_rule_test : clean_rule store (record rule { pk = 9; effective_from = 5 }) ≡ ok tt
unfolding clean_rule is_rule_conflict
open_rule_test = refl

term_change_test :
    save_policy existing (record policy { name = "Bonus" }) store
    ≡ err (validation_error "published policy terms are immutable")
unfolding save_policy
term_change_test = refl

CompensationHistory-AreRetained_example : AreRetained store applied_store
CompensationHistory-AreRetained_example = CompensationHistory-AreRetained store applied_store (
    CompensationHistory.applied memberships 1 admin 30 "done" (ok raised)
      (CompensationHistory.approved memberships 1 admin "agreed"
        (ok (with_status RecommendationStatus.approved recommendation))
        (CompensationHistory.proposed 1 5 policy 20 given (some 1) true recommendation
          CompensationHistory.start proposes)
        approves)
      applies)
