-- ===== src/Compensation/Guards/History.antt =====
-- What the guards keep, through every call of the workflow and every save.
use payroll_management_syste.Prelude.{ℕ, String, ◌≡◌, Bool, Option, List}
use payroll_management_syste.Outcome.{Ensures-elim, Result, ok}
use payroll_management_syste.Organizations.{User, OrganizationMembership}
use payroll_management_syste.Compensation.Models.{
  CompensationPolicy, ScoringRule, Salary, CompensationRecommendation, CompensationApproval,
  CompensationStore,
}
use payroll_management_syste.Compensation.Scoring.{SourceData, create_recommendation}
use payroll_management_syste.Compensation.Workflow.{
  approve_recommendation, apply_approved_recommendation,
}
use payroll_management_syste.Compensation.Guards.{
  Saving, save_policy, save_rule, save_recommendation, save_approval, RetainedTable, delete_row,
}
use payroll_management_syste.Compensation.Scoring.Computed.{
  create_recommendation-Ensures, IsComputed,
}
use payroll_management_syste.Compensation.Guards.Retained.{
  AreRetained, AreRetained-refl, AreRetained-trans, save_policy-AreRetained, save_rule-AreRetained,
  save_recommendation-AreRetained, save_approval-AreRetained, delete_row-AreRetained,
  proposed-AreRetained, approved-AreRetained, applied-AreRetained,
}

-- The stores that the services and the saves reach, in any order; salaries are also saved elsewhere.
pub data CompensationHistory : CompensationStore → CompensationStore → Type 0 where
  start : {s : CompensationStore} → CompensationHistory s s
  policy_saved :
      {s a b : CompensationStore} (saving : Saving) (p : CompensationPolicy)
      → CompensationHistory s a
      → save_policy saving p a ≡ ok b
      → CompensationHistory s b
  rule_saved :
      {s a b : CompensationStore} (saving : Saving) (r : ScoringRule)
      → CompensationHistory s a
      → save_rule saving r a ≡ ok b
      → CompensationHistory s b
  recommendation_saved :
      {s a b : CompensationStore} (employee_owner : ℕ → Option ℕ) (saving : Saving)
      (r : CompensationRecommendation)
      → CompensationHistory s a
      → save_recommendation employee_owner saving r a ≡ ok b
      → CompensationHistory s b
  approval_saved :
      {s a b : CompensationStore} (saving : Saving) (x : CompensationApproval)
      → CompensationHistory s a
      → save_approval saving x a ≡ ok b
      → CompensationHistory s b
  row_deleted :
      {s a b : CompensationStore} (table : RetainedTable)
      → CompensationHistory s a
      → delete_row table a ≡ ok b
      → CompensationHistory s b
  salaries_changed :
      {s a : CompensationStore} (salaries : List Salary) (next : ℕ)
      → CompensationHistory s a
      → CompensationHistory s (record a { salaries = salaries; next_salary = next })
  proposed :
      {s a b : CompensationStore} (organization employee : ℕ) (p : CompensationPolicy) (date : ℕ)
      (data_given : SourceData) (actor : Option ℕ) (reviewed : Bool)
      (r : CompensationRecommendation)
      → CompensationHistory s a
      → create_recommendation organization employee p date data_given actor reviewed a ≡ ok (r, b)
      → CompensationHistory s b
  approved :
      {s a b : CompensationStore} (memberships : List OrganizationMembership) (pk : ℕ)
      (actor : User) (explanation : String) (result : Result CompensationRecommendation)
      → CompensationHistory s a
      → approve_recommendation memberships pk actor explanation a ≡ (result, b)
      → CompensationHistory s b
  applied :
      {s a b : CompensationStore} (memberships : List OrganizationMembership) (pk : ℕ)
      (actor : User) (effective_from : ℕ) (explanation : String) (result : Result Salary)
      → CompensationHistory s a
      → apply_approved_recommendation memberships pk actor effective_from explanation a
        ≡ (result, b)
      → CompensationHistory s b

-- Through every history of saves, deletions, proposals, approvals and applications, whether they
-- return or raise: a policy stays under its key with its published terms, a scoring rule with its
-- own, a recommendation with its results, and no approval is lost.
pub CompensationHistory-AreRetained :
    (s t : CompensationStore) → CompensationHistory s t → AreRetained s t
CompensationHistory-AreRetained s t start = AreRetained-refl s
CompensationHistory-AreRetained s t (policy_saved {a} saving p h e) =
    AreRetained-trans s a t (CompensationHistory-AreRetained s a h) (
      Ensures-elim (AreRetained a) (save_policy saving p a) t (save_policy-AreRetained saving p a)
        e)
CompensationHistory-AreRetained s t (rule_saved {a} saving r h e) =
    AreRetained-trans s a t (CompensationHistory-AreRetained s a h)
      (Ensures-elim (AreRetained a) (save_rule saving r a) t (save_rule-AreRetained saving r a) e)
CompensationHistory-AreRetained s t (recommendation_saved {a} employee_owner saving r h e) =
    AreRetained-trans s a t (CompensationHistory-AreRetained s a h) (
      Ensures-elim (AreRetained a) (save_recommendation employee_owner saving r a) t
        (save_recommendation-AreRetained employee_owner saving r a) e)
CompensationHistory-AreRetained s t (approval_saved {a} saving x h e) =
    AreRetained-trans s a t (CompensationHistory-AreRetained s a h) (
      Ensures-elim (AreRetained a) (save_approval saving x a) t
        (save_approval-AreRetained saving x a) e)
CompensationHistory-AreRetained s t (row_deleted {a} table h e) =
    AreRetained-trans s a t (CompensationHistory-AreRetained s a h)
      (Ensures-elim (AreRetained a) (delete_row table a) t (delete_row-AreRetained table a) e)
CompensationHistory-AreRetained s t (salaries_changed salaries next h) =
    CompensationHistory-AreRetained s _ h
CompensationHistory-AreRetained s t
      (proposed {a} organization employee p date data_given actor reviewed r h e) =
    let (_, _, _, _, _, _, _, _, _, _, _, _, _, _, _, _, _, written) =
      Ensures-elim (IsComputed organization employee p date data_given actor a)
        (create_recommendation organization employee p date data_given actor reviewed a) (r, t)
        (create_recommendation-Ensures organization employee p date data_given actor reviewed a)
        e in
    AreRetained-trans s a t (CompensationHistory-AreRetained s a h)
      (proposed-AreRetained a t r written)
CompensationHistory-AreRetained s t (approved {a} memberships pk actor explanation result h e) =
    AreRetained-trans s a t (CompensationHistory-AreRetained s a h)
      (approved-AreRetained memberships pk actor explanation a t result e)
CompensationHistory-AreRetained s t
      (applied {a} memberships pk actor effective_from explanation result h e) =
    AreRetained-trans s a t (CompensationHistory-AreRetained s a h)
      (applied-AreRetained memberships pk actor effective_from explanation a t result e)
