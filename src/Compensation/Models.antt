-- ===== src/Compensation/Models.antt =====
-- apps/compensation/models.py, and `Salary` of apps/employees/models.py: the stored rows. A foreign
-- key is the number of the row that it names, a date its ordinal.
use payroll_management_syste.Prelude.{
  ℕ, String, Bool, true, false, not, ◌&&◌, ◌||◌, Option, none, some, List, leb, if◌then◌else◌,
}
use payroll_management_syste.Outcome.{Result, validation_error, raise_if, raise_unless, ◌>>◌}
use payroll_management_syste.Decimal.{Decimal, whole, sub, lt, is_zero}

-- `CompensationCriterion`
pub data CompensationCriterion : Type 0 where
  skills education role_level experience performance tenure : CompensationCriterion
  market_benchmark inflation_index : CompensationCriterion

-- The place of the criterion's text in alphabetical order.
abbrev pub criterion_code : CompensationCriterion → ℕ
criterion_code education = 0
criterion_code experience = 1
criterion_code inflation_index = 2
criterion_code market_benchmark = 3
criterion_code performance = 4
criterion_code role_level = 5
criterion_code skills = 6
criterion_code tenure = 7

-- `RecommendationStatus`
pub data RecommendationStatus : Type 0 where
  draft pending_approval approved rejected applied : RecommendationStatus

abbrev pub is_pending : RecommendationStatus → Bool
is_pending pending_approval = true
is_pending _ = false

abbrev pub is_approved : RecommendationStatus → Bool
is_approved approved = true
is_approved _ = false

-- `ApprovalAction`
pub data ApprovalAction : Type 0 where
  approved rejected applied : ApprovalAction

abbrev pub is_approval : ApprovalAction → Bool
is_approval approved = true
is_approval _ = false

pub record CompensationPolicy : Type 0 where
  pub pk : ℕ
  pub organization : ℕ
  pub name : String
  pub version : String
  pub currency : String
  pub is_active : Bool
  pub archived_at : Option ℕ
  pub effective_from : ℕ
  pub effective_to : Option ℕ
  pub minimum_adjustment_percent : Decimal
  pub maximum_adjustment_percent : Decimal
  pub budget_limit : Decimal
  pub budget_committed : Decimal
  pub require_pay_equity_review : Bool
  pub pay_equity_max_deviation_percent : Decimal
  pub prohibited_criteria : List String

-- `budget_remaining`: a limit of zero is no limit.
unfoldable pub budget_remaining : CompensationPolicy → Option Decimal
budget_remaining p =
    if is_zero p.budget_limit then none else some (sub p.budget_limit p.budget_committed)

-- The end of a period is not before its start.
abbrev pub has_valid_dates : ℕ → Option ℕ → Bool
has_valid_dates start none = true
has_valid_dates start (some stop) = leb start stop

-- `full_clean` of a policy: `clean` of its base and of itself, and the check constraints.
unfoldable pub clean_policy : CompensationPolicy → Result (Unit {0})
clean_policy p = do
  raise_unless (has_valid_dates p.effective_from p.effective_to)
      (validation_error "effective end date cannot precede the start date")
  raise_if (lt p.budget_limit p.budget_committed && not (is_zero p.budget_limit))
      (validation_error "committed budget cannot exceed the policy limit")
  raise_if
      (lt p.minimum_adjustment_percent (whole 0)
        || lt p.maximum_adjustment_percent p.minimum_adjustment_percent)
      (validation_error "adjustment bounds are invalid")
  raise_if (lt p.budget_limit (whole 0) || lt p.budget_committed (whole 0))
      (validation_error "budgets must not be negative")

-- `metadata` is the text of its JSON.
pub record ScoringRule : Type 0 where
  pub pk : ℕ
  pub organization : ℕ
  pub policy : ℕ
  pub criterion : CompensationCriterion
  pub weight : Decimal
  pub threshold_min : Decimal
  pub threshold_max : Decimal
  pub target_value : Decimal
  pub metadata : String
  pub archived_at : Option ℕ
  pub effective_from : ℕ
  pub effective_to : Option ℕ

pub record Salary : Type 0 where
  pub pk : ℕ
  pub organization : ℕ
  pub employee : ℕ
  pub amount : Decimal
  pub currency : String
  pub frequency : String
  pub archived_at : Option ℕ
  pub effective_from : ℕ
  pub effective_to : Option ℕ

-- `controls`
pub record Controls : Type 0 where
  pub adjustment_within_bounds : Bool
  pub budget_within_limit : Bool
  pub pay_equity_within_limit : Bool

-- One criterion of `score_breakdown`.
pub record ScoreLine : Type 0 where
  pub rule : ℕ
  pub raw_value : Decimal
  pub normalized_score : Decimal
  pub weighted_points : Decimal

pub record CompensationRecommendation : Type 0 where
  pub pk : ℕ
  pub organization : ℕ
  pub policy : ℕ
  pub employee : ℕ
  pub current_salary : ℕ
  pub resulting_salary : Option ℕ
  pub as_of_date : ℕ
  pub status : RecommendationStatus
  pub score : Decimal
  pub score_breakdown : List ScoreLine
  pub proposed_min : Decimal
  pub proposed_midpoint : Decimal
  pub proposed_max : Decimal
  pub proposed_adjustment : Decimal
  pub currency : String
  pub controls : Controls
  pub pay_equity_reviewed : Bool
  pub created_by : Option ℕ

pub record CompensationApproval : Type 0 where
  pub organization : ℕ
  pub recommendation : ℕ
  pub action : ApprovalAction
  pub actor : ℕ
  pub explanation : String

-- The tables, oldest row first, and the keys to be given next.
pub record CompensationStore : Type 0 where
  pub policies : List CompensationPolicy
  pub rules : List ScoringRule
  pub salaries : List Salary
  pub recommendations : List CompensationRecommendation
  pub approvals : List CompensationApproval
  pub next_salary : ℕ
  pub next_recommendation : ℕ
