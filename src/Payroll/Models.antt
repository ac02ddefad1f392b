-- ===== src/Payroll/Models.antt =====
-- apps/payroll/models.py: the stored records of a payroll, and the enumerations that the rules use.
-- A foreign key is the number of the row that it names, a date its ordinal.
use payroll_management_syste.Organizations.{OrganizationRole}
use payroll_management_syste.Prelude.{
  str_eq, ◌&&◌, find, ◌==◌, ℕ, String, Bool, true, false, Option, List,
}
use payroll_management_syste.Decimal.{Decimal}

-- `PayrollLifecycle`
pub data PayrollLifecycle : Type 0 where
  draft validation approval locked paid corrected archived : PayrollLifecycle

abbrev pub lifecycle_code : PayrollLifecycle → ℕ
lifecycle_code draft = 0
lifecycle_code validation = 1
lifecycle_code approval = 2
lifecycle_code locked = 3
lifecycle_code paid = 4
lifecycle_code corrected = 5
lifecycle_code archived = 6

-- `status in PROTECTED_PERIOD_STATUSES`
abbrev pub is_protected : PayrollLifecycle → Bool
is_protected draft = false
is_protected validation = false
is_protected approval = false
is_protected locked = true
is_protected paid = true
is_protected corrected = true
is_protected archived = true

-- `InputType`
pub data InputType : Type 0 where
  base_salary hourly overtime bonus commission benefit : InputType
  pre_tax_deduction post_tax_deduction employer_cost : InputType

-- The text under "input_type" in an input: a listed type, or a text that is none.
pub data TypeText : Type 0 where
  listed : InputType → TypeText
  unlisted : String → TypeText

-- `LineItemCategory`
pub data LineItemCategory : Type 0 where
  earning benefit pre_tax_deduction post_tax_deduction employer_cost : LineItemCategory

-- The keys of "metadata" that the rules read.
pub record Metadata : Type 0 where
  pub worked_days : Option Decimal
  pub period_days : Option Decimal
  pub multiplier : Option Decimal

-- An input as the dictionary that the rules take. A missing key is `none`.
pub record InputItem : Type 0 where
  pub id : Option ℕ
  pub source_key : Option String
  pub employee_id : Option ℕ
  pub input_type : Option TypeText
  pub description : Option String
  pub amount : Option Decimal
  pub quantity : Option Decimal
  pub rate : Option Decimal
  pub metadata : Option Metadata

-- A line as `calculate_input` returns it, and as `PayrollLineItem` stores it.
pub record LineItem : Type 0 where
  pub employee_id : ℕ
  pub input_type : TypeText
  pub category : LineItemCategory
  pub description : String
  pub amount : Decimal
  pub formula : String
  pub unrounded_result : Decimal
  pub source_snapshot : InputItem

-- `EmployeePayrollInput`
pub record EmployeePayrollInput : Type 0 where
  pub pk : ℕ
  pub organization : ℕ
  pub period : ℕ
  pub employee : ℕ
  pub input_type : InputType
  pub description : String
  pub amount : Decimal
  pub quantity : Decimal
  pub rate : Decimal
  pub source_key : String
  pub metadata : Metadata

-- `PayrollPeriod`
pub record PayrollPeriod : Type 0 where
  pub pk : ℕ
  pub organization : ℕ
  pub jurisdiction : String
  pub schedule : ℕ
  pub period_start : ℕ
  pub period_end : ℕ
  pub pay_date : ℕ
  pub status : PayrollLifecycle
  pub locked_at : Option ℕ
  pub paid_at : Option ℕ
  pub archived_at : Option ℕ

-- `Payslip`
pub record Payslip : Type 0 where
  pub employee : ℕ
  pub gross_pay : Decimal
  pub net_pay : Decimal
  pub lines : List LineItem

-- `CalculationRun`, with its `PayrollLineItem`s and `Payslip`s.
pub record CalculationRun : Type 0 where
  pub pk : ℕ
  pub organization : ℕ
  pub period : ℕ
  pub adjustment_of : Option ℕ
  pub rules_version : String
  pub tax_jurisdiction_code : String
  pub tax_rule_version : String
  pub idempotency_key : String
  pub input_snapshot : List InputItem
  pub gross_pay : Decimal
  pub pre_tax_deductions : Decimal
  pub post_tax_deductions : Decimal
  pub employer_costs : Decimal
  pub net_pay : Decimal
  pub created_by : Option ℕ
  pub line_items : List LineItem
  pub payslips : List Payslip

-- `PayrollApproval`
pub record PayrollApproval : Type 0 where
  pub organization : ℕ
  pub period : ℕ
  pub from_status : PayrollLifecycle
  pub to_status : PayrollLifecycle
  pub actor : ℕ
  pub actor_role : OrganizationRole
  pub explanation : String

-- `PayrollCorrection`
pub record PayrollCorrection : Type 0 where
  pub organization : ℕ
  pub original_period : ℕ
  pub adjustment_run : ℕ
  pub reason : String
  pub requested_by : ℕ

-- The tables, oldest row first, and the next key of a run.
pub record PayrollStore : Type 0 where
  pub periods : List PayrollPeriod
  pub inputs : List EmployeePayrollInput
  pub runs : List CalculationRun
  pub approvals : List PayrollApproval
  pub corrections : List PayrollCorrection
  pub next_run : ℕ

abbrev pub period_by_key : ℕ → List PayrollPeriod → Option PayrollPeriod
period_by_key pk = find (λ p. p.pk == pk)

-- `filter(organization=…, idempotency_key=…).first()`
abbrev pub is_run_for : ℕ → String → CalculationRun → Bool
is_run_for organization key run = run.organization == organization && str_eq run.idempotency_key key

abbrev pub run_by_key : ℕ → String → List CalculationRun → Option CalculationRun
run_by_key organization key = find (is_run_for organization key)
