-- ===== src/Taxation/Models.antt =====
-- apps/taxation/models.py: the stored tax rules. A date is its ordinal; a foreign key is the number
-- of the row that it names.
use payroll_management_syste.Prelude.{ℕ, String, Bool, Option, List, ◌==◌}
use payroll_management_syste.Decimal.{Decimal}

pub data RuleStatus : Type 0 where
  draft validated approved active retired rejected : RuleStatus

abbrev pub status_code : RuleStatus → ℕ
status_code draft = 0
status_code validated = 1
status_code approved = 2
status_code active = 3
status_code retired = 4
status_code rejected = 5

abbrev pub has_status : RuleStatus → RuleStatus → Bool
has_status a b = status_code a == status_code b

pub record Jurisdiction : Type 0 where
  pub pk : ℕ
  pub code : String
  pub calculator_key : String
  pub supported : Bool
  pub filing_export_formats : List String

pub record FilingStatus : Type 0 where
  pub pk : ℕ
  pub code : String

pub record TaxBracket : Type 0 where
  pub filing_status : Option ℕ
  pub lower_bound : Decimal
  pub upper_bound : Option Decimal
  pub rate : Decimal
  pub fixed_amount : Decimal

pub record EmployerTax : Type 0 where
  pub rate : Decimal
  pub wage_base : Option Decimal
  pub fixed_amount : Decimal

-- What went wrong in the validation of an imported table.
pub data PayloadError : Type 0 where
  missing_fields bad_effective_from : PayloadError
  bad_bounds bad_numbers : ℕ → PayloadError

-- A rule version with the rows that hang on it.
pub record TaxRuleVersion : Type 0 where
  pub pk : ℕ
  pub jurisdiction : ℕ
  pub version : String
  pub status : RuleStatus
  pub effective_from : ℕ
  pub effective_to : Option ℕ
  pub validation_errors : List PayloadError
  pub approved_by : Option ℕ
  pub approved_at : Option ℕ
  pub activated_at : Option ℕ
  pub filing_statuses : List FilingStatus
  pub brackets : List TaxBracket
  pub employer_taxes : List EmployerTax

pub record OrganizationTaxConfiguration : Type 0 where
  pub organization : ℕ
  pub jurisdiction : ℕ
  pub required : Bool
  pub active : Bool
