-- ===== src/Taxation/Engine.antt =====
-- apps/taxation/services/engine.py: the registry of calculators, the choice of a rule, and the
-- calculations.
pub mod Choice
use payroll_management_syste.Prelude.{
  ℕ, zero, suc, ◌+◌, ◌-◌, ◌*◌, ◌/◌, ◌%◌, ◌^◌, ◌≤◌, ◌<◌, max, min, String, ◌≡◌, refl, sym, ap, subst,
  ◌∙◌, ◌≢◌, ◌↔◌, ◌⊎◌, inl, inr, Bool, true, false, not, ◌&&◌, ◌||◌, Option, none, some, List, [],
  ◌∷◌, ◌++◌, map, arith, str_eq, str_eq_iff, ltb, leb, ◌==◌, if◌then◌else◌, ==_iff, Bool-cases,
  Option-cases, length, length-append, any, all, select, find, update_where, All, All-append,
  any-append, Elem, find-Elem, Elem-any,
}
use payroll_management_syste.Outcome.{
  Result, ok, err, Exception, unsupported_jurisdiction, validation_error, ◌>>=◌, or_raise, ◌>>◌,
  raise_if,
}
use payroll_management_syste.Decimal.{
  Decimal, whole, add, sub, mul, quantize, min_of, max_of, le, is_zero,
}
use payroll_management_syste.Effective.{is_effective, latest}
use payroll_management_syste.Security.{Settings, require_approved_jurisdiction}
use payroll_management_syste.Taxation.Models.{
  Jurisdiction, TaxRuleVersion, TaxBracket, EmployerTax, FilingStatus, has_status, active,
}

pub record TaxCalculationRequest : Type 0 where
  pub jurisdiction_code : String
  pub pay_date : ℕ
  pub taxable_wages : Decimal
  pub year_to_date_wages : Decimal
  pub filing_status : String

-- A line of the explanation.
pub record BracketDetail : Type 0 where
  pub lower_bound : Decimal
  pub taxable : Decimal
  pub rate : Decimal

pub record TaxCalculationResult : Type 0 where
  pub employee_tax : Decimal
  pub employer_tax : Decimal
  pub jurisdiction_code : String
  pub rule_version : String
  pub explanation : List BracketDetail

-- `TaxCalculator.calculate`, with the code of the rule's jurisdiction.
abbrev pub TaxCalculator : Type 0
TaxCalculator = TaxCalculationRequest → String → TaxRuleVersion → Result TaxCalculationResult

-- `TaxEngineRegistry._calculators`
abbrev pub Registry : Type 0
Registry = List (String × TaxCalculator)

-- `self._calculators[key] = calculator`
unfoldable pub register : String → TaxCalculator → Registry → Registry
register key calculator [] = (key, calculator) ∷ []
register key calculator ((k, c) ∷ r) =
    if str_eq k key then (key, calculator) ∷ r else (k, c) ∷ register key calculator r

unfoldable pub calculator_for : String → Registry → Option TaxCalculator
calculator_for key [] = none
calculator_for key ((k, c) ∷ r) = if str_eq k key then some c else calculator_for key r

unfoldable pub resolve : Registry → Jurisdiction → Result TaxCalculator
resolve registry jurisdiction =
    if not jurisdiction.supported || str_eq jurisdiction.calculator_key ""
    then err (unsupported_jurisdiction "not configured for payroll tax calculations")
    else or_raise (calculator_for jurisdiction.calculator_key registry)
        (unsupported_jurisdiction "tax calculator is not registered")

-- The filter of `active_rule_for`, with `models_q_effective`.
abbrev pub is_candidate : ℕ → ℕ → TaxRuleVersion → Bool
is_candidate jurisdiction on_date rule =
    rule.jurisdiction == jurisdiction
    && has_status rule.status active
    && is_effective rule.effective_from rule.effective_to on_date

unfoldable pub active_rule_for : List TaxRuleVersion → Jurisdiction → ℕ → Result TaxRuleVersion
active_rule_for rules jurisdiction on_date =
    or_raise
      (latest (λ r. r.effective_from) (λ r. r.pk)
        (select (is_candidate jurisdiction.pk on_date) rules))
      (unsupported_jurisdiction "no active tax rule exists")

abbrev pub jurisdiction_by_code : List Jurisdiction → String → Option Jurisdiction
jurisdiction_by_code jurisdictions code = find (λ j. str_eq j.code code) jurisdictions

unfoldable pub calculate :
    Settings
    → Registry
    → List Jurisdiction
    → List TaxRuleVersion
    → TaxCalculationRequest
    → Result TaxCalculationResult
calculate settings registry jurisdictions rules request = do
  require_approved_jurisdiction settings request.jurisdiction_code
  jurisdiction ←
      or_raise (jurisdiction_by_code jurisdictions request.jurisdiction_code)
        (unsupported_jurisdiction "unknown tax jurisdiction")
  rule ← active_rule_for rules jurisdiction request.pay_date
  calculator ← resolve registry jurisdiction
  calculator request jurisdiction.code rule

-- The wage base and the limit are optional; the result is rounded to cents.
abbrev capped : Decimal → Option Decimal → Decimal → Decimal
capped value none used = value
capped value (some cap) used = max_of (whole 0) (min_of value (sub cap used))

unfoldable pub calculate_contribution :
    Decimal → Decimal → Decimal → Option Decimal → Decimal → Option Decimal → Result Decimal
calculate_contribution wages year_to_date_wages rate annual_wage_base year_to_date_contribution
      annual_limit =
    let taxable = capped wages annual_wage_base year_to_date_wages in
    quantize 2 (capped (mul taxable rate) annual_limit year_to_date_contribution)

unfoldable pub money : Decimal → Result Decimal
money = quantize 2
