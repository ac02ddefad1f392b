-- ===== src/Payroll/Provenance.antt =====
-- `_input_snapshot` and `_tax_provenance` of apps/payroll/services/processing.py.
use payroll_management_syste.Prelude.{
  ℕ, String, Bool, ◌&&◌, ◌||◌, Option, none, some, List, [], ◌∷◌, map, str_eq, ltb, leb, ◌==◌,
  if◌then◌else◌, any, select, find,
}
use payroll_management_syste.Outcome.{
  Result, ok, err, validation_error, does_not_exist, or_raise, raise_unless, ◌>>=◌, ◌>>◌,
}
use payroll_management_syste.Taxation.Models.{Jurisdiction, OrganizationTaxConfiguration}
use payroll_management_syste.Taxation.Engine.{active_rule_for, resolve, jurisdiction_by_code}
use payroll_management_syste.Payroll.Models.{PayrollPeriod, EmployeePayrollInput, InputItem, listed}
use payroll_management_syste.Payroll.Actors.{Context}

-- `order_by("employee_id", "id")`
insert_input : EmployeePayrollInput → List EmployeePayrollInput → List EmployeePayrollInput
insert_input x [] = x ∷ []
insert_input x (y ∷ ys) =
    if ltb x.employee y.employee || (x.employee == y.employee && leb x.pk y.pk)
    then x ∷ y ∷ ys
    else y ∷ insert_input x ys

unfoldable pub order_inputs : List EmployeePayrollInput → List EmployeePayrollInput
unfolding insert_input
order_inputs [] = []
order_inputs (x ∷ xs) = insert_input x (order_inputs xs)

abbrev pub snapshot_of : EmployeePayrollInput → InputItem
snapshot_of row = record {
  id = some row.pk;
  source_key = some row.source_key;
  employee_id = some row.employee;
  input_type = some (listed row.input_type);
  description = some row.description;
  amount = some row.amount;
  quantity = some row.quantity;
  rate = some row.rate;
  metadata = some row.metadata;
}

unfoldable pub input_snapshot : ℕ → List EmployeePayrollInput → List InputItem
input_snapshot period inputs =
    map snapshot_of (order_inputs (select (λ row. row.period == period) inputs))

abbrev pub is_active_for : ℕ → OrganizationTaxConfiguration → Bool
is_active_for organization cfg = cfg.organization == organization && cfg.active

-- The jurisdiction named by the caller, if it is configured.
unfoldable pub configured_jurisdiction :
    Context → List OrganizationTaxConfiguration → String → Result Jurisdiction
configured_jurisdiction c configurations code = do
  jurisdiction ←
      or_raise (jurisdiction_by_code c.jurisdictions code)
        (validation_error "unknown tax jurisdiction")
  raise_unless (any (λ cfg. cfg.jurisdiction == jurisdiction.pk) configurations)
      (validation_error "jurisdiction is not configured for this organization")
  ok jurisdiction

-- The only required jurisdiction; `none` if there is no required one.
unfoldable pub required_jurisdiction :
    Context → List OrganizationTaxConfiguration → Result (Option Jurisdiction)
required_jurisdiction c [] = ok none
required_jurisdiction c (cfg ∷ []) = do
  jurisdiction ← or_raise (find (λ j. j.pk == cfg.jurisdiction) c.jurisdictions) does_not_exist
  ok (some jurisdiction)
required_jurisdiction c (_ ∷ _ ∷ _) = err (
    validation_error
      "multiple required tax jurisdictions are configured; specify jurisdiction_code")

abbrev pub not_applicable : String
not_applicable = "not_applicable"

unfoldable pub rule_of : Context → PayrollPeriod → Jurisdiction → Result (String × String)
rule_of c period jurisdiction = do
  rule ← active_rule_for c.rules jurisdiction period.pay_date
  _ ← resolve c.registry jurisdiction
  ok (jurisdiction.code, rule.version)

-- `if jurisdiction_code:` is false for `None` and for the empty text.
abbrev pub given : Option String → Option String
given none = none
given (some code) = if str_eq code "" then none else some code

unfoldable pub tax_provenance : Context → PayrollPeriod → Option String → Result (String × String)
tax_provenance c period jurisdiction_code =
    let configurations = select (is_active_for period.organization) c.configurations in
    elim (given jurisdiction_code) [
      | some code ↦ do
        jurisdiction ← configured_jurisdiction c configurations code
        rule_of c period jurisdiction
      | none ↦ do
        required ← required_jurisdiction c (select (λ cfg. cfg.required) configurations)
        elim required [
          | none ↦ ok (not_applicable, not_applicable)
          | some jurisdiction ↦ rule_of c period jurisdiction
        ]
    ]
