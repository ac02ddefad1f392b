-- ===== src/Payroll/Tests.antt =====
-- A small payroll on which the theorems about apps/payroll are tried: one organization, one
-- administrator, one period and one salary.
mod Calculation
use payroll_management_syste.Prelude.Int.{pos, negsuc}
use payroll_management_syste.Prelude.{
  ℕ, zero, suc, ◌+◌, ◌-◌, ◌*◌, ◌/◌, ◌%◌, ◌^◌, ◌≤◌, ◌<◌, max, min, String, ◌≡◌, refl, sym, ap, subst,
  ◌∙◌, ◌≢◌, ◌↔◌, ◌⊎◌, inl, inr, Bool, true, false, not, ◌&&◌, ◌||◌, Option, none, some,
  some-injective, List, [], ◌∷◌, ◌++◌, map, append-nil, append_assoc, arith, str_eq, str_eq_iff,
  ltb, leb, ◌==◌, if◌then◌else◌, ==_iff, Bool-cases, Option-cases, length, length-append, any, all,
  select, find, update_where, All, All-append, any-append, Elem, find-Elem, Elem-any, find_sound,
  select-append, All-select, All-map, Elem-select, select-Elem, select-All, find-append_new,
  length-update_where,
}
mod Services
mod Records
use payroll_management_syste.Outcome.{Result, ok}
use payroll_management_syste.Decimal.{Decimal, whole, cents, decimal, computing}
use payroll_management_syste.Organizations.{User, OrganizationMembership, administrator}
use payroll_management_syste.Security.{Settings, require_approved_jurisdiction}
use payroll_management_syste.Payroll.Models.{
  PayrollPeriod, PayrollStore, PayrollLifecycle, CalculationRun, EmployeePayrollInput, InputItem,
  LineItem, LineItemCategory, InputType, Payslip, Metadata, listed, draft, locked,
}
use payroll_management_syste.Payroll.Actors.{Context, role_for}
use payroll_management_syste.Payroll.Rules.{
  money, prorated, raw_amount, signed, described, calculate_input, calculate_lines, sum_amounts,
  totals_of, calculate, no_metadata,
}
use payroll_management_syste.Payroll.Payslips.{
  add_line, group_from, payslip_of, payslips_of, create_payslips,
}
use payroll_management_syste.Payroll.Provenance.{
  order_inputs, input_snapshot, required_jurisdiction, tax_provenance, snapshot_of, not_applicable,
}
use payroll_management_syste.Payroll.Lifecycle.{
  permitted_roles, may_transition, record_transition, transition_locked, transition_period,
}
use payroll_management_syste.Payroll.Processing.{
  RunRequest, calculator_for, create_run, or_existing, process_locked, process_payroll, newest_run,
  adjust_locked, check_adjustment, create_adjustment_run,
}
use payroll_management_syste.Payroll.Records.{
  PaySchedule, EmployeeKey, clean_stored, clean_period, save_period, clean_input, save_input,
  delete_input,
}

-- All that a payroll unfolds.
unfoldable running : Unit {0}
unfolding computing money prorated raw_amount signed described calculate_input calculate_lines
    sum_amounts totals_of calculate add_line group_from payslip_of payslips_of create_payslips
    order_inputs input_snapshot required_jurisdiction tax_provenance permitted_roles may_transition
    record_transition transition_locked transition_period calculator_for create_run or_existing
    process_locked process_payroll newest_run adjust_locked check_adjustment create_adjustment_run
    role_for require_approved_jurisdiction clean_stored clean_period save_period clean_input
    save_input delete_input
running = tt

abbrev admin : User
admin = record { pk = 7; is_authenticated = true; is_superuser = false }

abbrev context : Context
context = record {
  settings = record { is_production = false; approved_jurisdictions = [] };
  memberships = record { user = 7; organization = 1; role = administrator; is_active = true } ∷ [];
  jurisdictions = [];
  rules = [];
  configurations = [];
  registry = [];
  now = 90;
}

abbrev period_in : PayrollLifecycle → PayrollPeriod
period_in status = record {
  pk = 3;
  organization = 1;
  jurisdiction = "US";
  schedule = 2;
  period_start = 10;
  period_end = 40;
  pay_date = 45;
  status = status;
  locked_at = none;
  paid_at = none;
  archived_at = none;
}

abbrev salary : EmployeePayrollInput
salary = record {
  pk = 11;
  organization = 1;
  period = 3;
  employee = 5;
  input_type = InputType.base_salary;
  description = "Salary";
  amount = whole 1000;
  quantity = whole 1;
  rate = whole 0;
  source_key = "salary";
  metadata = no_metadata;
}

abbrev tax : EmployeePayrollInput
tax = record salary {
  pk = 12;
  input_type = InputType.pre_tax_deduction;
  description = "Pension";
  amount = decimal (pos 50125) 3;
  source_key = "pension";
}

abbrev store_in : PayrollLifecycle → PayrollStore
store_in status = record {
  periods = period_in status ∷ [];
  inputs = tax ∷ salary ∷ [];
  runs = [];
  approvals = [];
  corrections = [];
  next_run = 1;
}

abbrev items : List InputItem
items = snapshot_of salary ∷ snapshot_of tax ∷ []

abbrev salary_line : LineItem
salary_line = record {
  employee_id = 5;
  input_type = listed InputType.base_salary;
  category = LineItemCategory.earning;
  description = "Salary";
  amount = cents (pos 100000);
  formula = "amount * worked_days / period_days";
  unrounded_result = whole 1000;
  source_snapshot = snapshot_of salary;
}

abbrev pension_line : LineItem
pension_line = record {
  employee_id = 5;
  input_type = listed InputType.pre_tax_deduction;
  category = LineItemCategory.pre_tax_deduction;
  description = "Pension";
  amount = cents (negsuc 5012);
  formula = "amount";
  unrounded_result = decimal (pos 50125) 3;
  source_snapshot = snapshot_of tax;
}

abbrev lines : List LineItem
lines = salary_line ∷ pension_line ∷ []

abbrev request : RunRequest
request = record {
  idempotency_key = "march";
  actor = some 7;
  rules_version = "v1";
  jurisdiction_code = none;
}

abbrev run_with : String → Option ℕ → CalculationRun
run_with key adjustment_of = record {
  pk = 1;
  organization = 1;
  period = 3;
  adjustment_of = adjustment_of;
  rules_version = "v1";
  tax_jurisdiction_code = not_applicable;
  tax_rule_version = not_applicable;
  idempotency_key = key;
  input_snapshot = items;
  gross_pay = cents (pos 100000);
  pre_tax_deductions = cents (pos 5013);
  post_tax_deductions = cents (pos 0);
  employer_costs = cents (pos 0);
  net_pay = cents (pos 94987);
  created_by = some 7;
  line_items = lines;
  payslips =
      record {
        employee = 5;
        gross_pay = cents (pos 100000);
        net_pay = cents (pos 94987);
        lines = lines;
      }
      ∷ [];
}

abbrev run : CalculationRun
run = run_with "march" none

abbrev processed_store : PayrollStore
processed_store = record (store_in draft) { runs = run ∷ []; next_run = 2 }

abbrev alone : PayrollStore → PayrollStore
alone s = s

processes : process_payroll context alone 1 3 request (store_in draft) ≡ (ok run, processed_store)
unfolding running
processes = refl
