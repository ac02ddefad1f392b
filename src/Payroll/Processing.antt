-- ===== src/Payroll/Processing.antt =====
-- apps/payroll/services/processing.py: regular runs, once for each idempotency key, and adjustment
-- runs of closed periods.
pub mod Runs
pub mod Closed
pub mod Idempotency
pub mod Invariant
pub mod Adjustments
use payroll_management_syste.Prelude.{
  ℕ, zero, suc, ◌+◌, ◌-◌, ◌*◌, ◌/◌, ◌%◌, ◌^◌, ◌≤◌, ◌<◌, max, min, String, ◌≡◌, refl, sym, ap, subst,
  ◌∙◌, ◌≢◌, ◌↔◌, ◌⊎◌, inl, inr, Bool, true, false, not, ◌&&◌, ◌||◌, Option, none, some,
  some-injective, List, [], ◌∷◌, ◌++◌, map, append-nil, append_assoc, arith, str_eq, str_eq_iff,
  ltb, leb, ◌==◌, if◌then◌else◌, ==_iff, Bool-cases, Option-cases, length, length-append, any, all,
  select, find, update_where, All, All-append, any-append, Elem, find-Elem, Elem-any, find_sound,
  select-append, All-select, All-map, Elem-select, select-Elem, select-All, find-append_new,
  length-update_where,
}
use payroll_management_syste.Outcome.{
  Result, ok, err, validation_error, permission_denied, does_not_exist, integrity_error, or_raise,
  raise_if, raise_unless, ◌>>=◌, ◌>>◌, atomic,
}
use payroll_management_syste.Decimal.{whole}
use payroll_management_syste.Security.{require_approved_jurisdiction}
use payroll_management_syste.Organizations.{User, role_eq, administrator}
use payroll_management_syste.Payroll.Models.{
  PayrollLifecycle, is_protected, locked, paid, corrected, PayrollPeriod, PayrollStore,
  CalculationRun, InputItem, period_by_key, run_by_key, is_run_for, PayrollCorrection,
}
use payroll_management_syste.Payroll.Rules.{calculate, rules_version, Totals, no_metadata, get_or}
use payroll_management_syste.Payroll.Payslips.{create_payslips}
use payroll_management_syste.Payroll.Actors.{Context, role_for}
use payroll_management_syste.Payroll.Provenance.{input_snapshot, tax_provenance}

-- What a caller of a run passes.
pub record RunRequest : Type 0 where
  pub idempotency_key : String
  pub actor : Option ℕ
  pub rules_version : String
  pub jurisdiction_code : Option String

-- `CALCULATORS.get(rules_version)`
unfoldable pub calculator_for : String → Option (List InputItem → Result Totals)
calculator_for version = if str_eq version rules_version then some calculate else none

abbrev pub run_of :
    PayrollStore
    → PayrollPeriod
    → List InputItem
    → RunRequest
    → Option ℕ
    → String × String
    → Totals
    → CalculationRun
run_of s period inputs request adjustment_of provenance totals = record {
  pk = s.next_run;
  organization = period.organization;
  period = period.pk;
  adjustment_of = adjustment_of;
  rules_version = request.rules_version;
  tax_jurisdiction_code = provenance.0;
  tax_rule_version = provenance.1;
  idempotency_key = request.idempotency_key;
  input_snapshot = inputs;
  gross_pay = totals.gross_pay;
  pre_tax_deductions = totals.pre_tax_deductions;
  post_tax_deductions = totals.post_tax_deductions;
  employer_costs = totals.employer_costs;
  net_pay = totals.net_pay;
  created_by = request.actor;
  line_items = totals.lines;
  payslips = [];
}

abbrev pub add_run : CalculationRun → PayrollStore → PayrollStore
add_run run s = record s { runs = s.runs ++ run ∷ []; next_run = s.next_run + 1 }

-- `_create_run`: the key is unique in the organization.
unfoldable pub create_run :
    Context
    → PayrollPeriod
    → List InputItem
    → RunRequest
    → Option ℕ
    → PayrollStore
    → Result (CalculationRun × PayrollStore)
create_run c period inputs request adjustment_of s = do
  require_approved_jurisdiction c.settings period.jurisdiction
  calculator ←
      or_raise (calculator_for request.rules_version)
        (validation_error "unknown payroll rules version")
  provenance ← tax_provenance c period request.jurisdiction_code
  totals ← calculator inputs
  raise_if (any (is_run_for period.organization request.idempotency_key) s.runs) integrity_error
  payslips ← create_payslips totals.lines
  let run = record (run_of s period inputs request adjustment_of provenance totals) {
    payslips = payslips;
  }
  ok (run, add_run run s)

-- `except IntegrityError: return CalculationRun.objects.get(…)`
unfoldable pub or_existing :
    ℕ
    → String
    → PayrollStore
    → Result (CalculationRun × PayrollStore)
    → Result (CalculationRun × PayrollStore)
or_existing organization key s (ok r) = ok r
or_existing organization key s (err integrity_error) = do
  run ← or_raise (run_by_key organization key s.runs) does_not_exist
  ok (run, s)
or_existing organization key s (err e) = err e

-- The transaction of `process_payroll`.
unfoldable pub process_locked :
    Context → ℕ → RunRequest → PayrollStore → Result (CalculationRun × PayrollStore)
process_locked c pk request s = do
  period ← or_raise (period_by_key pk s.periods) does_not_exist
  raise_if (is_protected period.status)
      (validation_error "locked or paid periods cannot be processed")
  or_existing period.organization request.idempotency_key s
      (create_run c period (input_snapshot period.pk s.inputs) request none s)

-- `if existing: return existing`
abbrev pub unless_stored :
    Option CalculationRun
    → PayrollStore
    → Result CalculationRun × PayrollStore
    → Result CalculationRun × PayrollStore
unless_stored (some run) s fresh = (ok run, s)
unless_stored none s fresh = fresh

-- `process_payroll`, for a period given by its organization and key. Other requests may commit
-- between the first look for the key and the transaction: they turn the store into `others s`.
unfoldable pub process_payroll :
    Context
    → (PayrollStore → PayrollStore)
    → ℕ
    → ℕ
    → RunRequest
    → PayrollStore
    → Result CalculationRun × PayrollStore
process_payroll c others organization pk request s =
    unless_stored (run_by_key organization request.idempotency_key s.runs) s
      (atomic (others s) (process_locked c pk request (others s)))

-- `setdefault` and the defaults of the signed inputs of an adjustment.
abbrev pub serialized : InputItem → InputItem
serialized item = record item {
  amount = some (get_or item.amount (whole 0));
  quantity = some (get_or item.quantity (whole 1));
  rate = some (get_or item.rate (whole 0));
  metadata = some (get_or item.metadata no_metadata);
  description = some (get_or item.description "Correction adjustment");
}

-- `order_by("-created_at").first()`: the newest run of the period.
unfoldable pub newest_run : ℕ → List CalculationRun → Option ℕ
newest_run pk [] = none
newest_run pk (r ∷ rs) = elim (newest_run pk rs) [
  | some newer ↦ some newer
  | none ↦ if r.period == pk then some r.pk else none
]

abbrev pub correction_of : PayrollPeriod → CalculationRun → String → User → PayrollCorrection
correction_of period run reason actor = record {
  organization = period.organization;
  original_period = period.pk;
  adjustment_run = run.pk;
  reason = reason;
  requested_by = actor.pk;
}

-- `status in {LOCKED, PAID, CORRECTED}`
abbrev pub is_adjustable : PayrollLifecycle → Bool
is_adjustable locked = true
is_adjustable paid = true
is_adjustable corrected = true
is_adjustable _ = false

-- The transaction of `create_adjustment_run`.
unfoldable pub adjust_locked :
    Context
    → PayrollPeriod
    → List InputItem
    → String
    → User
    → RunRequest
    → PayrollStore
    → Result (CalculationRun × PayrollStore)
adjust_locked c period inputs reason actor request s = do
  (run, s') ← create_run c period (map serialized inputs) request (newest_run period.pk s.runs) s
  ok (run, record s' { corrections = s'.corrections ++ correction_of period run reason actor ∷ [] })

-- The checks of `create_adjustment_run`, in their order.
unfoldable pub check_adjustment : Context → PayrollPeriod → User → Result (Unit {0})
check_adjustment c period actor = do
  raise_unless (is_adjustable period.status)
      (validation_error "adjustments require a locked, paid, or corrected original period")
  role ← role_for c.memberships actor period.organization
  raise_unless (role_eq role administrator)
      (permission_denied "only administrators can create payroll adjustments")

-- What follows checks that raise nothing.
abbrev pub after_checks :
    Result (Unit {0})
    → PayrollStore
    → Result CalculationRun × PayrollStore
    → Result CalculationRun × PayrollStore
after_checks (err e) s rest = (err e, s)
after_checks (ok _) s rest = rest

-- `create_adjustment_run`, on the period as its caller holds it. Its actor is always given.
unfoldable pub create_adjustment_run :
    Context
    → PayrollPeriod
    → List InputItem
    → String
    → User
    → RunRequest
    → PayrollStore
    → Result CalculationRun × PayrollStore
create_adjustment_run c period inputs reason actor request s =
    after_checks (check_adjustment c period actor) s (
      unless_stored (run_by_key period.organization request.idempotency_key s.runs) s (
        atomic s (
          adjust_locked c period inputs reason actor (record request { actor = some actor.pk }) s)))
