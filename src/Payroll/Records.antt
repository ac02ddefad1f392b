-- ===== src/Payroll/Records.antt =====
-- The guards of `PayrollPeriod` and `EmployeePayrollInput` in apps/payroll/models.py: what their
-- `full_clean`, `save` and `delete` let through.
pub mod Frozen
pub mod Periods
use payroll_management_syste.Prelude.{
  ℕ, zero, suc, ◌+◌, ◌-◌, ◌*◌, ◌/◌, ◌%◌, ◌^◌, ◌≤◌, ◌<◌, max, min, String, ◌≡◌, refl, sym, ap, subst,
  ◌∙◌, ◌≢◌, ◌↔◌, ◌⊎◌, inl, inr, Bool, true, false, not, ◌&&◌, ◌||◌, Option, none, some,
  some-injective, List, [], ◌∷◌, ◌++◌, map, append-nil, append_assoc, arith, str_eq, str_eq_iff,
  ltb, leb, ◌==◌, if◌then◌else◌, ==_iff, Bool-cases, Option-cases, length, length-append, any, all,
  select, find, update_where, All, All-append, any-append, Elem, find-Elem, Elem-any, find_sound,
  select-append, All-select, All-map, Elem-select, select-Elem, select-All, find-append_new,
  length-update_where,
}
use payroll_management_syste.Outcome.{
  Result, ok, err, validation_error, does_not_exist, or_raise, raise_if, raise_unless, ◌>>=◌, ◌>>◌,
  atomic,
}
use payroll_management_syste.Decimal.{lt, whole}
use payroll_management_syste.Payroll.Models.{
  PayrollPeriod, PayrollStore, EmployeePayrollInput, period_by_key, is_protected, lifecycle_code,
}

-- `PaySchedule`, as far as a period reads it.
pub record PaySchedule : Type 0 where
  pub pk : ℕ
  pub organization : ℕ

-- `Employee`, as far as an input reads it.
pub record EmployeeKey : Type 0 where
  pub pk : ℕ
  pub organization : ℕ

-- `any(getattr(previous, field) != getattr(self, field) for field in protected_fields)`
abbrev pub differs : PayrollPeriod → PayrollPeriod → Bool
differs previous period =
    not (previous.organization == period.organization)
    || not (previous.schedule == period.schedule)
    || not (previous.period_start == period.period_start)
    || not (previous.period_end == period.period_end)
    || not (previous.pay_date == period.pay_date)

-- What `clean` asks of a row that is stored already.
unfoldable pub clean_stored : PayrollPeriod → Option PayrollPeriod → Result (Unit {0})
clean_stored period none = ok tt
clean_stored period (some previous) = do
  raise_unless (lifecycle_code previous.status == lifecycle_code period.status)
      (validation_error "use the payroll lifecycle service for status transitions")
  raise_if (is_protected previous.status && differs previous period)
      (validation_error "locked and paid payroll periods cannot be modified")

-- "unique_payroll_period"
abbrev pub is_same_period : PayrollPeriod → PayrollPeriod → Bool
is_same_period period p =
    not (p.pk == period.pk)
    && p.schedule == period.schedule
    && p.period_start == period.period_start
    && p.period_end == period.period_end

unfoldable pub clean_period :
    List PaySchedule → List PayrollPeriod → PayrollPeriod → Result (Unit {0})
clean_period schedules periods period = do
  schedule ←
      or_raise (find (λ x. x.pk == period.schedule) schedules)
        (validation_error "the schedule does not exist")
  raise_unless (schedule.organization == period.organization)
      (validation_error "schedule must belong to the payroll period organization")
  raise_if (ltb period.period_end period.period_start)
      (validation_error "period end cannot precede period start")
  clean_stored period (period_by_key period.pk periods)
  raise_if (any (is_same_period period) periods) (validation_error "payroll period already exists")

-- An update of the row with the key, or a new row.
abbrev pub put_period : PayrollPeriod → List PayrollPeriod → List PayrollPeriod
put_period period periods =
    if any (λ p. p.pk == period.pk) periods
    then update_where (λ p. p.pk == period.pk) (λ _. period) periods
    else periods ++ period ∷ []

-- `PayrollPeriod.save`
unfoldable pub save_period : List PaySchedule → PayrollPeriod → PayrollStore → Result PayrollStore
save_period schedules period s = do
  clean_period schedules s.periods period
  ok (record s { periods = put_period period s.periods })

-- "unique_payroll_input_source"
abbrev pub is_same_input : EmployeePayrollInput → EmployeePayrollInput → Bool
is_same_input row r =
    not (r.pk == row.pk)
    && r.period == row.period
    && r.employee == row.employee
    && str_eq r.source_key row.source_key

-- `self.amount < 0 or self.quantity < 0 or self.rate < 0`
abbrev pub is_negative_input : EmployeePayrollInput → Bool
is_negative_input row =
    lt row.amount (whole 0) || lt row.quantity (whole 0) || lt row.rate (whole 0)

unfoldable pub clean_input :
    List EmployeeKey → PayrollStore → EmployeePayrollInput → Result (Unit {0})
clean_input employees s row = do
  period ←
      or_raise (period_by_key row.period s.periods) (validation_error "the period does not exist")
  raise_unless (period.organization == row.organization)
      (validation_error "period must belong to the input organization")
  employee ←
      or_raise (find (λ x. x.pk == row.employee) employees)
        (validation_error "the employee does not exist")
  raise_unless (employee.organization == row.organization)
      (validation_error "employee must belong to the input organization")
  raise_if (is_negative_input row) (validation_error "regular payroll inputs cannot be negative")
  raise_if (is_protected period.status)
      (validation_error "inputs for locked or paid payroll periods cannot be modified")
  raise_if (any (is_same_input row) s.inputs) (validation_error "payroll input already exists")

abbrev pub put_input : EmployeePayrollInput → List EmployeePayrollInput → List EmployeePayrollInput
put_input row inputs =
    if any (λ r. r.pk == row.pk) inputs
    then update_where (λ r. r.pk == row.pk) (λ _. row) inputs
    else inputs ++ row ∷ []

-- `EmployeePayrollInput.save`
unfoldable pub save_input :
    List EmployeeKey → EmployeePayrollInput → PayrollStore → Result PayrollStore
save_input employees row s = do
  clean_input employees s row
  ok (record s { inputs = put_input row s.inputs })

-- `EmployeePayrollInput.delete`
unfoldable pub delete_input : EmployeePayrollInput → PayrollStore → Result PayrollStore
delete_input row s = do
  period ← or_raise (period_by_key row.period s.periods) does_not_exist
  raise_if (is_protected period.status)
      (validation_error "inputs for locked or paid payroll periods cannot be deleted")
  ok (record s { inputs = select (λ r. not (r.pk == row.pk)) s.inputs })
