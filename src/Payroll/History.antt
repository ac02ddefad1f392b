-- ===== src/Payroll/History.antt =====
-- The payroll services as steps on the stored records: what can happen to a store, in any order.
pub mod Stages
pub mod Steps
pub mod Saves
pub mod Led
pub mod Trail
use payroll_management_syste.Prelude.{
  ℕ, zero, suc, ◌+◌, ◌-◌, ◌*◌, ◌/◌, ◌%◌, ◌^◌, ◌≤◌, ◌<◌, max, min, String, ◌≡◌, refl, sym, ap, subst,
  ◌∙◌, ◌≢◌, ◌↔◌, ◌⊎◌, inl, inr, Bool, true, false, not, ◌&&◌, ◌||◌, Option, none, some,
  some-injective, List, [], ◌∷◌, ◌++◌, map, append-nil, append_assoc, arith, str_eq, str_eq_iff,
  ltb, leb, ◌==◌, if◌then◌else◌, ==_iff, Bool-cases, Option-cases, length, length-append, any, all,
  select, find, update_where, All, All-append, any-append, Elem, find-Elem, Elem-any, find_sound,
  select-append, All-select, All-map, Elem-select, select-Elem, select-All, find-append_new,
  length-update_where,
}
use payroll_management_syste.Outcome.{Result, ok}
use payroll_management_syste.Organizations.{User}
use payroll_management_syste.Payroll.Models.{
  PayrollPeriod, PayrollStore, PayrollLifecycle, CalculationRun, EmployeePayrollInput, InputItem,
  period_by_key, lifecycle_code, draft,
}
use payroll_management_syste.Payroll.Actors.{Context}
use payroll_management_syste.Payroll.Lifecycle.{transition_period}
use payroll_management_syste.Payroll.Processing.{RunRequest, process_payroll, create_adjustment_run}
use payroll_management_syste.Payroll.Records.{
  PaySchedule, EmployeeKey, save_period, save_input, delete_input,
}

-- The stores that calls of the services reach, whether they return or raise. A period can be saved
-- with any status when it is new. While `process_payroll` runs, any other history may happen.
pub data History : PayrollStore → PayrollStore → Type 0 where
  start : {s : PayrollStore} → History s s
  saved_period :
      {s a b : PayrollStore} (schedules : List PaySchedule) (row : PayrollPeriod)
      → History s a
      → save_period schedules row a ≡ ok b
      → History s b
  saved_input :
      {s a b : PayrollStore} (employees : List EmployeeKey) (row : EmployeePayrollInput)
      → History s a
      → save_input employees row a ≡ ok b
      → History s b
  deleted_input :
      {s a b : PayrollStore} (row : EmployeePayrollInput)
      → History s a
      → delete_input row a ≡ ok b
      → History s b
  transitioned :
      {s a b : PayrollStore} (c : Context) (pk : ℕ) (to_status : PayrollLifecycle) (actor : User)
      (explanation : String) (r : Result PayrollPeriod)
      → History s a
      → transition_period c pk to_status actor explanation a ≡ (r, b)
      → History s b
  processed :
      {s a between b : PayrollStore} (c : Context) (organization pk : ℕ) (request : RunRequest)
      (r : Result CalculationRun)
      → History s a
      → History a between
      → process_payroll c (λ _. between) organization pk request a ≡ (r, b)
      → History s b
  adjusted :
      {s a b : PayrollStore} (c : Context) (period : PayrollPeriod) (inputs : List InputItem)
      (reason : String) (actor : User) (request : RunRequest) (r : Result CalculationRun)
      → History s a
      → create_adjustment_run c period inputs reason actor request a ≡ (r, b)
      → History s b

-- How far the period with the key is in its lifecycle. A period that is not stored counts as one
-- that has not begun.
abbrev pub progress : Option PayrollPeriod → ℕ
progress none = 0
progress (some p) = lifecycle_code p.status

abbrev pub level : ℕ → PayrollStore → ℕ
level pk s = progress (period_by_key pk s.periods)
