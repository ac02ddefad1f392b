-- ===== src/Payroll/Tests/Records.antt =====
-- Saving and deleting rows next to a locked period, and a history from the first run on.
use payroll_management_syste.Prelude.{◌≡◌, refl, List, [], ◌∷◌, ◌++◌}
use payroll_management_syste.Outcome.{ok}
use payroll_management_syste.Payroll.Models.{
  PayrollPeriod, PayrollStore, EmployeePayrollInput, draft, validation, locked,
}
use payroll_management_syste.Payroll.Provenance.{input_snapshot}
use payroll_management_syste.Payroll.Lifecycle.{transition_period}
use payroll_management_syste.Payroll.Processing.{process_payroll}
use payroll_management_syste.Payroll.Processing.Invariant.{IsWellFormed}
use payroll_management_syste.Payroll.Records.{
  PaySchedule, EmployeeKey, save_input, delete_input, save_period,
}
use payroll_management_syste.Payroll.Records.Frozen.{save_input_frozen}
use payroll_management_syste.Payroll.History.{History, start, transitioned, processed}
use payroll_management_syste.Payroll.History.Trail.{
  HasTrails, HasRuns, OnlyGrows, History-HasTrails, History-HasRuns, History-OnlyGrows,
  History-IsWellFormed,
}
use payroll_management_syste.Payroll.Tests.{
  running, admin, context, period_in, salary, store_in, request, run, processed_store,
}

abbrev next_period : PayrollPeriod
next_period = record (period_in draft) { pk = 4; period_start = 41; period_end = 70; pay_date = 75 }

abbrev two_periods : PayrollStore
two_periods = record (store_in locked) { periods = period_in locked ∷ next_period ∷ [] }

abbrev later_salary : EmployeePayrollInput
later_salary = record salary { pk = 13; period = 4 }

abbrev grown : PayrollStore
grown = record two_periods { inputs = two_periods.inputs ++ later_salary ∷ [] }

abbrev staff : List EmployeeKey
staff = record { pk = 5; organization = 1 } ∷ []

abbrev schedules : List PaySchedule
schedules = record { pk = 2; organization = 1 } ∷ []

saves : save_input staff later_salary two_periods ≡ ok grown
unfolding running
saves = refl

save_input_frozen_example :
    (input_snapshot 3 grown.inputs ≡ input_snapshot 3 two_periods.inputs)
    × (grown.periods ≡ two_periods.periods)
    × (grown.runs ≡ two_periods.runs)
save_input_frozen_example =
    save_input_frozen staff later_salary two_periods grown 3 (period_in locked) refl refl
      (λ e. cc, (λ e. cc, tt)) saves

deletes : delete_input later_salary grown ≡ ok two_periods
unfolding running
deletes = refl

abbrev moved_pay_date : PayrollPeriod
moved_pay_date = record next_period { pay_date = 77 }

abbrev dated : PayrollStore
dated = record two_periods { periods = period_in locked ∷ moved_pay_date ∷ [] }

dates : save_period schedules moved_pay_date two_periods ≡ ok dated
unfolding running
dates = refl

abbrev validated_store : PayrollStore
validated_store = (transition_period context 3 validation admin "ok" processed_store).1

first_run :
    process_payroll context (λ _. store_in draft) 1 3 request (store_in draft)
    ≡ (ok run, processed_store)
unfolding running
first_run = refl

-- The first run, and then the transition to validation.
march : History (store_in draft) validated_store
march =
    transitioned context 3 validation admin "ok"
      (transition_period context 3 validation admin "ok" processed_store).0
      (processed context 1 3 request (ok run) start start first_run) refl

History-HasTrails_example : HasTrails (store_in draft) validated_store
History-HasTrails_example = History-HasTrails (store_in draft) validated_store march

History-HasRuns_example : HasRuns validated_store
History-HasRuns_example = History-HasRuns (store_in draft) validated_store march tt

History-OnlyGrows_example : OnlyGrows (store_in draft) validated_store
History-OnlyGrows_example = History-OnlyGrows (store_in draft) validated_store march

History-IsWellFormed_example : IsWellFormed validated_store
History-IsWellFormed_example =
    History-IsWellFormed (store_in draft) validated_store march (tt, tt, tt)
