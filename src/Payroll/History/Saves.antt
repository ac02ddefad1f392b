-- ===== src/Payroll/History/Saves.antt =====
-- What saving and deleting rows does to the approvals, the runs and the progress of every period.
use payroll_management_syste.Prelude.{
  ℕ, ◌≡◌, refl, sym, ap, ◌∙◌, ◌⊎◌, inl, inr, false, some, List, ◌==◌, ==_iff, Bool-cases,
  Option-cases,
}
use payroll_management_syste.Outcome.{
  ok, Ensures-elim, Ensures-bind, or_raise, raise_if, does_not_exist, validation_error,
}
use payroll_management_syste.Payroll.Models.{
  PayrollPeriod, PayrollStore, EmployeePayrollInput, period_by_key, is_protected,
}
use payroll_management_syste.Payroll.Records.{
  PaySchedule, EmployeeKey, save_period, save_input, delete_input, clean_input,
}
use payroll_management_syste.Payroll.Records.Periods.{
  save_period_keeps, save_period-written, find-kept,
}
use payroll_management_syste.Payroll.History.{progress, level}
use payroll_management_syste.Payroll.History.Steps.{
  IsStep, KeepsPeriods, none-some, same-KeepsRuns, same-KeepsPeriods,
}

-- The other periods stay where they are, and so does a stored one with the row's key.
save_period-level :
    (schedules : List PaySchedule) (row : PayrollPeriod) (s t : PayrollStore) (pk : ℕ)
    → save_period schedules row s ≡ ok t
    → ((row.pk == pk) ≡ false) ⊎ ((p : PayrollPeriod) × (period_by_key pk s.periods ≡ some p))
    → level pk t ≡ level pk s
save_period-level schedules row s t pk e (inl away) =
    ap (λ x. level pk x) (save_period-written schedules row s t e)
    ∙ ap progress (find-kept pk row s.periods away)
save_period-level schedules row s t pk e (inr (p, found)) =
    let (p', stored, (same, _)) = save_period_keeps schedules row s t pk p found e in
    ap progress stored ∙ same ∙ sym (ap progress found)

save_period-KeepsPeriods :
    (schedules : List PaySchedule) (row : PayrollPeriod) (s t : PayrollStore)
    → save_period schedules row s ≡ ok t
    → KeepsPeriods s t
save_period-KeepsPeriods schedules row s t e pk missing =
    elim (Option-cases (period_by_key pk s.periods)) [
      | inl absent ↦ absent
      | inr (p, found) ↦
          let (p', stored, _) = save_period_keeps schedules row s t pk p found e in
          absurd (none-some (sym missing ∙ stored))
    ]

pub save_period-IsStep :
    (schedules : List PaySchedule) (row : PayrollPeriod) (s t : PayrollStore)
    → save_period schedules row s ≡ ok t
    → IsStep s t
save_period-IsStep schedules row s t e =
    let written = save_period-written schedules row s t e in
    let approvals = ap (λ (x : PayrollStore). x.approvals) written in
    (
      same-KeepsRuns s t (ap (λ (x : PayrollStore). x.runs) written)
          (ap (λ (x : PayrollStore). x.next_run) written),
      save_period-KeepsPeriods schedules row s t e,
      elim (Option-cases (period_by_key row.pk s.periods)) [
        | inl missing ↦ inr (
            inr (
              approvals,
              row.pk,
              missing,
              λ pk away. save_period-level schedules row s t pk e (inl away),
            ))
        | inr (p, found) ↦ inl (
          approvals,
          λ pk. elim (Bool-cases (row.pk == pk)) [
            | inr away ↦ save_period-level schedules row s t pk e (inl away)
            | inl here ↦
                let same = (==_iff row.pk pk).0 here in
                save_period-level schedules row s t pk e
                  (inr (p, ap (λ k. period_by_key k s.periods) (sym same) ∙ found))
          ],
        )
      ],
    )

-- A change of the inputs alone.
abbrev IsInputStep : PayrollStore → PayrollStore → Type 0
IsInputStep s t =
    (t.periods ≡ s.periods)
    × (t.approvals ≡ s.approvals)
    × (t.runs ≡ s.runs)
    × (t.next_run ≡ s.next_run)

pub IsInputStep-IsStep : (s t : PayrollStore) → IsInputStep s t → IsStep s t
IsInputStep-IsStep s t (periods, approvals, runs, next) = (
  same-KeepsRuns s t runs next,
  same-KeepsPeriods s t periods,
  inl (approvals, λ pk. ap (λ ps. progress (period_by_key pk ps)) periods),
)

pub save_input-IsInputStep :
    (employees : List EmployeeKey) (row : EmployeePayrollInput) (s t : PayrollStore)
    → save_input employees row s ≡ ok t
    → IsInputStep s t
unfolding save_input
save_input-IsInputStep employees row s t e =
    Ensures-elim (IsInputStep s) (save_input employees row s) t
      (Ensures-bind (IsInputStep s) (clean_input employees s row) _ λ _ _. (refl, refl, refl, refl))
      e

pub delete_input-IsInputStep :
    (row : EmployeePayrollInput) (s t : PayrollStore) → delete_input row s ≡ ok t → IsInputStep s t
unfolding delete_input
delete_input-IsInputStep row s t e =
    Ensures-elim (IsInputStep s) (delete_input row s) t
      (Ensures-bind (IsInputStep s) (or_raise (period_by_key row.period s.periods) does_not_exist) _
        λ period _.
          Ensures-bind (IsInputStep s)
            (raise_if (is_protected period.status)
              (validation_error "inputs for locked or paid payroll periods cannot be deleted"))
            _ λ _ _. (refl, refl, refl, refl))
      e
