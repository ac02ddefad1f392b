-- ===== src/Payroll/Records/Frozen.antt =====
-- A period that is locked, paid, corrected or archived keeps its inputs and its own dates.
use payroll_management_syste.Prelude.{
  ℕ, ◌≡◌, refl, sym, ap, ◌∙◌, inl, inr, Bool, true, false, not, some, some-injective, List, [], ◌∷◌,
  map, append-nil, ◌==◌, ==_iff, Bool-cases, any, select, find, update_where, All, select-append,
}
use payroll_management_syste.Outcome.{
  ok, validation_error, does_not_exist, or_raise, or_raise-ok, raise_if, raise_if-ok, raise_unless,
  Ensures, Ensures-bind, Ensures-elim, Ensures-const,
}
use payroll_management_syste.Payroll.Models.{
  PayrollPeriod, PayrollStore, EmployeePayrollInput, period_by_key, is_protected,
}
use payroll_management_syste.Payroll.Provenance.{input_snapshot, order_inputs, snapshot_of}
use payroll_management_syste.Payroll.Records.{
  EmployeeKey, clean_input, save_input, delete_input, put_input, is_negative_input, is_same_input,
}

-- The rows with the key are rows of the period that the given row names.
abbrev pub StaysInPeriod : EmployeePayrollInput → List EmployeePayrollInput → Type 0
StaysInPeriod row = All (λ r. (r.pk == row.pk) ≡ true → r.period ≡ row.period)

abbrev pub of_period : ℕ → EmployeePayrollInput → Bool
of_period pk row = row.period == pk

elsewhere :
    (pk : ℕ) (row r : EmployeePayrollInput)
    → of_period pk row ≡ false
    → r.period ≡ row.period
    → of_period pk r ≡ false
elsewhere pk row r apart same = ap (λ k. k == pk) same ∙ apart

select-updated :
    (pk : ℕ) (row : EmployeePayrollInput) (rows : List EmployeePayrollInput)
    → of_period pk row ≡ false
    → StaysInPeriod row rows
    → select (of_period pk) (update_where (λ r. r.pk == row.pk) (λ _. row) rows)
      ≡ select (of_period pk) rows
select-updated pk row [] apart stay = refl
select-updated pk row (r ∷ rows) apart (here, there) = elim (Bool-cases (r.pk == row.pk)) [
  | inl t ↦
      rw (t, apart, elsewhere pk row r apart (here t)) (select-updated pk row rows apart there)
  | inr f ↦ rw (f, select-updated pk row rows apart there) refl
]

select-put :
    (pk : ℕ) (row : EmployeePayrollInput) (rows : List EmployeePayrollInput)
    → of_period pk row ≡ false
    → StaysInPeriod row rows
    → select (of_period pk) (put_input row rows) ≡ select (of_period pk) rows
select-put pk row rows apart stay = elim (Bool-cases (any (λ r. r.pk == row.pk) rows)) [
  | inl t ↦ rw t (select-updated pk row rows apart stay)
  | inr f ↦ rw f (
      select-append (of_period pk) rows (row ∷ [])
      ∙ rw apart (append-nil (select (of_period pk) rows)))
]

select-deleted :
    (pk : ℕ) (row : EmployeePayrollInput) (rows : List EmployeePayrollInput)
    → of_period pk row ≡ false
    → StaysInPeriod row rows
    → select (of_period pk) (select (λ r. not (r.pk == row.pk)) rows) ≡ select (of_period pk) rows
select-deleted pk row [] apart stay = refl
select-deleted pk row (r ∷ rows) apart (here, there) = elim (Bool-cases (r.pk == row.pk)) [
  | inl t ↦ rw (t, elsewhere pk row r apart (here t)) (select-deleted pk row rows apart there)
  | inr f ↦ rw (f, select-deleted pk row rows apart there) refl
]

-- The row's period is stored and takes changes.
abbrev pub IsOpenFor : EmployeePayrollInput → PayrollStore → Type 0
IsOpenFor row s =
    (period : PayrollPeriod) × (period_by_key row.period s.periods ≡ some period)
    × (is_protected period.status ≡ false)

apart_from_protected :
    (pk : ℕ) (row : EmployeePayrollInput) (s : PayrollStore) (period : PayrollPeriod)
    → period_by_key pk s.periods ≡ some period
    → is_protected period.status ≡ true
    → IsOpenFor row s
    → of_period pk row ≡ false
apart_from_protected pk row s period found shut (other, known, open_period) =
    elim (Bool-cases (of_period pk row)) [
      | inr f ↦ f
      | inl t ↦
          let same = some-injective _ _ (
            sym known ∙ ap (λ k. period_by_key k s.periods) ((==_iff row.period pk).0 t) ∙ found) in
          let clash : is_protected other.status ≡ true =
            ap (λ (p : PayrollPeriod). is_protected p.status) same ∙ shut in
          cc
    ]

clean_input-Ensures :
    (employees : List EmployeeKey) (s : PayrollStore) (row : EmployeePayrollInput)
    → Ensures (λ _. IsOpenFor row s) (clean_input employees s row)
unfolding clean_input
clean_input-Ensures employees s row =
    let P = λ (_ : Unit {0}). IsOpenFor row s in
    Ensures-bind P
      (or_raise (period_by_key row.period s.periods) (validation_error "the period does not exist"))
      _
      λ period found.
        Ensures-bind P
          (raise_unless (period.organization == row.organization)
            (validation_error "period must belong to the input organization"))
          _
          λ _ _.
            Ensures-bind P
              (or_raise (find (λ x. x.pk == row.employee) employees)
                (validation_error "the employee does not exist"))
              _
              λ employee _.
                Ensures-bind P
                  (raise_unless (employee.organization == row.organization)
                    (validation_error "employee must belong to the input organization"))
                  _
                  λ _ _.
                    Ensures-bind P
                      (raise_if (is_negative_input row)
                        (validation_error "regular payroll inputs cannot be negative"))
                      _
                      λ _ _.
                        Ensures-bind P
                          (raise_if (is_protected period.status) (
                            validation_error
                              "inputs for locked or paid payroll periods cannot be modified"))
                          _
                          λ _ open_period.
                            Ensures-const P
                              (raise_if (any (is_same_input row) s.inputs)
                                (validation_error "payroll input already exists"))
                              (λ _. (period, or_raise-ok _ _ found, raise_if-ok _ _ open_period))

-- Saving an input leaves the input snapshot of every protected period as it was, if the saved row
-- stays in its period.
pub save_input_frozen :
    (employees : List EmployeeKey) (row : EmployeePayrollInput) (s s' : PayrollStore) (pk : ℕ)
    (period : PayrollPeriod)
    → period_by_key pk s.periods ≡ some period
    → is_protected period.status ≡ true
    → StaysInPeriod row s.inputs
    → save_input employees row s ≡ ok s'
    → (input_snapshot pk s'.inputs ≡ input_snapshot pk s.inputs)
      × (s'.periods ≡ s.periods)
      × (s'.runs ≡ s.runs)
unfolding input_snapshot save_input
save_input_frozen employees row s s' pk period found shut stay e =
    let P = λ (t : PayrollStore).
      (input_snapshot pk t.inputs ≡ input_snapshot pk s.inputs)
      × (t.periods ≡ s.periods)
      × (t.runs ≡ s.runs) in
    Ensures-elim P (save_input employees row s) s'
      (Ensures-bind P (clean_input employees s row) _ λ u cleaned.
        let apart = apart_from_protected pk row s period found shut (
          Ensures-elim (λ _. IsOpenFor row s) (clean_input employees s row) u
            (clean_input-Ensures employees s row) cleaned) in
        (
          ap (λ rows. map snapshot_of (order_inputs rows)) (select-put pk row s.inputs apart stay),
          refl,
          refl,
        ))
      e

-- Deleting an input leaves the input snapshot of every protected period as it was, if the row is
-- stored with the period that it names.
delete_input_frozen :
    (row : EmployeePayrollInput) (s s' : PayrollStore) (pk : ℕ) (period : PayrollPeriod)
    → period_by_key pk s.periods ≡ some period
    → is_protected period.status ≡ true
    → StaysInPeriod row s.inputs
    → delete_input row s ≡ ok s'
    → (input_snapshot pk s'.inputs ≡ input_snapshot pk s.inputs)
      × (s'.periods ≡ s.periods)
      × (s'.runs ≡ s.runs)
unfolding input_snapshot delete_input
delete_input_frozen row s s' pk period found shut stay e =
    let P = λ (t : PayrollStore).
      (input_snapshot pk t.inputs ≡ input_snapshot pk s.inputs)
      × (t.periods ≡ s.periods)
      × (t.runs ≡ s.runs) in
    Ensures-elim P (delete_input row s) s'
      (Ensures-bind P (or_raise (period_by_key row.period s.periods) does_not_exist) _ λ own known.
        Ensures-bind P
          (raise_if (is_protected own.status)
            (validation_error "inputs for locked or paid payroll periods cannot be deleted"))
          _
          λ _ open_period.
            let apart =
              apart_from_protected pk row s period found shut
                (own, or_raise-ok _ _ known, raise_if-ok _ _ open_period) in
            (
              ap (λ rows. map snapshot_of (order_inputs rows))
                  (select-deleted pk row s.inputs apart stay),
              refl,
              refl,
            ))
      e
