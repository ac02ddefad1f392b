-- ===== src/Payroll/Processing/Runs.antt =====
-- What a run that was created says of itself, and which rows it leaves alone.
use payroll_management_syste.Prelude.{
  ℕ, String, ◌≡◌, refl, ◌⊎◌, inl, inr, false, Option, none, some, List, [], ◌∷◌, ◌++◌, map, any,
}
use payroll_management_syste.Outcome.{
  Result, ok, err, Ensures, Ensures-bind, Ensures-elim, or_raise, or_raise-ok, raise_if,
  raise_if-ok, validation_error, integrity_error, does_not_exist,
}
use payroll_management_syste.Security.{require_approved_jurisdiction}
use payroll_management_syste.Organizations.{User}
use payroll_management_syste.Payroll.Models.{
  PayrollPeriod, PayrollStore, CalculationRun, InputItem, is_run_for, is_protected, period_by_key,
  run_by_key,
}
use payroll_management_syste.Payroll.Rules.{Totals}
use payroll_management_syste.Payroll.Payslips.{create_payslips}
use payroll_management_syste.Payroll.Actors.{Context}
use payroll_management_syste.Payroll.Provenance.{tax_provenance, input_snapshot}
use payroll_management_syste.Payroll.Processing.{
  RunRequest, calculator_for, add_run, create_run, process_locked, or_existing, adjust_locked,
  newest_run, serialized, correction_of,
}

-- The stored results are those of the run's own rules on the run's own inputs.
abbrev pub IsReproducible : CalculationRun → Type 0
IsReproducible run =
    (calculator : List InputItem → Result Totals) × (totals : Totals) × (calculator_for
        run.rules_version
      ≡ some calculator)
    × (calculator run.input_snapshot ≡ ok totals)
    × (run.gross_pay ≡ totals.gross_pay)
    × (run.pre_tax_deductions ≡ totals.pre_tax_deductions)
    × (run.post_tax_deductions ≡ totals.post_tax_deductions)
    × (run.employer_costs ≡ totals.employer_costs)
    × (run.net_pay ≡ totals.net_pay)
    × (run.line_items ≡ totals.lines)
    × (create_payslips run.line_items ≡ ok run.payslips)

-- The run of the request: the rows of the store with this one more.
abbrev pub IsCreated :
    Context
    → PayrollPeriod
    → List InputItem
    → RunRequest
    → Option ℕ
    → PayrollStore
    → CalculationRun × PayrollStore
    → Type 0
IsCreated c period inputs request adjustment_of s (run, s') =
    (s' ≡ add_run run s)
    × (any (is_run_for period.organization request.idempotency_key) s.runs ≡ false)
    × (run.pk ≡ s.next_run)
    × (run.organization ≡ period.organization)
    × (run.period ≡ period.pk)
    × (run.idempotency_key ≡ request.idempotency_key)
    × (run.input_snapshot ≡ inputs)
    × (run.adjustment_of ≡ adjustment_of)
    × (tax_provenance c period request.jurisdiction_code
        ≡ ok (run.tax_jurisdiction_code, run.tax_rule_version))
    × (require_approved_jurisdiction c.settings period.jurisdiction ≡ ok tt)
    × IsReproducible run

create_run-Ensures :
    (c : Context) (period : PayrollPeriod) (inputs : List InputItem) (request : RunRequest)
    (adjustment_of : Option ℕ) (s : PayrollStore)
    → Ensures
        (IsCreated c period inputs request adjustment_of s)
        (create_run c period inputs request adjustment_of s)
unfolding create_run
create_run-Ensures c period inputs request adjustment_of s =
    let P = IsCreated c period inputs request adjustment_of s in
    Ensures-bind P (require_approved_jurisdiction c.settings period.jurisdiction) _ λ _ approved.
      Ensures-bind P
        (or_raise (calculator_for request.rules_version)
          (validation_error "unknown payroll rules version"))
        _
        λ calculator known.
          Ensures-bind P (tax_provenance c period request.jurisdiction_code) _ λ provenance taxed.
            Ensures-bind P (calculator inputs) _ λ totals calculated.
              Ensures-bind P
                (raise_if (any (is_run_for period.organization request.idempotency_key) s.runs)
                  integrity_error)
                _
                λ _ fresh. Ensures-bind P (create_payslips totals.lines) _ λ payslips paid. (
                  refl,
                  raise_if-ok _ _ fresh,
                  refl,
                  refl,
                  refl,
                  refl,
                  refl,
                  refl,
                  taxed,
                  approved,
                  (
                    calculator,
                    totals,
                    or_raise-ok _ _ known,
                    calculated,
                    refl,
                    refl,
                    refl,
                    refl,
                    refl,
                    refl,
                    paid,
                  ),
                )

-- The run that a transaction of `process_payroll` returns: a new one, or the one that had the key.
abbrev pub IsProcessed :
    Context → ℕ → RunRequest → PayrollStore → CalculationRun × PayrollStore → Type 0
IsProcessed c pk request s (run, s') =
    (period : PayrollPeriod) × (period_by_key pk s.periods ≡ some period)
    × (is_protected period.status ≡ false)
    × (IsCreated c period (input_snapshot period.pk s.inputs) request none s (run, s')
        ⊎ ((run_by_key period.organization request.idempotency_key s.runs ≡ some run) × (s' ≡ s)))

or_existing-Ensures :
    (P : CalculationRun × PayrollStore → Type 0) (organization : ℕ) (key : String)
    (s : PayrollStore) (m : Result (CalculationRun × PayrollStore))
    → Ensures P m
    → Ensures
        (λ r. P r ⊎ ((run_by_key organization key s.runs ≡ some r.0) × (r.1 ≡ s)))
        (or_existing organization key s m)
unfolding or_existing
or_existing-Ensures P organization key s (ok r) h = inl h
or_existing-Ensures P organization key s (err integrity_error) h =
    Ensures-bind (λ r. P r ⊎ ((run_by_key organization key s.runs ≡ some r.0) × (r.1 ≡ s)))
      (or_raise (run_by_key organization key s.runs) does_not_exist) _
      λ run found. inr (or_raise-ok _ _ found, refl)
or_existing-Ensures P organization key s (err _) h = tt

Ensures-map :
    {A : Type 0} (P Q : A → Type 0) (m : Result A)
    → ((a : A) → P a → Q a)
    → Ensures P m
    → Ensures Q m
Ensures-map P Q (ok a) f h = f a h
Ensures-map P Q (err e) f h = tt

pub process_locked-Ensures :
    (c : Context) (pk : ℕ) (request : RunRequest) (s : PayrollStore)
    → Ensures (IsProcessed c pk request s) (process_locked c pk request s)
unfolding process_locked
process_locked-Ensures c pk request s =
    let P = IsProcessed c pk request s in
    Ensures-bind P (or_raise (period_by_key pk s.periods) does_not_exist) _ λ period found.
      Ensures-bind P
        (raise_if (is_protected period.status)
          (validation_error "locked or paid periods cannot be processed"))
        _
        λ _ open_period.
          let inputs = input_snapshot period.pk s.inputs in
          let made = create_run c period inputs request none s in
          Ensures-map _ P (or_existing period.organization request.idempotency_key s made)
            (λ r h. (period, or_raise-ok _ _ found, raise_if-ok _ _ open_period, h))
            (or_existing-Ensures (IsCreated c period inputs request none s) period.organization
              request.idempotency_key s made (create_run-Ensures c period inputs request none s))

-- What the transaction of `create_adjustment_run` writes: the run, and its correction.
abbrev pub IsAdjusted :
    Context
    → PayrollPeriod
    → List InputItem
    → String
    → User
    → RunRequest
    → PayrollStore
    → CalculationRun × PayrollStore
    → Type 0
IsAdjusted c period inputs reason actor request s (run, s') =
    (between : PayrollStore) × IsCreated c period (map serialized inputs) request
      (newest_run period.pk s.runs) s (run, between)
    × (s' ≡ record between {
      corrections = between.corrections ++ correction_of period run reason actor ∷ [];
    })

pub adjust_locked-Ensures :
    (c : Context) (period : PayrollPeriod) (inputs : List InputItem) (reason : String)
    (actor : User) (request : RunRequest) (s : PayrollStore)
    → Ensures
        (IsAdjusted c period inputs reason actor request s)
        (adjust_locked c period inputs reason actor request s)
unfolding adjust_locked
adjust_locked-Ensures c period inputs reason actor request s =
    let P = IsAdjusted c period inputs reason actor request s in
    let latest = newest_run period.pk s.runs in
    let made = create_run c period (map serialized inputs) request latest s in
    Ensures-bind P made _ λ (run, between) created. (
      between,
      Ensures-elim (IsCreated c period (map serialized inputs) request latest s) made (run, between)
          (create_run-Ensures c period (map serialized inputs) request latest s) created,
      refl,
    )
