-- ===== src/Payroll/Processing/Idempotency.antt =====
-- `process_payroll` gives one run for each idempotency key.
use payroll_management_syste.Prelude.{
  find-none, ℕ, String, ◌≡◌, refl, sym, ap, subst, ◌∙◌, ◌⊎◌, inl, inr, true, false, ◌&&◌, Option,
  none, some, str_eq, str_eq_iff, ◌==◌, ==_iff, any, find-append_new,
}
use payroll_management_syste.Outcome.{Result, ok, atomic, atomic-ok, Ensures-elim}
use payroll_management_syste.Payroll.Models.{
  PayrollPeriod, PayrollStore, CalculationRun, period_by_key, run_by_key, is_run_for,
}
use payroll_management_syste.Payroll.Actors.{Context}
use payroll_management_syste.Payroll.Processing.{
  RunRequest, process_payroll, process_locked, add_run, unless_stored,
}
use payroll_management_syste.Payroll.Processing.Runs.{IsProcessed, process_locked-Ensures}

-- The two ways in which `process_payroll` returns.
abbrev IsOutcome :
    Context
    → (PayrollStore → PayrollStore)
    → ℕ
    → ℕ
    → RunRequest
    → PayrollStore
    → CalculationRun
    → PayrollStore
    → Type 0
IsOutcome c others organization pk request s run s' =
    ((run_by_key organization request.idempotency_key s.runs ≡ some run) × (s' ≡ s))
    ⊎ IsProcessed c pk request (others s) (run, s')

pub unless_stored-cases :
    (stored : Option CalculationRun) (s s' : PayrollStore) (run : CalculationRun)
    (fresh : Result CalculationRun × PayrollStore)
    → unless_stored stored s fresh ≡ (ok run, s')
    → ((stored ≡ some run) × (s' ≡ s)) ⊎ ((stored ≡ none) × (fresh ≡ (ok run, s')))
unless_stored-cases (some old) s s' run fresh e = inl (cc, cc)
unless_stored-cases none s s' run fresh e = inr (refl, e)

process_payroll-IsOutcome :
    (c : Context) (others : PayrollStore → PayrollStore) (organization pk : ℕ)
    (request : RunRequest) (s s' : PayrollStore) (run : CalculationRun)
    → process_payroll c others organization pk request s ≡ (ok run, s')
    → IsOutcome c others organization pk request s run s'
unfolding process_payroll
process_payroll-IsOutcome c others organization pk request s s' run e =
    let fresh = process_locked c pk request (others s) in
    elim (unless_stored-cases (run_by_key organization request.idempotency_key s.runs) s s' run
      (atomic (others s) fresh) e) [
        | inl old ↦ inl old
        | inr (_, returned) ↦ inr (
            Ensures-elim (IsProcessed c pk request (others s)) fresh (run, s')
              (process_locked-Ensures c pk request (others s))
              (atomic-ok (others s) s' run fresh returned))
      ]

keyed_now :
    (period : PayrollPeriod) (organization : ℕ) (key : String) (s s' : PayrollStore)
    (run : CalculationRun)
    → period.organization ≡ organization
    → s' ≡ add_run run s
    → any (is_run_for period.organization key) s.runs ≡ false
    → run.organization ≡ period.organization
    → run.idempotency_key ≡ key
    → run_by_key organization key s'.runs ≡ some run
keyed_now period organization key s s' run owner grown fresh of_period keyed =
    let absent =
      find-none (is_run_for organization key) s.runs
        (subst (λ o. any (is_run_for o key) s.runs ≡ false) owner fresh) in
    let same : is_run_for organization key run ≡ true =
      subst (λ o. (o == organization && str_eq run.idempotency_key key) ≡ true)
        (sym (of_period ∙ owner))
        (rw
          ((==_iff organization organization).1 refl, (str_eq_iff run.idempotency_key key).1 keyed)
          refl) in
    ap (λ (t : PayrollStore). run_by_key organization key t.runs) grown
    ∙ find-append_new (is_run_for organization key) s.runs run absent same

process_payroll-keyed :
    (c : Context) (others : PayrollStore → PayrollStore) (organization pk : ℕ)
    (request : RunRequest) (s s' : PayrollStore) (run : CalculationRun)
    → ((period : PayrollPeriod)
        → period_by_key pk (others s).periods ≡ some period
        → period.organization ≡ organization)
    → process_payroll c others organization pk request s ≡ (ok run, s')
    → run_by_key organization request.idempotency_key s'.runs ≡ some run
process_payroll-keyed c others organization pk request s s' run owner e =
    elim (process_payroll-IsOutcome c others organization pk request s s' run e) [
      | inl (found, same) ↦
          ap (λ (t : PayrollStore). run_by_key organization request.idempotency_key t.runs) same
          ∙ found
      | inr (period, known, _, inl (grown, fresh, _, of_period, _, keyed, _, _, _, _, _)) ↦
          keyed_now period organization request.idempotency_key (others s) s' run
            (owner period known) grown fresh of_period keyed
      | inr (period, known, _, inr (found, same)) ↦
          ap (λ (t : PayrollStore). run_by_key organization request.idempotency_key t.runs) same
          ∙ subst (λ o. run_by_key o request.idempotency_key (others s).runs ≡ some run)
              (owner period known) found
    ]

-- A request with the key of a run that was returned returns that run again and writes nothing,
-- whichever period, rules, actor and settings it names. Requests that commit between the two
-- steps of either call change nothing in this. The organization is that of the period.
pub process_payroll_once :
    (c later : Context) (others meanwhile : PayrollStore → PayrollStore) (organization pk pk' : ℕ)
    (request again : RunRequest) (s s' : PayrollStore) (run : CalculationRun)
    → ((period : PayrollPeriod)
        → period_by_key pk (others s).periods ≡ some period
        → period.organization ≡ organization)
    → process_payroll c others organization pk request s ≡ (ok run, s')
    → again.idempotency_key ≡ request.idempotency_key
    → process_payroll later meanwhile organization pk' again s' ≡ (ok run, s')
unfolding process_payroll
process_payroll_once c later others meanwhile organization pk pk' request again s s' run owner e
      same =
    let stored : run_by_key organization again.idempotency_key s'.runs ≡ some run =
      ap (λ key. run_by_key organization key s'.runs) same
      ∙ process_payroll-keyed c others organization pk request s s' run owner e in
    ap
      (λ o.
        unless_stored o s' (atomic (meanwhile s') (process_locked later pk' again (meanwhile s'))))
      stored
