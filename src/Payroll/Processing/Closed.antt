-- ===== src/Payroll/Processing/Closed.antt =====
-- A period that a transition has closed, and later calls of `process_payroll` for it.
use payroll_management_syste.Prelude.{refl, String, ℕ, ◌≡◌, ap, ◌∙◌, true, none, some}
use payroll_management_syste.Outcome.{ok, err, atomic, validation_error}
use payroll_management_syste.Organizations.{User}
use payroll_management_syste.Payroll.Models.{
  PayrollPeriod, PayrollStore, PayrollLifecycle, period_by_key, run_by_key, is_protected,
}
use payroll_management_syste.Payroll.Actors.{Context}
use payroll_management_syste.Payroll.Lifecycle.{transition_period, record_transition, moved}
use payroll_management_syste.Payroll.Lifecycle.Legal.{
  transition_period_legal, found_moved, moved-status,
}
use payroll_management_syste.Payroll.Processing.{
  RunRequest, process_payroll, process_locked, unless_stored,
}

process_locked_protected :
    (c : Context) (pk : ℕ) (request : RunRequest) (s : PayrollStore) (period : PayrollPeriod)
    → period_by_key pk s.periods ≡ some period
    → is_protected period.status ≡ true
    → process_locked c pk request s
      ≡ err (validation_error "locked or paid periods cannot be processed")
unfolding process_locked
process_locked_protected c pk request s period found shut = rw (found, shut) refl

-- After a transition that succeeds has locked or paid a period, `process_payroll` gives it no further
-- run, for any later request whose key has no run yet: the call raises and leaves the store as the
-- other requests left it, if none of them has changed that period.
pub process_payroll_closed :
    (c later : Context) (others : PayrollStore → PayrollStore) (organization pk : ℕ)
    (to_status : PayrollLifecycle) (actor : User) (explanation : String) (request : RunRequest)
    (s s' : PayrollStore) (refreshed : PayrollPeriod)
    → transition_period c pk to_status actor explanation s ≡ (ok refreshed, s')
    → is_protected to_status ≡ true
    → run_by_key organization request.idempotency_key s'.runs ≡ none
    → period_by_key pk (others s').periods ≡ period_by_key pk s'.periods
    → process_payroll later others organization pk request s'
      ≡ (err (validation_error "locked or paid periods cannot be processed"), others s')
unfolding process_payroll record_transition
process_payroll_closed c later others organization pk to_status actor explanation request s s'
      refreshed e shut missing same =
    let (period, role, found, _, _, _, _, _, written) =
      transition_period_legal c pk to_status actor explanation s s' refreshed e in
    let stored : period_by_key pk s'.periods ≡ some (moved to_status c.now period) =
      ap (λ (t : PayrollStore). period_by_key pk t.periods) written
      ∙ found_moved pk to_status c.now s.periods period found in
    ap (λ o. unless_stored o s' (atomic (others s') (process_locked later pk request (others s'))))
      missing
    ∙ ap (atomic (others s')) (
        process_locked_protected later pk request (others s') (moved to_status c.now period)
          (same ∙ stored) (ap is_protected (moved-status to_status c.now period) ∙ shut))
