-- ===== src/Payroll/Tests/Services.antt =====
-- The services on a period of each kind.
use payroll_management_syste.Prelude.{
  String, ◌+◌, ◌≡◌, refl, sym, ap, ◌⊎◌, true, none, some, some-injective, [], ◌∷◌,
}
use payroll_management_syste.Outcome.{ok, err, validation_error}
use payroll_management_syste.Organizations.{OrganizationRole, administrator, payroll_operator}
use payroll_management_syste.Payroll.Models.{
  PayrollPeriod, PayrollStore, CalculationRun, lifecycle_code, period_by_key, run_by_key, draft,
  validation, locked, paid, corrected,
}
use payroll_management_syste.Payroll.Actors.{role_for}
use payroll_management_syste.Payroll.Lifecycle.{
  may_transition, transition_period, record_transition, moved, needs_run, has_run,
}
use payroll_management_syste.Payroll.Lifecycle.Legal.{MayEnter, transition_period_legal}
use payroll_management_syste.Payroll.Processing.{RunRequest, process_payroll, create_adjustment_run}
use payroll_management_syste.Payroll.Processing.Idempotency.{process_payroll_once}
use payroll_management_syste.Payroll.Processing.Closed.{process_payroll_closed}
use payroll_management_syste.Payroll.Processing.Adjustments.{
  IsAdministrator, IsAdjustment, create_adjustment_run_authorized,
}
use payroll_management_syste.Payroll.Tests.{
  running, admin, context, period_in, store_in, items, request, run_with, run, processed_store,
  alone, processes,
}

owned :
    (period : PayrollPeriod)
    → period_by_key 3 (store_in draft).periods ≡ some period
    → period.organization ≡ 1
owned period e = ap (λ (p : PayrollPeriod). p.organization) (sym (some-injective _ _ e))

process_payroll_once_example :
    process_payroll context alone 1 8 (record request { actor = none }) processed_store
    ≡ (ok run, processed_store)
process_payroll_once_example =
    process_payroll_once context context alone alone 1 3 8 request (record request { actor = none })
      (store_in draft) processed_store run owned processes refl

abbrev paid_store : PayrollStore
paid_store = (transition_period context 3 paid admin "sent" (store_in locked)).1

pays :
    transition_period context 3 paid admin "sent" (store_in locked)
    ≡ (ok (moved paid 90 (period_in locked)), paid_store)
unfolding running
pays = refl

none_keyed : (key : String) → run_by_key 1 key paid_store.runs ≡ none
unfolding running
none_keyed key = refl

process_payroll_closed_example :
    process_payroll context alone 1 3 request paid_store
    ≡ (err (validation_error "locked or paid periods cannot be processed"), paid_store)
process_payroll_closed_example =
    process_payroll_closed context context alone 1 3 paid admin "sent" request (store_in locked)
      paid_store (moved paid 90 (period_in locked)) pays refl (none_keyed request.idempotency_key)
      refl

may_pay : may_transition payroll_operator locked paid ≡ true
unfolding running
may_pay = refl

may_validate : may_transition administrator draft validation ≡ true
unfolding running
may_validate = refl

known_role : role_for context.memberships admin 1 ≡ ok administrator
unfolding running
known_role = refl

abbrev moved_store : PayrollStore
moved_store =
    record_transition (period_in draft) validation 90 admin administrator "ok" (store_in draft)

moves :
    transition_period context 3 validation admin "ok" (store_in draft)
    ≡ (ok (period_in validation), moved_store)
unfolding running
moves = refl

transition_period_legal_example :
    (period : PayrollPeriod) × (role : OrganizationRole) × (period_by_key 3 (store_in draft).periods
      ≡ some period)
    × (role_for context.memberships admin period.organization ≡ ok role)
    × MayEnter role validation
    × (lifecycle_code validation ≡ lifecycle_code period.status + 1)
    × (needs_run validation ≡ true → has_run 3 (store_in draft) ≡ true)
    × (period_in validation ≡ moved validation 90 period)
    × (moved_store ≡ record_transition period validation 90 admin role "ok" (store_in draft))
transition_period_legal_example =
    transition_period_legal context 3 validation admin "ok" (store_in draft) moved_store
      (period_in validation) moves

abbrev adjustment : CalculationRun
adjustment = run_with "fix" none

abbrev adjusted_store : PayrollStore
adjusted_store = record (store_in paid) {
  runs = adjustment ∷ [];
  corrections =
      record {
        organization = 1;
        original_period = 3;
        adjustment_run = 1;
        reason = "late";
        requested_by = 7;
      }
      ∷ [];
  next_run = 2;
}

abbrev fix_request : RunRequest
fix_request = record request { idempotency_key = "fix"; actor = none }

adjusts :
    create_adjustment_run context (period_in paid) items "late" admin fix_request (store_in paid)
    ≡ (ok adjustment, adjusted_store)
unfolding running
adjusts = refl

create_adjustment_run_authorized_example :
    ((paid ≡ locked) ⊎ ((paid ≡ paid) ⊎ (paid ≡ corrected)))
    × IsAdministrator context.memberships admin 1
    × (((run_by_key 1 "fix" (store_in paid).runs ≡ some adjustment)
          × (adjusted_store ≡ store_in paid))
        ⊎ IsAdjustment context
            (period_in paid)
            items
            "late"
            admin
            (record fix_request { actor = some 7 })
            (store_in paid)
            (adjustment, adjusted_store))
create_adjustment_run_authorized_example =
    create_adjustment_run_authorized context (period_in paid) items "late" admin fix_request
      (store_in paid) adjusted_store adjustment adjusts
