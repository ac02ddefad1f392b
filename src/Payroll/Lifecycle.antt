-- ===== src/Payroll/Lifecycle.antt =====
-- `transition_period` of apps/payroll/services/processing.py: the lifecycle of a payroll period.
pub mod Legal
use payroll_management_syste.Prelude.{
  ℕ, zero, suc, ◌+◌, ◌-◌, ◌*◌, ◌/◌, ◌%◌, ◌^◌, ◌≤◌, ◌<◌, max, min, String, ◌≡◌, refl, sym, ap, subst,
  ◌∙◌, ◌≢◌, ◌↔◌, ◌⊎◌, inl, inr, Bool, true, false, not, ◌&&◌, ◌||◌, Option, none, some, List, [],
  ◌∷◌, ◌++◌, map, append-nil, append_assoc, arith, str_eq, str_eq_iff, ltb, leb, ◌==◌,
  if◌then◌else◌, ==_iff, Bool-cases, Option-cases, length, length-append, any, all, select, find,
  update_where, All, All-append, any-append, Elem, find-Elem, Elem-any, find_sound, select-append,
  All-select, All-map, Elem-select, select-Elem, select-All, find-append_new, length-update_where,
}
use payroll_management_syste.Outcome.{
  Result, ok, err, validation_error, permission_denied, does_not_exist, or_raise, raise_if,
  raise_unless, ◌>>=◌, ◌>>◌, atomic,
}
use payroll_management_syste.Organizations.{
  User, OrganizationRole, administrator, payroll_operator, role_eq,
}
use payroll_management_syste.Payroll.Models.{
  PayrollLifecycle, PayrollPeriod, PayrollApproval, PayrollStore, period_by_key, draft, validation,
  approval, locked, paid, corrected, archived,
}
use payroll_management_syste.Payroll.Actors.{Context, role_for}

-- `ALLOWED_TRANSITIONS.get(status, {}).get(to_status, set())`
unfoldable pub permitted_roles : PayrollLifecycle → PayrollLifecycle → List OrganizationRole
permitted_roles draft validation = payroll_operator ∷ administrator ∷ []
permitted_roles validation approval = administrator ∷ []
permitted_roles approval locked = administrator ∷ []
permitted_roles locked paid = payroll_operator ∷ administrator ∷ []
permitted_roles paid corrected = administrator ∷ []
permitted_roles corrected archived = administrator ∷ []
permitted_roles _ _ = []

unfoldable pub may_transition : OrganizationRole → PayrollLifecycle → PayrollLifecycle → Bool
may_transition role status to_status = any (role_eq role) (permitted_roles status to_status)

-- `to_status in {APPROVAL, LOCKED}`
abbrev pub needs_run : PayrollLifecycle → Bool
needs_run approval = true
needs_run locked = true
needs_run _ = false

-- `filter(pk=period.pk).update(status=to_status, **timestamps)`
abbrev pub moved : PayrollLifecycle → ℕ → PayrollPeriod → PayrollPeriod
moved locked now p = record p { status = locked; locked_at = some now }
moved paid now p = record p { status = paid; paid_at = some now }
moved archived now p = record p { status = archived; archived_at = some now }
moved to_status now p = record p { status = to_status }

abbrev pub approval_of :
    PayrollPeriod → PayrollLifecycle → User → OrganizationRole → String → PayrollApproval
approval_of period to_status actor role explanation = record {
  organization = period.organization;
  period = period.pk;
  from_status = period.status;
  to_status = to_status;
  actor = actor.pk;
  actor_role = role;
  explanation = explanation;
}

abbrev pub has_run : ℕ → PayrollStore → Bool
has_run pk s = any (λ r. r.period == pk) s.runs

-- The writes of the transition.
unfoldable pub record_transition :
    PayrollPeriod
    → PayrollLifecycle
    → ℕ
    → User
    → OrganizationRole
    → String
    → PayrollStore
    → PayrollStore
record_transition period to_status now actor role explanation s = record s {
  periods = update_where (λ p. p.pk == period.pk) (moved to_status now) s.periods;
  approvals = s.approvals ++ approval_of period to_status actor role explanation ∷ [];
}

-- The body of the transaction.
unfoldable pub transition_locked :
    Context
    → ℕ
    → PayrollLifecycle
    → User
    → String
    → PayrollStore
    → Result (PayrollPeriod × PayrollStore)
transition_locked c pk to_status actor explanation s = do
  period ← or_raise (period_by_key pk s.periods) does_not_exist
  role ← role_for c.memberships actor period.organization
  raise_unless (may_transition role period.status to_status)
      (permission_denied "role cannot transition payroll")
  raise_if (needs_run to_status && not (has_run period.pk s))
      (validation_error "payroll must have a calculation run")
  let s' = record_transition period to_status c.now actor role explanation s
  refreshed ← or_raise (period_by_key pk s'.periods) does_not_exist
  ok (refreshed, s')

unfoldable pub transition_period :
    Context
    → ℕ
    → PayrollLifecycle
    → User
    → String
    → PayrollStore
    → Result PayrollPeriod × PayrollStore
transition_period c pk to_status actor explanation s =
    atomic s (transition_locked c pk to_status actor explanation s)
