-- ===== src/Payroll/Lifecycle/Legal.antt =====
-- What a transition that succeeds has checked and done.
use payroll_management_syste.Prelude.{
  some-injective, find-update_where, ℕ, ◌+◌, String, ◌≡◌, refl, sym, ap, subst, ◌∙◌, ◌⊎◌, inl, inr,
  Bool, true, false, not, ◌&&◌, some, List, [], ◌∷◌, arith, ◌==◌, ==_iff, any, update_where,
  find_sound,
}
use payroll_management_syste.Outcome.{
  atomic-ok, raise_if-ok, raise_unless-ok, or_raise-ok, ok, or_raise, raise_if, raise_unless,
  does_not_exist, permission_denied, validation_error, Ensures, Ensures-bind, Ensures-elim,
}
use payroll_management_syste.Organizations.{
  User, OrganizationRole, administrator, payroll_operator, employee, auditor, client, role_eq,
}
use payroll_management_syste.Payroll.Models.{
  PayrollLifecycle, PayrollPeriod, PayrollStore, period_by_key, lifecycle_code, draft, validation,
  approval, locked, paid, corrected, archived,
}
use payroll_management_syste.Payroll.Actors.{Context, role_for}
use payroll_management_syste.Payroll.Lifecycle.{
  permitted_roles, may_transition, needs_run, has_run, record_transition, transition_locked,
  transition_period, moved,
}

-- The roles that may make a transition into the status.
abbrev pub MayEnter : OrganizationRole → PayrollLifecycle → Type 0
MayEnter role to_status =
    (role ≡ administrator)
    ⊎ ((role ≡ payroll_operator) × ((to_status ≡ validation) ⊎ (to_status ≡ paid)))

admin_only :
    (r : OrganizationRole) → any (role_eq r) (administrator ∷ []) ≡ true → r ≡ administrator
admin_only administrator h = refl
admin_only payroll_operator h = cc
admin_only employee h = cc
admin_only auditor h = cc
admin_only client h = cc

operator_or_admin :
    (r : OrganizationRole)
    → any (role_eq r) (payroll_operator ∷ administrator ∷ []) ≡ true
    → (r ≡ administrator) ⊎ (r ≡ payroll_operator)
operator_or_admin administrator h = inl refl
operator_or_admin payroll_operator h = inr refl
operator_or_admin employee h = cc
operator_or_admin auditor h = cc
operator_or_admin client h = cc

enter_open :
    (r : OrganizationRole) (to_status : PayrollLifecycle)
    → any (role_eq r) (payroll_operator ∷ administrator ∷ []) ≡ true
    → (to_status ≡ validation) ⊎ (to_status ≡ paid)
    → MayEnter r to_status
enter_open r to_status h where_to = elim (operator_or_admin r h) [
  | inl admin ↦ inl admin
  | inr operator ↦ inr (operator, where_to)
]

-- Every permitted transition goes to the next status of the lifecycle, and is an administrator's,
-- or a payroll operator's to validation or to paid.
pub may_transition_next :
    (role : OrganizationRole) (status to_status : PayrollLifecycle)
    → may_transition role status to_status ≡ true
    → (lifecycle_code to_status ≡ lifecycle_code status + 1) × MayEnter role to_status
unfolding may_transition permitted_roles
may_transition_next role draft validation h = (omega arith, enter_open role validation h (inl refl))
may_transition_next role validation approval h = (omega arith, inl (admin_only role h))
may_transition_next role approval locked h = (omega arith, inl (admin_only role h))
may_transition_next role locked paid h = (omega arith, enter_open role paid h (inr refl))
may_transition_next role paid corrected h = (omega arith, inl (admin_only role h))
may_transition_next role corrected archived h = (omega arith, inl (admin_only role h))
may_transition_next role _ _ h = cc

-- The transition of the stored period to the status, and nothing else.
abbrev pub IsTransition :
    Context
    → ℕ
    → PayrollLifecycle
    → User
    → String
    → PayrollStore
    → PayrollPeriod × PayrollStore
    → Type 0
IsTransition c pk to_status actor explanation s (refreshed, s') =
    (period : PayrollPeriod) × (role : OrganizationRole) × (period_by_key pk s.periods
      ≡ some period)
    × (role_for c.memberships actor period.organization ≡ ok role)
    × (may_transition role period.status to_status ≡ true)
    × (needs_run to_status ≡ true → has_run period.pk s ≡ true)
    × (s' ≡ record_transition period to_status c.now actor role explanation s)
    × (period_by_key pk s'.periods ≡ some refreshed)

run_needed : (a b : Bool) → (a && not b) ≡ false → a ≡ true → b ≡ true
run_needed true true h e = refl
run_needed true false h e = cc
run_needed false b h e = cc

pub transition_locked-Ensures :
    (c : Context) (pk : ℕ) (to_status : PayrollLifecycle) (actor : User) (explanation : String)
    (s : PayrollStore)
    → Ensures
        (IsTransition c pk to_status actor explanation s)
        (transition_locked c pk to_status actor explanation s)
unfolding transition_locked
transition_locked-Ensures c pk to_status actor explanation s =
    let P = IsTransition c pk to_status actor explanation s in
    Ensures-bind P (or_raise (period_by_key pk s.periods) does_not_exist) _ λ period found.
      Ensures-bind P (role_for c.memberships actor period.organization) _ λ role known.
        Ensures-bind P
          (raise_unless (may_transition role period.status to_status)
            (permission_denied "role cannot transition payroll"))
          _
          λ _ permitted.
            Ensures-bind P
              (raise_if (needs_run to_status && not (has_run period.pk s))
                (validation_error "payroll must have a calculation run"))
              _
              λ _ ready.
                let s' = record_transition period to_status c.now actor role explanation s in
                Ensures-bind P (or_raise (period_by_key pk s'.periods) does_not_exist) _
                  λ refreshed again. (
                    period,
                    role,
                    or_raise-ok _ _ found,
                    known,
                    raise_unless-ok _ _ permitted,
                    run_needed (needs_run to_status) (has_run period.pk s) (raise_if-ok _ _ ready),
                    refl,
                    or_raise-ok _ _ again,
                  )

pub moved-pk :
    (to_status : PayrollLifecycle) (now : ℕ) (p : PayrollPeriod) → (moved to_status now p).pk ≡ p.pk
moved-pk locked now p = refl
moved-pk _ now p = refl

pub moved-status :
    (to_status : PayrollLifecycle) (now : ℕ) (p : PayrollPeriod)
    → (moved to_status now p).status ≡ to_status
moved-status locked now p = refl
moved-status _ now p = refl

-- After an update by key the key finds the changed period.
pub found_moved :
    (pk : ℕ) (to_status : PayrollLifecycle) (now : ℕ) (ps : List PayrollPeriod) (p : PayrollPeriod)
    → period_by_key pk ps ≡ some p
    → period_by_key pk (update_where (λ q. q.pk == p.pk) (moved to_status now) ps)
      ≡ some (moved to_status now p)
found_moved pk to_status now ps p e =
    let keyed : p.pk ≡ pk = (==_iff p.pk pk).0 (find_sound (λ q. q.pk == pk) ps p e) in
    subst
      (λ k.
        period_by_key pk (update_where (λ q. q.pk == k) (moved to_status now) ps)
        ≡ some (moved to_status now p))
      (sym keyed)
      (find-update_where (λ q. q.pk == pk) (moved to_status now) ps p
        (λ q. ap (λ k. k == pk) (moved-pk to_status now q)) e)

stored_moved :
    (pk : ℕ) (to_status : PayrollLifecycle) (now : ℕ) (actor : User) (role : OrganizationRole)
    (explanation : String) (s : PayrollStore) (p : PayrollPeriod)
    → period_by_key pk s.periods ≡ some p
    → period_by_key pk (record_transition p to_status now actor role explanation s).periods
      ≡ some (moved to_status now p)
unfolding record_transition
stored_moved pk to_status now actor role explanation s p e =
    found_moved pk to_status now s.periods p e

-- A transition that succeeds takes the stored period to the next status of the lifecycle, for an
-- actor whose role may enter that status; before approval and locking the period had a run. It
-- stores the new status with one approval of it, and returns the period as it then stands.
pub transition_period_legal :
    (c : Context) (pk : ℕ) (to_status : PayrollLifecycle) (actor : User) (explanation : String)
    (s s' : PayrollStore) (refreshed : PayrollPeriod)
    → transition_period c pk to_status actor explanation s ≡ (ok refreshed, s')
    → (period : PayrollPeriod) × (role : OrganizationRole) × (period_by_key pk s.periods
        ≡ some period)
      × (role_for c.memberships actor period.organization ≡ ok role)
      × MayEnter role to_status
      × (lifecycle_code to_status ≡ lifecycle_code period.status + 1)
      × (needs_run to_status ≡ true → has_run pk s ≡ true)
      × (refreshed ≡ moved to_status c.now period)
      × (s' ≡ record_transition period to_status c.now actor role explanation s)
unfolding transition_period
transition_period_legal c pk to_status actor explanation s s' refreshed e =
    let (period, role, found, known, permitted, ready, same, again) =
      Ensures-elim (IsTransition c pk to_status actor explanation s) _ (refreshed, s')
        (transition_locked-Ensures c pk to_status actor explanation s)
        (atomic-ok s s' refreshed _ e) in
    let (next, may) = may_transition_next role period.status to_status permitted in
    let keyed : period.pk ≡ pk =
      (==_iff period.pk pk).0 (find_sound (λ q. q.pk == pk) s.periods period found) in
    let stored =
      ap (λ (t : PayrollStore). period_by_key pk t.periods) same
      ∙ stored_moved pk to_status c.now actor role explanation s period found in
    (
      period,
      role,
      found,
      known,
      may,
      next,
      subst (λ k. needs_run to_status ≡ true → has_run k s ≡ true) keyed ready,
      some-injective _ _ (sym again ∙ stored),
      same,
    )

-- A transition to a status that the actor's role may give the stored period, with a run where one
-- is needed, succeeds.
transition_period_total :
    (c : Context) (pk : ℕ) (to_status : PayrollLifecycle) (actor : User) (explanation : String)
    (s : PayrollStore) (period : PayrollPeriod) (role : OrganizationRole)
    → period_by_key pk s.periods ≡ some period
    → role_for c.memberships actor period.organization ≡ ok role
    → may_transition role period.status to_status ≡ true
    → (needs_run to_status && not (has_run period.pk s)) ≡ false
    → transition_period c pk to_status actor explanation s ≡ (
      ok (moved to_status c.now period),
      record_transition period to_status c.now actor role explanation s,
    )
unfolding transition_period transition_locked
transition_period_total c pk to_status actor explanation s period role found known permitted ready =
    rw (
      found,
      known,
      permitted,
      ready,
      stored_moved pk to_status c.now actor role explanation s period found,
    )
