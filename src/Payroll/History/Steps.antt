-- ===== src/Payroll/History/Steps.antt =====
-- What one call of a service does to the approvals, the runs and the progress of every period.
use payroll_management_syste.Prelude.{
  update_where, find-update_where_other, ℕ, ◌+◌, String, ◌≡◌, refl, sym, ap, subst, ◌∙◌, ◌⊎◌, inl,
  inr, true, false, none, some, List, [], ◌∷◌, ◌++◌, append-nil, ◌==◌, ==_iff, Bool-cases,
  find_sound,
}
use payroll_management_syste.Outcome.{Result, atomic-cases, Ensures-elim}
use payroll_management_syste.Organizations.{User, OrganizationRole}
use payroll_management_syste.Payroll.Models.{
  PayrollPeriod, PayrollStore, PayrollLifecycle, PayrollApproval, CalculationRun, period_by_key,
  lifecycle_code,
}
use payroll_management_syste.Payroll.Actors.{Context}
use payroll_management_syste.Payroll.Lifecycle.{
  transition_period, transition_locked, record_transition, approval_of, moved, needs_run, has_run,
  may_transition,
}
use payroll_management_syste.Payroll.Lifecycle.Legal.{
  IsTransition, transition_locked-Ensures, found_moved, moved-pk, moved-status, may_transition_next,
}
use payroll_management_syste.Payroll.Processing.Invariant.{
  IsRunStep, IsWellFormed, IsRunStep-IsWellFormed, same-IsWellFormed,
}
use payroll_management_syste.Payroll.History.{progress, level}

-- No approval is written and every period stays where it is.
abbrev IsQuiet : PayrollStore → PayrollStore → Type 0
IsQuiet s t = (t.approvals ≡ s.approvals) × ((pk : ℕ) → level pk t ≡ level pk s)

-- One period goes to its next status, with one approval.
abbrev IsMove : PayrollStore → PayrollStore → Type 0
IsMove s t =
    (a : PayrollApproval) × (t.approvals ≡ s.approvals ++ a ∷ [])
    × (lifecycle_code a.to_status ≡ level a.period s + 1)
    × (level a.period t ≡ level a.period s + 1)
    × ((pk : ℕ) → (a.period == pk) ≡ false → level pk t ≡ level pk s)
    × (needs_run a.to_status ≡ true → has_run a.period s ≡ true)

-- No stored period goes away.
abbrev pub KeepsPeriods : PayrollStore → PayrollStore → Type 0
KeepsPeriods s t = (pk : ℕ) → period_by_key pk t.periods ≡ none → period_by_key pk s.periods ≡ none

-- The stored runs stay, with at most some more behind them, and stay well-formed.
abbrev pub KeepsRuns : PayrollStore → PayrollStore → Type 0
KeepsRuns s t =
    (new : List CalculationRun) × (t.runs ≡ s.runs ++ new) × (IsWellFormed s → IsWellFormed t)

-- A period that was not stored is created, in any status, without an approval.
abbrev IsCreation : PayrollStore → PayrollStore → Type 0
IsCreation s t =
    (t.approvals ≡ s.approvals)
    × (new : ℕ) × (period_by_key new s.periods ≡ none)
    × ((pk : ℕ) → (new == pk) ≡ false → level pk t ≡ level pk s)

abbrev pub IsStep : PayrollStore → PayrollStore → Type 0
IsStep s t = KeepsRuns s t × KeepsPeriods s t × (IsQuiet s t ⊎ (IsMove s t ⊎ IsCreation s t))

pub none-some : {A : Type 0} {x : A} → none ≡ some x → ⊥
none-some e = cc

pub same-KeepsRuns :
    (s t : PayrollStore) → t.runs ≡ s.runs → t.next_run ≡ s.next_run → KeepsRuns s t
same-KeepsRuns s t e next = ([], e ∙ sym (append-nil s.runs), same-IsWellFormed s t e next)

pub IsStep-refl : (s t : PayrollStore) → t ≡ s → IsStep s t
IsStep-refl s t e = (
  same-KeepsRuns s t (ap (λ (x : PayrollStore). x.runs) e)
      (ap (λ (x : PayrollStore). x.next_run) e),
  (λ pk missing. ap (λ (x : PayrollStore). period_by_key pk x.periods) (sym e) ∙ missing),
  inl (ap (λ (x : PayrollStore). x.approvals) e, λ pk. ap (λ x. level pk x) e),
)

pub same-KeepsPeriods : (s t : PayrollStore) → t.periods ≡ s.periods → KeepsPeriods s t
same-KeepsPeriods s t e pk missing = ap (period_by_key pk) (sym e) ∙ missing

pub IsRunStep-IsStep : (s t : PayrollStore) → IsRunStep s t → IsStep s t
IsRunStep-IsStep s t (periods, approvals, inl (same, next)) = (
  same-KeepsRuns s t same next,
  same-KeepsPeriods s t periods,
  inl (approvals, λ pk. ap (λ ps. progress (period_by_key pk ps)) periods),
)
IsRunStep-IsStep s t (periods, approvals, inr (run, grown, next, pk, made, fresh)) = (
  (
    run ∷ [],
    grown,
    IsRunStep-IsWellFormed s t (periods, approvals, inr (run, grown, next, pk, made, fresh)),
  ),
  same-KeepsPeriods s t periods,
  inl (approvals, λ pk. ap (λ ps. progress (period_by_key pk ps)) periods),
)

stored_under :
    (pk : ℕ) (s : PayrollStore) (period : PayrollPeriod)
    → period_by_key pk s.periods ≡ some period
    → period_by_key period.pk s.periods ≡ some period
stored_under pk s period found =
    let keyed = (==_iff period.pk pk).0 (find_sound (λ q. q.pk == pk) s.periods period found) in
    ap (λ k. period_by_key k s.periods) keyed ∙ found

record_transition-IsMove :
    (c : Context) (pk : ℕ) (to_status : PayrollLifecycle) (actor : User) (explanation : String)
    (s : PayrollStore) (period : PayrollPeriod) (role : OrganizationRole)
    → period_by_key pk s.periods ≡ some period
    → may_transition role period.status to_status ≡ true
    → (needs_run to_status ≡ true → has_run period.pk s ≡ true)
    → IsMove s (record_transition period to_status c.now actor role explanation s)
unfolding record_transition
record_transition-IsMove c pk to_status actor explanation s period role found permitted ready =
    let stored = stored_under pk s period found in
    let (next, _) = may_transition_next role period.status to_status permitted in
    let here = ap progress stored in
    let there = ap progress (found_moved period.pk to_status c.now s.periods period stored) in
    (
      approval_of period to_status actor role explanation,
      refl,
      next ∙ ap (λ n. n + 1) (sym here),
      there
          ∙ ap lifecycle_code (moved-status to_status c.now period)
          ∙ next
          ∙ ap (λ n. n + 1) (sym here),
      (λ k apart. ap progress (
          find-update_where_other (λ q. q.pk == period.pk) (λ q. q.pk == k) (moved to_status c.now)
            s.periods (λ q. ap (λ n. n == k) (moved-pk to_status c.now q))
            (λ q e. ap (λ n. n == k) ((==_iff q.pk period.pk).0 e) ∙ apart))),
      ready,
    )

record_transition-KeepsRuns :
    (period : PayrollPeriod) (to_status : PayrollLifecycle) (now : ℕ) (actor : User)
    (role : OrganizationRole) (explanation : String) (s : PayrollStore)
    → KeepsRuns s (record_transition period to_status now actor role explanation s)
unfolding record_transition
record_transition-KeepsRuns period to_status now actor role explanation s =
    same-KeepsRuns s (record_transition period to_status now actor role explanation s) refl refl

record_transition-KeepsPeriods :
    (period : PayrollPeriod) (to_status : PayrollLifecycle) (now : ℕ) (actor : User)
    (role : OrganizationRole) (explanation : String) (s : PayrollStore)
    → period_by_key period.pk s.periods ≡ some period
    → KeepsPeriods s (record_transition period to_status now actor role explanation s)
unfolding record_transition
record_transition-KeepsPeriods period to_status now actor role explanation s stored pk missing =
    elim (Bool-cases (period.pk == pk)) [
      | inl here ↦
          let same = (==_iff period.pk pk).0 here in
          let found = found_moved period.pk to_status now s.periods period stored in
          let moved_rows = update_where (λ q. q.pk == period.pk) (moved to_status now) s.periods in
          let clash : none ≡ some (moved to_status now period) =
            sym missing ∙ ap (λ k. period_by_key k moved_rows) (sym same) ∙ found in
          absurd (none-some clash)
      | inr away ↦
          sym (
            find-update_where_other (λ q. q.pk == period.pk) (λ q. q.pk == pk) (moved to_status now)
              s.periods (λ q. ap (λ n. n == pk) (moved-pk to_status now q))
              (λ q e. ap (λ n. n == pk) ((==_iff q.pk period.pk).0 e) ∙ away))
          ∙ missing
    ]

pub transition_period-IsStep :
    (c : Context) (pk : ℕ) (to_status : PayrollLifecycle) (actor : User) (explanation : String)
    (s t : PayrollStore) (r : Result PayrollPeriod)
    → transition_period c pk to_status actor explanation s ≡ (r, t)
    → IsStep s t
unfolding transition_period
transition_period-IsStep c pk to_status actor explanation s t r e =
    let m = transition_locked c pk to_status actor explanation s in
    elim (atomic-cases s t r m e) [
      | inl same ↦ IsStep-refl s t same
      | inr (refreshed, returned) ↦
          let (period, role, found, _, permitted, ready, same, _) =
            Ensures-elim (IsTransition c pk to_status actor explanation s) m (refreshed, t)
              (transition_locked-Ensures c pk to_status actor explanation s) returned in
          subst (λ x. IsStep s x) (sym same)
            (
              record_transition-KeepsRuns period to_status c.now actor role explanation s,
              record_transition-KeepsPeriods period to_status c.now actor role explanation s
                  (stored_under pk s period found),
              inr (
                  inl (
                    record_transition-IsMove c pk to_status actor explanation s period role found
                      permitted ready)),
            )
    ]
