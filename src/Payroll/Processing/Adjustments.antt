-- ===== src/Payroll/Processing/Adjustments.antt =====
-- Who may adjust which period, and what an adjustment writes.
use payroll_management_syste.Prelude.{
  find-Elem, find_sound, arith, ==_iff, subst, find, false, [], Option-cases, Bool-cases, ◌==◌,
  ◌++◌, ◌∷◌, none, Elem, All, ◌&&◌, ℕ, map, Option, String, ◌≡◌, refl, ap, ◌∙◌, ◌⊎◌, inl, inr, true,
  some, List,
}
use payroll_management_syste.Outcome.{
  Result, ok, err, atomic, atomic-ok, Ensures, Ensures-bind, Ensures-last, Ensures-elim,
  validation_error, permission_denied, raise_unless, raise_unless-ok,
}
use payroll_management_syste.Organizations.{
  User, OrganizationMembership, OrganizationRole, is_of, role_eq, administrator, payroll_operator,
  employee, auditor, client,
}
use payroll_management_syste.Payroll.Models.{
  PayrollPeriod, PayrollStore, PayrollLifecycle, PayrollCorrection, CalculationRun, InputItem,
  run_by_key, draft, validation, approval, locked, paid, corrected, archived,
}
use payroll_management_syste.Payroll.Actors.{Context, role_for}
use payroll_management_syste.Payroll.Processing.{
  correction_of, serialized, newest_run, after_checks, RunRequest, create_adjustment_run,
  check_adjustment, adjust_locked, unless_stored, is_adjustable,
}
use payroll_management_syste.Payroll.Processing.Runs.{IsCreated, IsAdjusted, adjust_locked-Ensures}
use payroll_management_syste.Payroll.Processing.Idempotency.{unless_stored-cases}
use payroll_management_syste.Decimal.{whole}
use payroll_management_syste.Payroll.Rules.{no_metadata, get_or}

abbrev IsAllowed : Context → PayrollPeriod → User → Type 0
IsAllowed c period actor =
    (is_adjustable period.status ≡ true)
    × (role_for c.memberships actor period.organization ≡ ok administrator)

is_administrator : (r : OrganizationRole) → role_eq r administrator ≡ true → r ≡ administrator
is_administrator administrator h = refl
is_administrator payroll_operator h = cc
is_administrator employee h = cc
is_administrator auditor h = cc
is_administrator client h = cc

check_adjustment-Ensures :
    (c : Context) (period : PayrollPeriod) (actor : User)
    → Ensures (λ _. IsAllowed c period actor) (check_adjustment c period actor)
unfolding check_adjustment
check_adjustment-Ensures c period actor =
    let P = λ (_ : Unit {0}). IsAllowed c period actor in
    Ensures-bind P
      (raise_unless (is_adjustable period.status)
        (validation_error "adjustments require a locked, paid, or corrected original period"))
      _
      λ _ closed. Ensures-bind P (role_for c.memberships actor period.organization) _ λ role known.
        Ensures-last P
          (raise_unless (role_eq role administrator)
            (permission_denied "only administrators can create payroll adjustments"))
          λ _ admin. (
            raise_unless-ok _ _ closed,
            known ∙ ap ok (is_administrator role (raise_unless-ok _ _ admin)),
          )

checked-ok :
    (checked : Result (Unit {0})) (s s' : PayrollStore) (run : CalculationRun)
    (rest : Result CalculationRun × PayrollStore)
    → after_checks checked s rest ≡ (ok run, s')
    → (checked ≡ ok tt) × (rest ≡ (ok run, s'))
checked-ok (err x) s s' run rest e = cc
checked-ok (ok _) s s' run rest e = (refl, e)

-- The run is the last stored one of the period, which has none if there is no such run.
abbrev IsNewestRun : ℕ → List CalculationRun → Option ℕ → Type 0
IsNewestRun pk runs none = All (λ r. (r.period == pk) ≡ false) runs
IsNewestRun pk runs (some key) =
    (before after : List CalculationRun) × (r : CalculationRun) × (runs ≡ before ++ r ∷ after)
    × (r.period ≡ pk)
    × (r.pk ≡ key)
    × All (λ r. (r.period == pk) ≡ false) after

newest_run_lem : (pk : ℕ) (runs : List CalculationRun) → IsNewestRun pk runs (newest_run pk runs)
unfolding newest_run
newest_run_lem pk [] = tt
newest_run_lem pk (r ∷ rs) = elim (Option-cases (newest_run pk rs)) [
  | inr (key, found) ↦
      let (before, after, q, split, own, keyed, others) =
        subst (IsNewestRun pk rs) found (newest_run_lem pk rs) in
      rw found (r ∷ before, after, q, ap (λ xs. r ∷ xs) split, own, keyed, others)
  | inl absent ↦
      let others : All (λ r. (r.period == pk) ≡ false) rs =
        subst (IsNewestRun pk rs) absent (newest_run_lem pk rs) in
      elim (Bool-cases (r.period == pk)) [
        | inl t ↦ rw (absent, t) ([], rs, r, refl, (==_iff r.period pk).0 t, refl, others)
        | inr f ↦ rw (absent, f) (f, others)
      ]
]

-- What was given stays, and what was not gets the default.
abbrev pub IsCompleted : {A : Type 0} → A → Option A → Option A → Type 0
IsCompleted d none result = result ≡ some d
IsCompleted d (some x) result = result ≡ some x

-- The input with a default for every field that the calculation reads.
abbrev IsSerialized : InputItem → InputItem → Type 0
IsSerialized item item' =
    (item'.id ≡ item.id)
    × (item'.source_key ≡ item.source_key)
    × (item'.employee_id ≡ item.employee_id)
    × (item'.input_type ≡ item.input_type)
    × IsCompleted (whole 0) item.amount item'.amount
    × IsCompleted (whole 1) item.quantity item'.quantity
    × IsCompleted (whole 0) item.rate item'.rate
    × IsCompleted no_metadata item.metadata item'.metadata
    × IsCompleted "Correction adjustment" item.description item'.description

abbrev AreSerialized : List InputItem → List InputItem → Type 0
AreSerialized [] [] = Unit
AreSerialized [] (y ∷ ys) = ⊥
AreSerialized (x ∷ xs) [] = ⊥
AreSerialized (x ∷ xs) (y ∷ ys) = IsSerialized x y × AreSerialized xs ys

get_or-IsCompleted :
    {A : Type 0} (d : A) (given : Option A) → IsCompleted d given (some (get_or given d))
get_or-IsCompleted d none = refl
get_or-IsCompleted d (some x) = refl

serialized-AreSerialized : (inputs : List InputItem) → AreSerialized inputs (map serialized inputs)
serialized-AreSerialized [] = tt
serialized-AreSerialized (x ∷ xs) = (
  (
    refl,
    refl,
    refl,
    refl,
    get_or-IsCompleted (whole 0) x.amount,
    get_or-IsCompleted (whole 1) x.quantity,
    get_or-IsCompleted (whole 0) x.rate,
    get_or-IsCompleted no_metadata x.metadata,
    get_or-IsCompleted "Correction adjustment" x.description,
  ),
  serialized-AreSerialized xs,
)

-- A superuser, or an active administrator of the organization.
abbrev pub IsAdministrator : List OrganizationMembership → User → ℕ → Type 0
IsAdministrator memberships actor organization =
    (actor.is_superuser ≡ true)
    ⊎ ((m : OrganizationMembership) × Elem m memberships
        × (m.user ≡ actor.pk)
        × (m.organization ≡ organization)
        × (m.is_active ≡ true)
        × (m.role ≡ administrator))

role_for-IsAdministrator :
    (memberships : List OrganizationMembership) (actor : User) (organization : ℕ)
    → role_for memberships actor organization ≡ ok administrator
    → IsAdministrator memberships actor organization
unfolding role_for
role_for-IsAdministrator memberships actor organization e =
    let test = λ (m : OrganizationMembership). is_of actor.pk organization m && m.is_active in
    elim (Bool-cases actor.is_superuser) [
      | inl super ↦ inl super
      | inr plain ↦ elim (Option-cases (find test memberships)) [
        | inl absent ↦ ground arith
        | inr (m, found) ↦
            let holds : test m ≡ true = find_sound test memberships m found in
            let role : m.role ≡ administrator = ground arith in
            inr (
              m,
              find-Elem test memberships m found,
              ground arith,
              ground arith,
              ground arith,
              role,
            )
      ]
    ]

adjustable :
    (status : PayrollLifecycle)
    → is_adjustable status ≡ true
    → (status ≡ locked) ⊎ ((status ≡ paid) ⊎ (status ≡ corrected))
adjustable locked h = inl refl
adjustable paid h = inr (inl refl)
adjustable corrected h = inr (inr refl)
adjustable draft h = cc
adjustable validation h = cc
adjustable approval h = cc
adjustable archived h = cc

-- The new run and its correction, as they are stored.
abbrev pub IsAdjustment :
    Context
    → PayrollPeriod
    → List InputItem
    → String
    → User
    → RunRequest
    → PayrollStore
    → CalculationRun × PayrollStore
    → Type 0
IsAdjustment c period inputs reason actor request s (run, s') =
    (snapshot : List InputItem) × (linked : Option ℕ) × (between : PayrollStore)
    × (correction : PayrollCorrection) × AreSerialized inputs snapshot
    × IsNewestRun period.pk s.runs linked
    × IsCreated c period snapshot request linked s (run, between)
    × (correction.organization ≡ period.organization)
    × (correction.original_period ≡ period.pk)
    × (correction.adjustment_run ≡ run.pk)
    × (correction.reason ≡ reason)
    × (correction.requested_by ≡ actor.pk)
    × (s' ≡ record between { corrections = between.corrections ++ correction ∷ [] })

-- An adjustment that returns was asked for by an active administrator of the period's organization,
-- or a superuser, for a period that is locked, paid or corrected. It returns the run that had the
-- key and writes nothing, or adds one run and one correction that gives its reason and its actor.
-- The run is calculated from the inputs, with the defaults for what was not given, and linked to
-- the last run stored for the period, if there is one.
pub create_adjustment_run_authorized :
    (c : Context) (period : PayrollPeriod) (inputs : List InputItem) (reason : String)
    (actor : User) (request : RunRequest) (s s' : PayrollStore) (run : CalculationRun)
    → create_adjustment_run c period inputs reason actor request s ≡ (ok run, s')
    → ((period.status ≡ locked) ⊎ ((period.status ≡ paid) ⊎ (period.status ≡ corrected)))
      × IsAdministrator c.memberships actor period.organization
      × (((run_by_key period.organization request.idempotency_key s.runs ≡ some run) × (s' ≡ s))
          ⊎ IsAdjustment c period inputs reason actor
              (record request { actor = some actor.pk })
              s
              (run, s'))
unfolding create_adjustment_run
create_adjustment_run_authorized c period inputs reason actor request s s' run e =
    let by_actor = record request { actor = some actor.pk } in
    let m = adjust_locked c period inputs reason actor by_actor s in
    let stored = run_by_key period.organization request.idempotency_key s.runs in
    let (checked, rest) =
      checked-ok (check_adjustment c period actor) s s' run (unless_stored stored s (atomic s m))
        e in
    let (closed, admin) =
      Ensures-elim (λ _. IsAllowed c period actor) (check_adjustment c period actor) tt
        (check_adjustment-Ensures c period actor) checked in
    (
      adjustable period.status closed,
      role_for-IsAdministrator c.memberships actor period.organization admin,
      elim (unless_stored-cases stored s s' run (atomic s m) rest) [
        | inl old ↦ inl old
        | inr (_, new) ↦
            let (between, created, written) =
              Ensures-elim (IsAdjusted c period inputs reason actor by_actor s) m (run, s')
                (adjust_locked-Ensures c period inputs reason actor by_actor s)
                (atomic-ok s s' run m new) in
            inr (
              map serialized inputs,
              newest_run period.pk s.runs,
              between,
              correction_of period run reason actor,
              serialized-AreSerialized inputs,
              newest_run_lem period.pk s.runs,
              created,
              refl,
              refl,
              refl,
              refl,
              refl,
              written,
            )
      ],
    )
