-- ===== src/Payroll/Processing/Invariant.antt =====
-- The invariant of the stored runs, and that the services which add runs keep it.
use payroll_management_syste.Prelude.{
  ℕ, ◌+◌, ◌<◌, String, ◌≡◌, refl, sym, subst, ◌∙◌, ◌⊎◌, inl, inr, Bool, true, false, ◌&&◌, ◌||◌,
  Option, none, some, List, [], ◌∷◌, ◌++◌, map, arith, str_eq, str_eq_iff, ◌==◌, ==_iff, Bool-cases,
  any, All, All-append, any-append, All-map,
}
use payroll_management_syste.Outcome.{Result, ok, err, atomic, atomic-cases, Ensures-elim}
use payroll_management_syste.Organizations.{User}
use payroll_management_syste.Payroll.Models.{
  PayrollPeriod, PayrollStore, CalculationRun, InputItem, is_run_for, run_by_key,
}
use payroll_management_syste.Payroll.Actors.{Context}
use payroll_management_syste.Payroll.Provenance.{input_snapshot}
use payroll_management_syste.Payroll.Processing.{
  after_checks, RunRequest, process_payroll, process_locked, create_adjustment_run,
  check_adjustment, adjust_locked, unless_stored, newest_run, serialized,
}
use payroll_management_syste.Payroll.Processing.Runs.{
  IsReproducible, IsCreated, IsProcessed, IsAdjusted, process_locked-Ensures, adjust_locked-Ensures,
}

-- No two runs of an organization have the same key.
abbrev pub HasUniqueKeys : List CalculationRun → Type 0
HasUniqueKeys [] = Unit
HasUniqueKeys (r ∷ rs) =
    (any (is_run_for r.organization r.idempotency_key) rs ≡ false) × HasUniqueKeys rs

-- Every run has a key that is less than the next one.
abbrev pub IsNumbered : PayrollStore → Type 0
IsNumbered s = All (λ r. r.pk < s.next_run) s.runs

abbrev pub IsWellFormed : PayrollStore → Type 0
IsWellFormed s = All IsReproducible s.runs × HasUniqueKeys s.runs × IsNumbered s

both_true : (a b : Bool) → (a && b) ≡ true → (a ≡ true) × (b ≡ true)
both_true true b h = (refl, h)
both_true false b h = cc

tail_false : (a b : Bool) → (a || b) ≡ false → b ≡ false
tail_false true b h = cc
tail_false false b h = h

other_key :
    (r new : CalculationRun) (rs : List CalculationRun)
    → any (is_run_for new.organization new.idempotency_key) (r ∷ rs) ≡ false
    → is_run_for r.organization r.idempotency_key new ≡ false
other_key r new rs fresh = elim (Bool-cases (is_run_for r.organization r.idempotency_key new)) [
  | inr apart ↦ apart
  | inl same_run ↦
      let (owner, key) =
        both_true (new.organization == r.organization)
          (str_eq new.idempotency_key r.idempotency_key) same_run in
      let same : is_run_for new.organization new.idempotency_key r ≡ true =
        rw
          (
            (==_iff r.organization new.organization).1
                (sym ((==_iff new.organization r.organization).0 owner)),
            (str_eq_iff r.idempotency_key new.idempotency_key).1
                (sym ((str_eq_iff new.idempotency_key r.idempotency_key).0 key)),
          )
          refl in
      cc
]

pub HasUniqueKeys-append :
    (rs : List CalculationRun) (new : CalculationRun)
    → HasUniqueKeys rs
    → any (is_run_for new.organization new.idempotency_key) rs ≡ false
    → HasUniqueKeys (rs ++ new ∷ [])
HasUniqueKeys-append [] new h fresh = (refl, tt)
HasUniqueKeys-append (r ∷ rs) new (h, hs) fresh =
    let test = is_run_for r.organization r.idempotency_key in
    (
      any-append test rs (new ∷ []) ∙ rw (h, other_key r new rs fresh) refl,
      HasUniqueKeys-append rs new hs (tail_false _ _ fresh),
    )

-- What the services that add runs may do to the store.
abbrev pub IsRunStep : PayrollStore → PayrollStore → Type 0
IsRunStep s s' =
    (s'.periods ≡ s.periods)
    × (s'.approvals ≡ s.approvals)
    × (((s'.runs ≡ s.runs) × (s'.next_run ≡ s.next_run))
        ⊎ ((run : CalculationRun) × (s'.runs ≡ s.runs ++ run ∷ [])
            × (s'.next_run ≡ s.next_run + 1)
            × (run.pk ≡ s.next_run)
            × IsReproducible run
            × (any (is_run_for run.organization run.idempotency_key) s.runs ≡ false)))

stays : (s s' : PayrollStore) → s' ≡ s → IsRunStep s s'
stays s s' e = subst (λ t. IsRunStep s t) (sym e) (refl, refl, inl (refl, refl))

IsCreated-IsRunStep :
    (c : Context) (period : PayrollPeriod) (inputs : List InputItem) (request : RunRequest)
    (adjustment_of : Option ℕ) (s s' : PayrollStore) (run : CalculationRun)
    → IsCreated c period inputs request adjustment_of s (run, s')
    → IsRunStep s s'
IsCreated-IsRunStep c period inputs request adjustment_of s s' run
      (grown, fresh, pk, owner, _, key, _, _, _, _, again) =
    subst (λ t. IsRunStep s t) (sym grown)
      (
        refl,
        refl,
        inr (
          run,
          refl,
          refl,
          pk,
          again,
          subst (λ o. any (is_run_for o run.idempotency_key) s.runs ≡ false) (sym owner)
              (subst (λ k. any (is_run_for period.organization k) s.runs ≡ false) (sym key) fresh),
        ),
      )

unless_stored-outcome :
    (stored : Option CalculationRun) (s s' : PayrollStore) (r : Result CalculationRun)
    (fresh : Result CalculationRun × PayrollStore)
    → unless_stored stored s fresh ≡ (r, s')
    → (s' ≡ s) ⊎ (fresh ≡ (r, s'))
unless_stored-outcome (some old) s s' r fresh e = inl cc
unless_stored-outcome none s s' r fresh e = inr e

process_locked-IsRunStep :
    (c : Context) (pk : ℕ) (request : RunRequest) (s s' : PayrollStore) (r : Result CalculationRun)
    → atomic s (process_locked c pk request s) ≡ (r, s')
    → IsRunStep s s'
process_locked-IsRunStep c pk request s s' r e =
    elim (atomic-cases s s' r (process_locked c pk request s) e) [
      | inl same ↦ stays s s' same
      | inr (run, returned) ↦
          let (period, _, _, way) =
            Ensures-elim (IsProcessed c pk request s) (process_locked c pk request s) (run, s')
              (process_locked-Ensures c pk request s) returned in
          elim way [
            | inl created ↦
                IsCreated-IsRunStep c period (input_snapshot period.pk s.inputs) request none s s'
                  run created
            | inr (_, same) ↦ stays s s' same
          ]
    ]

adjust_locked-IsRunStep :
    (c : Context) (period : PayrollPeriod) (inputs : List InputItem) (reason : String)
    (actor : User) (request : RunRequest) (s s' : PayrollStore) (r : Result CalculationRun)
    → atomic s (adjust_locked c period inputs reason actor request s) ≡ (r, s')
    → IsRunStep s s'
adjust_locked-IsRunStep c period inputs reason actor request s s' r e =
    let m = adjust_locked c period inputs reason actor request s in
    elim (atomic-cases s s' r m e) [
      | inl same ↦ stays s s' same
      | inr (run, returned) ↦
          let (between, created, written) =
            Ensures-elim (IsAdjusted c period inputs reason actor request s) m (run, s')
              (adjust_locked-Ensures c period inputs reason actor request s) returned in
          subst (λ t. IsRunStep s t) (sym written)
            (IsCreated-IsRunStep c period (map serialized inputs) request
              (newest_run period.pk s.runs) s between run created)
    ]

-- `process_payroll` leaves the store, or makes one step on what the other requests left.
pub process_payroll-IsRunStep :
    (c : Context) (others : PayrollStore → PayrollStore) (organization pk : ℕ)
    (request : RunRequest) (s s' : PayrollStore) (r : Result CalculationRun)
    → process_payroll c others organization pk request s ≡ (r, s')
    → (s' ≡ s) ⊎ IsRunStep (others s) s'
unfolding process_payroll
process_payroll-IsRunStep c others organization pk request s s' r e =
    let fresh = atomic (others s) (process_locked c pk request (others s)) in
    elim (unless_stored-outcome (run_by_key organization request.idempotency_key s.runs) s s' r
      fresh e) [
        | inl same ↦ inl same
        | inr new ↦ inr (process_locked-IsRunStep c pk request (others s) s' r new)
      ]

adjust_checked-IsRunStep :
    (checked : Result (Unit {0})) (s s' : PayrollStore) (r : Result CalculationRun)
    (rest : Result CalculationRun × PayrollStore)
    → (rest ≡ (r, s') → IsRunStep s s')
    → after_checks checked s rest ≡ (r, s')
    → IsRunStep s s'
adjust_checked-IsRunStep (err x) s s' r rest step e = stays s s' cc
adjust_checked-IsRunStep (ok _) s s' r rest step e = step e

pub create_adjustment_run-IsRunStep :
    (c : Context) (period : PayrollPeriod) (inputs : List InputItem) (reason : String)
    (actor : User) (request : RunRequest) (s s' : PayrollStore) (r : Result CalculationRun)
    → create_adjustment_run c period inputs reason actor request s ≡ (r, s')
    → IsRunStep s s'
unfolding create_adjustment_run
create_adjustment_run-IsRunStep c period inputs reason actor request s s' r e =
    let by_actor = record request { actor = some actor.pk } in
    let fresh = atomic s (adjust_locked c period inputs reason actor by_actor s) in
    adjust_checked-IsRunStep (check_adjustment c period actor) s s' r
      (unless_stored (run_by_key period.organization request.idempotency_key s.runs) s fresh)
      (λ rest.
        elim (unless_stored-outcome (run_by_key period.organization request.idempotency_key s.runs)
          s s' r fresh rest) [
            | inl same ↦ stays s s' same
            | inr new ↦ adjust_locked-IsRunStep c period inputs reason actor by_actor s s' r new
          ])
      e

pub same-IsWellFormed :
    (s s' : PayrollStore)
    → s'.runs ≡ s.runs
    → s'.next_run ≡ s.next_run
    → IsWellFormed s
    → IsWellFormed s'
same-IsWellFormed s s' same next (again, unique, numbered) = (
  subst (All IsReproducible) (sym same) again,
  subst HasUniqueKeys (sym same) unique,
  subst (λ n. All (λ r. r.pk < n) s'.runs) (sym next)
      (subst (All (λ r. r.pk < s.next_run)) (sym same) numbered),
)

pub IsRunStep-IsWellFormed :
    (s s' : PayrollStore) → IsRunStep s s' → IsWellFormed s → IsWellFormed s'
IsRunStep-IsWellFormed s s' (_, _, inl (same, next)) h = same-IsWellFormed s s' same next h
IsRunStep-IsWellFormed s s' (_, _, inr (run, grown, next, pk, made, fresh))
      (again, unique, numbered) =
    (
      subst (All IsReproducible) (sym grown)
          (All-append IsReproducible s.runs (run ∷ []) again (made, tt)),
      subst HasUniqueKeys (sym grown) (HasUniqueKeys-append s.runs run unique fresh),
      subst (λ n. All (λ r. r.pk < n) s'.runs) (sym next)
          (subst (All (λ r. r.pk < s.next_run + 1)) (sym grown) (
            All-append (λ r. r.pk < s.next_run + 1) s.runs (run ∷ [])
              (All-map (λ r. r.pk < s.next_run) (λ r. r.pk < s.next_run + 1) s.runs
                (λ r h. omega (arith, h)) numbered)
              (omega (arith, pk), tt))),
    )
