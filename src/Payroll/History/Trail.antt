-- ===== src/Payroll/History/Trail.antt =====
-- What holds of every store that a history reaches.
use payroll_management_syste.Prelude.{
  All-append, All, ℕ, ◌≤◌, ◌≡◌, refl, sym, ap, subst, ◌∙◌, inl, inr, true, List, [], ◌∷◌, ◌++◌,
  append-nil, append_assoc, arith, ◌==◌, ==_iff, Bool-cases, any, any-append,
}
use payroll_management_syste.Payroll.Models.{PayrollStore, PayrollApproval, CalculationRun}
use payroll_management_syste.Payroll.Lifecycle.{needs_run, has_run}
use payroll_management_syste.Payroll.Processing.Invariant.{
  IsWellFormed, process_payroll-IsRunStep, create_adjustment_run-IsRunStep,
}
use payroll_management_syste.Payroll.History.{
  progress, History, level, start, saved_period, saved_input, deleted_input, transitioned,
  processed, adjusted,
}
use payroll_management_syste.Payroll.History.Steps.{
  KeepsPeriods, IsStep, KeepsRuns, IsStep-refl, IsRunStep-IsStep, transition_period-IsStep,
}
use payroll_management_syste.Payroll.History.Saves.{
  save_period-IsStep, IsInputStep-IsStep, save_input-IsInputStep, delete_input-IsInputStep,
}
use payroll_management_syste.Payroll.History.Led.{unled, IsLed-trans, IsStep-IsLed, IsLed}

-- What every step keeps, every history keeps.
History-keeps :
    (P : PayrollStore → PayrollStore → Type 0)
    → ((s : PayrollStore) → P s s)
    → ((s a b : PayrollStore) → P s a → P a b → P s b)
    → ((a b : PayrollStore) → IsStep a b → P a b)
    → (s t : PayrollStore) → History s t
    → P s t
History-keeps P same join step s _ start = same s
History-keeps P same join step s b (saved_period {a = a} schedules row h e) =
    join s a b (History-keeps P same join step s a h)
      (step a b (save_period-IsStep schedules row a b e))
History-keeps P same join step s b (saved_input {a = a} employees row h e) =
    join s a b (History-keeps P same join step s a h)
      (step a b (IsInputStep-IsStep a b (save_input-IsInputStep employees row a b e)))
History-keeps P same join step s b (deleted_input {a = a} row h e) =
    join s a b (History-keeps P same join step s a h)
      (step a b (IsInputStep-IsStep a b (delete_input-IsInputStep row a b e)))
History-keeps P same join step s b (transitioned {a = a} c pk to_status actor explanation r h e) =
    join s a b (History-keeps P same join step s a h)
      (step a b (transition_period-IsStep c pk to_status actor explanation a b r e))
History-keeps P same join step s b
      (processed {a = a} {between = m} c organization pk request r h meanwhile e) =
    join s a b (History-keeps P same join step s a h)
      (elim (process_payroll-IsRunStep c (λ _. m) organization pk request a b r e) [
        | inl stay ↦ step a b (IsStep-refl a b stay)
        | inr grown ↦
            join a m b (History-keeps P same join step a m meanwhile)
              (step m b (IsRunStep-IsStep m b grown))
      ])
History-keeps P same join step s b (adjusted {a = a} c period inputs reason actor request r h e) =
    join s a b (History-keeps P same join step s a h) (
      step a b (
        IsRunStep-IsStep a b
          (create_adjustment_run-IsRunStep c period inputs reason actor request a b r e)))

-- The new approvals lead every period to its status, and no stored period goes away.
abbrev pub HasTrails : PayrollStore → PayrollStore → Type 0
HasTrails s t = ((pk : ℕ) → IsLed pk s t) × KeepsPeriods s t

HasTrails-trans : (s a b : PayrollStore) → HasTrails s a → HasTrails a b → HasTrails s b
HasTrails-trans s a b (led, kept) (led', kept') =
    (λ pk. IsLed-trans pk s a b kept (led pk) (led' pk), λ pk missing. kept pk (kept' pk missing))

-- In every history, the approvals that are added for a period lead from the status it had at the
-- start, or was created in, to its present status, stage by stage without a gap or a repetition;
-- they stand behind the approvals of the start, and no period that is stored goes away.
pub History-HasTrails : (s t : PayrollStore) → History s t → HasTrails s t
History-HasTrails =
    History-keeps HasTrails (λ s. (λ pk. unled pk s s refl refl, λ pk missing. missing))
      HasTrails-trans (λ s t step. (λ pk. IsStep-IsLed pk s t step, step.1))

-- Every approval that needs a run stands next to a run of its period.
abbrev pub HasRuns : PayrollStore → Type 0
HasRuns s = All (λ a. needs_run a.to_status ≡ true → has_run a.period s ≡ true) s.approvals

kept_run : (pk : ℕ) (s t : PayrollStore) → KeepsRuns s t → has_run pk s ≡ true → has_run pk t ≡ true
kept_run pk s t (new, grown, _) h =
    ap (any (λ r. r.period == pk)) grown ∙ any-append (λ r. r.period == pk) s.runs new ∙ rw h refl

kept_runs :
    (s t : PayrollStore) (approvals : List PayrollApproval)
    → KeepsRuns s t
    → All (λ a. needs_run a.to_status ≡ true → has_run a.period s ≡ true) approvals
    → All (λ a. needs_run a.to_status ≡ true → has_run a.period t ≡ true) approvals
kept_runs s t [] kept h = tt
kept_runs s t (a ∷ approvals) kept (p, h) =
    (λ e. kept_run a.period s t kept (p e), kept_runs s t approvals kept h)

IsStep-HasRuns : (s t : PayrollStore) → IsStep s t → HasRuns s → HasRuns t
IsStep-HasRuns s t (kept, _, inl (approvals, _)) h =
    let P = λ (a : PayrollApproval). needs_run a.to_status ≡ true → has_run a.period t ≡ true in
    subst (All P) (sym approvals) (kept_runs s t s.approvals kept h)
IsStep-HasRuns s t (kept, _, inr (inr (approvals, _, _, _))) h =
    let P = λ (a : PayrollApproval). needs_run a.to_status ≡ true → has_run a.period t ≡ true in
    subst (All P) (sym approvals) (kept_runs s t s.approvals kept h)
IsStep-HasRuns s t (kept, _, inr (inl (a, approvals, _, _, _, ready))) h =
    let P = λ (a : PayrollApproval). needs_run a.to_status ≡ true → has_run a.period t ≡ true in
    subst (All P) (sym approvals) (
      All-append P s.approvals (a ∷ []) (kept_runs s t s.approvals kept h)
        (λ e. kept_run a.period s t kept (ready e), tt))

-- In every history each approval of a period for a status that needs a calculation run stands next
-- to a run of that period, if this holds at the start.
pub History-HasRuns : (s t : PayrollStore) → History s t → HasRuns s → HasRuns t
History-HasRuns s t h =
    History-keeps (λ a b. HasRuns a → HasRuns b) (λ _ x. x) (λ _ _ _ f g x. g (f x)) IsStep-HasRuns
      s t h

-- The stored evidence only grows, and no period goes back.
abbrev pub OnlyGrows : PayrollStore → PayrollStore → Type 0
OnlyGrows s t =
    (runs : List CalculationRun) × (approvals : List PayrollApproval) × (t.runs ≡ s.runs ++ runs)
    × (t.approvals ≡ s.approvals ++ approvals)
    × ((pk : ℕ) → level pk s ≤ level pk t)

IsStep-OnlyGrows : (s t : PayrollStore) → IsStep s t → OnlyGrows s t
IsStep-OnlyGrows s t ((new, grown, _), _, inl (approvals, levels)) =
    (new, [], grown, approvals ∙ sym (append-nil s.approvals), λ pk. omega (arith, levels pk))
IsStep-OnlyGrows s t ((new, grown, _), _, inr (inl (a, approvals, _, next, others, _))) = (
  new,
  a ∷ [],
  grown,
  approvals,
  λ pk. elim (Bool-cases (a.period == pk)) [
    | inr away ↦ omega (arith, others pk away)
    | inl here ↦
        subst (λ k. level k s ≤ level k t) ((==_iff a.period pk).0 here) (omega (arith, next))
  ],
)
IsStep-OnlyGrows s t ((new, grown, _), _, inr (inr (approvals, created, missing, others))) = (
  new,
  [],
  grown,
  approvals ∙ sym (append-nil s.approvals),
  λ pk. elim (Bool-cases (created == pk)) [
    | inr away ↦ omega (arith, others pk away)
    | inl here ↦
        let unbegun : level pk s ≡ 0 =
          ap (λ k. level k s) (sym ((==_iff created pk).0 here)) ∙ ap progress missing in
        omega (arith, unbegun)
  ],
)

OnlyGrows-trans : (s a b : PayrollStore) → OnlyGrows s a → OnlyGrows a b → OnlyGrows s b
OnlyGrows-trans s a b (r, p, runs, approvals, levels) (r', p', runs', approvals', levels') = (
  r ++ r',
  p ++ p',
  runs' ∙ ap (λ xs. xs ++ r') runs ∙ append_assoc s.runs r r',
  approvals' ∙ ap (λ xs. xs ++ p') approvals ∙ append_assoc s.approvals p p',
  λ pk. omega (arith, levels pk, levels' pk),
)

-- The runs and approvals at the start of a history are the first ones at its end, unchanged, and no
-- period is earlier in its lifecycle at the end than at the start.
pub History-OnlyGrows : (s t : PayrollStore) → History s t → OnlyGrows s t
History-OnlyGrows =
    History-keeps OnlyGrows
      (λ s. ([], [], sym (append-nil s.runs), sym (append-nil s.approvals), λ pk. omega arith))
      OnlyGrows-trans IsStep-OnlyGrows

IsStep-IsWellFormed : (s t : PayrollStore) → IsStep s t → IsWellFormed s → IsWellFormed t
IsStep-IsWellFormed s t ((_, _, keeps), _, _) = keeps

-- In every history the stored results of each run are those of its own rules on its own input
-- snapshot, no two runs of an organization have the same idempotency key, and the key of every run
-- is below the one that is to be given next, if all this holds at the start.
pub History-IsWellFormed : (s t : PayrollStore) → History s t → IsWellFormed s → IsWellFormed t
History-IsWellFormed s t h =
    History-keeps (λ a b. IsWellFormed a → IsWellFormed b) (λ _ x. x) (λ _ _ _ f g x. g (f x))
      IsStep-IsWellFormed s t h
