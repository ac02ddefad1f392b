-- ===== src/Payroll/History/Led.antt =====
-- How the approvals lead a period through the lifecycle.
use payroll_management_syste.Prelude.{
  none, ◌⊎◌, ℕ, ◌+◌, ◌≤◌, ◌≡◌, refl, sym, ap, subst, ◌∙◌, inl, inr, true, List, [], ◌∷◌, ◌++◌, map,
  append-nil, append_assoc, arith, ◌==◌, ==_iff, Bool-cases, select,
}
use payroll_management_syste.Payroll.Models.{
  period_by_key, PayrollStore, PayrollApproval, lifecycle_code,
}
use payroll_management_syste.Payroll.History.{progress, level}
use payroll_management_syste.Payroll.History.Steps.{KeepsPeriods, IsStep}
use payroll_management_syste.Payroll.History.Stages.{stages-step, stages-join, stages-same, stages}

-- The stages that the approvals of a period record, oldest first.
abbrev pub trail : ℕ → List PayrollApproval → List ℕ
trail pk approvals = map (λ a. lifecycle_code a.to_status) (select (λ a. a.period == pk) approvals)

-- The approvals that are new in `t` lead a period from where it began to where it is: a period that
-- was stored in `s` began where it was then, a later one where it was created.
abbrev pub IsLed : ℕ → PayrollStore → PayrollStore → Type 0
IsLed pk s t =
    (begun : ℕ) × (begun ≤ level pk t)
    × ((begun ≡ level pk s) ⊎ (period_by_key pk s.periods ≡ none))
    × (trail pk t.approvals ≡ trail pk s.approvals ++ stages begun (level pk t))

trail-append :
    (pk : ℕ) (xs ys : List PayrollApproval) → trail pk (xs ++ ys) ≡ trail pk xs ++ trail pk ys
trail-append pk [] ys = refl
trail-append pk (x ∷ xs) ys = elim (Bool-cases (x.period == pk)) [
  | inl t ↦ rw (t, trail-append pk xs ys) refl
  | inr f ↦ rw (f, trail-append pk xs ys) refl
]

-- A period that stays where it is, without an approval.
pub unled :
    (pk : ℕ) (s t : PayrollStore)
    → trail pk t.approvals ≡ trail pk s.approvals
    → level pk t ≡ level pk s
    → IsLed pk s t
unled pk s t same stays = (
  level pk s,
  omega (arith, stays),
  inl refl,
  same
      ∙ sym (append-nil (trail pk s.approvals))
      ∙ ap (λ xs. trail pk s.approvals ++ xs)
          (sym (stages-same (level pk s)) ∙ ap (stages (level pk s)) (sym stays)),
)

pub IsLed-trans :
    (pk : ℕ) (s a b : PayrollStore) → KeepsPeriods s a → IsLed pk s a → IsLed pk a b → IsLed pk s b
unfolding stages
IsLed-trans pk s a b kept (begun, low, way, led) (begun', low', inl at, led') =
    let up : level pk a ≤ level pk b = subst (λ n. n ≤ level pk b) at low' in
    (
      begun,
      omega (arith, low, up),
      way,
      led'
          ∙ ap (λ xs. xs ++ stages begun' (level pk b)) led
          ∙ append_assoc (trail pk s.approvals) (stages begun (level pk a)) _
          ∙ ap (λ n. trail pk s.approvals ++ (stages begun (level pk a) ++ stages n (level pk b)))
              at
          ∙ ap (λ xs. trail pk s.approvals ++ xs)
              (stages-join begun (level pk a) (level pk b) low up),
    )
IsLed-trans pk s a b kept (begun, low, way, led) (begun', low', inr absent, led') =
    let unmoved : stages begun (level pk a) ≡ [] = ap (stages begun) (ap progress absent) in
    (
      begun',
      low',
      inr (kept pk absent),
      led'
          ∙ ap (λ xs. xs ++ stages begun' (level pk b))
              (led ∙ ap (λ xs. trail pk s.approvals ++ xs) unmoved ∙ append-nil _),
    )

-- The period that is moved goes one stage further, with one approval.
moved-IsLed :
    (pk : ℕ) (s t : PayrollStore) (a : PayrollApproval)
    → a.period ≡ pk
    → t.approvals ≡ s.approvals ++ a ∷ []
    → lifecycle_code a.to_status ≡ level a.period s + 1
    → level a.period t ≡ level a.period s + 1
    → IsLed pk s t
moved-IsLed pk s t a same approvals code next =
    let here : (a.period == pk) ≡ true = (==_iff a.period pk).1 same in
    let one : trail pk (a ∷ []) ≡ lifecycle_code a.to_status ∷ [] = rw here refl in
    let grown : level pk t ≡ level pk s + 1 =
      ap (λ k. level k t) (sym same) ∙ next ∙ ap (λ k. level k s + 1) same in
    let stage : lifecycle_code a.to_status ≡ level pk t =
      code ∙ sym next ∙ ap (λ k. level k t) same in
    (
      level pk s,
      omega (arith, grown),
      inl refl,
      ap (trail pk) approvals
          ∙ trail-append pk s.approvals (a ∷ [])
          ∙ ap (λ xs. trail pk s.approvals ++ xs)
              (one
                ∙ ap (λ n. n ∷ []) stage
                ∙ ap (λ xs. xs ++ level pk t ∷ []) (sym (stages-same (level pk s)))
                ∙ sym (stages-step (level pk s) (level pk t) (level pk s) grown (omega arith))),
    )

pub IsStep-IsLed : (pk : ℕ) (s t : PayrollStore) → IsStep s t → IsLed pk s t
IsStep-IsLed pk s t (_, _, inl (approvals, levels)) =
    unled pk s t (ap (trail pk) approvals) (levels pk)
IsStep-IsLed pk s t (_, _, inr (inl (a, approvals, code, next, others, _))) =
    elim (Bool-cases (a.period == pk)) [
      | inl here ↦ moved-IsLed pk s t a ((==_iff a.period pk).0 here) approvals code next
      | inr away ↦
          let none_here : trail pk (a ∷ []) ≡ [] = rw away refl in
          unled pk s t
            (ap (trail pk) approvals
              ∙ trail-append pk s.approvals (a ∷ [])
              ∙ ap (λ xs. trail pk s.approvals ++ xs) none_here
              ∙ append-nil (trail pk s.approvals))
            (others pk away)
    ]
IsStep-IsLed pk s t (_, _, inr (inr (approvals, new, missing, others))) =
    elim (Bool-cases (new == pk)) [
      | inr away ↦ unled pk s t (ap (trail pk) approvals) (others pk away)
      | inl here ↦ (
        level pk t,
        omega arith,
        inr (ap (λ k. period_by_key k s.periods) (sym ((==_iff new pk).0 here)) ∙ missing),
        ap (trail pk) approvals
            ∙ sym (append-nil (trail pk s.approvals))
            ∙ ap (λ xs. trail pk s.approvals ++ xs) (sym (stages-same (level pk t))),
      )
    ]
