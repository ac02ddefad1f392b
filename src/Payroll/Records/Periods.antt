-- ===== src/Payroll/Records/Periods.antt =====
-- What a period that is saved keeps of the row that was stored.
use payroll_management_syste.Prelude.{
  ℕ, ◌≡◌, refl, sym, ap, ◌∙◌, inl, inr, Bool, true, false, ◌&&◌, some, List, [], ◌∷◌, ◌++◌, ltb,
  ◌==◌, ==_iff, Bool-cases, any, find, update_where, find-Elem, Elem-any, find_sound,
}
use payroll_management_syste.Outcome.{
  ok, validation_error, or_raise, raise_if, raise_if-ok, raise_unless, raise_unless-ok, Ensures,
  Ensures-bind, Ensures-elim, Ensures-last, Ensures-const, >>=-const,
}
use payroll_management_syste.Payroll.Models.{
  PayrollPeriod, PayrollStore, period_by_key, is_protected, lifecycle_code,
}
use payroll_management_syste.Payroll.Records.{
  PaySchedule, save_period, put_period, clean_period, clean_stored, differs, is_same_period,
}

eq_self : (n : ℕ) → (n == n) ≡ true
eq_self n = (==_iff n n).1 refl

differs_self : (p : PayrollPeriod) → differs p p ≡ false
differs_self p =
    rw
      (
        eq_self p.organization,
        eq_self p.schedule,
        eq_self p.period_start,
        eq_self p.period_end,
        eq_self p.pay_date,
      )
      refl

find-updated :
    (pk : ℕ) (row : PayrollPeriod) (rows : List PayrollPeriod) (p : PayrollPeriod)
    → row.pk ≡ pk
    → period_by_key pk rows ≡ some p
    → period_by_key pk (update_where (λ q. q.pk == row.pk) (λ _. row) rows) ≡ some row
find-updated pk row [] p same e = cc
find-updated pk row (r ∷ rows) p same e = elim (Bool-cases (r.pk == row.pk)) [
  | inl t ↦ rw (t, same, eq_self pk) refl
  | inr f ↦
      let other : (r.pk == pk) ≡ false = ap (λ k. r.pk == k) (sym same) ∙ f in
      rw (f, other) (find-updated pk row rows p same (rw other at e))
]

find-updated_other :
    (pk : ℕ) (row : PayrollPeriod) (rows : List PayrollPeriod)
    → (row.pk == pk) ≡ false
    → period_by_key pk (update_where (λ q. q.pk == row.pk) (λ _. row) rows) ≡ period_by_key pk rows
find-updated_other pk row [] apart = refl
find-updated_other pk row (r ∷ rows) apart = elim (Bool-cases (r.pk == row.pk)) [
  | inl t ↦
      let other : (r.pk == pk) ≡ false = ap (λ k. k == pk) ((==_iff r.pk row.pk).0 t) ∙ apart in
      rw (t, apart, other) (find-updated_other pk row rows apart)
  | inr f ↦ rw (f, find-updated_other pk row rows apart) refl
]

find-appended_other :
    (pk : ℕ) (row : PayrollPeriod) (rows : List PayrollPeriod)
    → (row.pk == pk) ≡ false
    → period_by_key pk (rows ++ row ∷ []) ≡ period_by_key pk rows
find-appended_other pk row [] apart = rw apart refl
find-appended_other pk row (r ∷ rows) apart = rw (find-appended_other pk row rows apart) refl

pub find-kept :
    (pk : ℕ) (row : PayrollPeriod) (rows : List PayrollPeriod)
    → (row.pk == pk) ≡ false
    → period_by_key pk (put_period row rows) ≡ period_by_key pk rows
find-kept pk row rows apart = elim (Bool-cases (any (λ q. q.pk == row.pk) rows)) [
  | inl t ↦ rw t (find-updated_other pk row rows apart)
  | inr f ↦ rw f (find-appended_other pk row rows apart)
]

find-put :
    (pk : ℕ) (row : PayrollPeriod) (rows : List PayrollPeriod) (p : PayrollPeriod)
    → row.pk ≡ pk
    → period_by_key pk rows ≡ some p
    → period_by_key pk (put_period row rows) ≡ some row
find-put pk row rows p same e =
    let stored : any (λ q. q.pk == row.pk) rows ≡ true =
      Elem-any (λ q. q.pk == row.pk) rows p (find-Elem (λ q. q.pk == pk) rows p e)
        (ap (λ k. p.pk == k) same ∙ find_sound (λ q. q.pk == pk) rows p e) in
    rw stored (find-updated pk row rows p same e)

-- The row `p'` has the status of `p` and, if `p` is protected, its organization, schedule and
-- dates.
abbrev KeepsRow : PayrollPeriod → PayrollPeriod → Type 0
KeepsRow p p' =
    (lifecycle_code p'.status ≡ lifecycle_code p.status)
    × (is_protected p.status ≡ true → differs p p' ≡ false)

guarded : (a b : Bool) → (a && b) ≡ false → a ≡ true → b ≡ false
guarded true b h e = h
guarded false b h e = cc

clean_stored-Ensures :
    (row p : PayrollPeriod) → Ensures (λ _. KeepsRow p row) (clean_stored row (some p))
unfolding clean_stored
clean_stored-Ensures row p =
    let P = λ (_ : Unit {0}). KeepsRow p row in
    Ensures-bind P
      (raise_unless (lifecycle_code p.status == lifecycle_code row.status)
        (validation_error "use the payroll lifecycle service for status transitions"))
      _
      λ _ same.
        Ensures-last P
          (raise_if (is_protected p.status && differs p row)
            (validation_error "locked and paid payroll periods cannot be modified"))
          λ _ fixed. (
            sym ((==_iff _ _).0 (raise_unless-ok _ _ same)),
            λ shut. guarded (is_protected p.status) (differs p row) (raise_if-ok _ _ fixed) shut,
          )

clean_period-Ensures :
    (schedules : List PaySchedule) (periods : List PayrollPeriod) (row p : PayrollPeriod)
    → period_by_key row.pk periods ≡ some p
    → Ensures (λ _. KeepsRow p row) (clean_period schedules periods row)
unfolding clean_period
clean_period-Ensures schedules periods row p found =
    let P = λ (_ : Unit {0}). KeepsRow p row in
    Ensures-bind P
      (or_raise (find (λ x. x.pk == row.schedule) schedules)
        (validation_error "the schedule does not exist"))
      _
      λ schedule _.
        Ensures-bind P
          (raise_unless (schedule.organization == row.organization)
            (validation_error "schedule must belong to the payroll period organization"))
          _
          λ _ _.
            Ensures-bind P
              (raise_if (ltb row.period_end row.period_start)
                (validation_error "period end cannot precede period start"))
              _
              λ _ _. Ensures-bind P (clean_stored row (period_by_key row.pk periods)) _ λ u kept.
                Ensures-const P
                  (raise_if (any (is_same_period row) periods)
                    (validation_error "payroll period already exists"))
                  λ _.
                    Ensures-elim (λ _. KeepsRow p row) (clean_stored row (some p)) u
                      (clean_stored-Ensures row p) (ap (clean_stored row) (sym found) ∙ kept)

-- Saving a period keeps the status of every stored period, and the organization, the schedule and
-- the dates of every protected one.
pub save_period_keeps :
    (schedules : List PaySchedule) (row : PayrollPeriod) (s s' : PayrollStore) (pk : ℕ)
    (p : PayrollPeriod)
    → period_by_key pk s.periods ≡ some p
    → save_period schedules row s ≡ ok s'
    → (p' : PayrollPeriod) × (period_by_key pk s'.periods ≡ some p') × KeepsRow p p'
unfolding save_period
save_period_keeps schedules row s s' pk p found e =
    let P = λ (t : PayrollStore).
      (p' : PayrollPeriod) × (period_by_key pk t.periods ≡ some p') × KeepsRow p p' in
    Ensures-elim P (save_period schedules row s) s'
      (Ensures-bind P (clean_period schedules s.periods row) _ λ u cleaned.
        elim (Bool-cases (row.pk == pk)) [
          | inl t ↦
              let same = (==_iff row.pk pk).0 t in
              (
                row,
                find-put pk row s.periods p same found,
                Ensures-elim (λ _. KeepsRow p row) (clean_period schedules s.periods row) u
                    (clean_period-Ensures schedules s.periods row p
                      (ap (λ k. period_by_key k s.periods) same ∙ found))
                    cleaned,
              )
          | inr f ↦ (p, find-kept pk row s.periods f ∙ found, (refl, λ _. differs_self p))
        ])
      e

pub save_period-written :
    (schedules : List PaySchedule) (row : PayrollPeriod) (s s' : PayrollStore)
    → save_period schedules row s ≡ ok s'
    → s' ≡ record s { periods = put_period row s.periods }
unfolding save_period
save_period-written schedules row s s' e = sym (
    >>=-const (clean_period schedules s.periods row)
      (record s { periods = put_period row s.periods }) s' e)
