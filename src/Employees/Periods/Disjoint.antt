-- ===== src/Employees/Periods/Disjoint.antt =====
-- On any day at most one record of a series is in force, whatever is saved and archived.
use payroll_management_syste.Prelude.{
  ◌∙◌, Elem-update_where, ◌⊎◌, subst, ap, ℕ, ◌≤◌, String, ◌≡◌, refl, sym, inl, inr, Bool, true,
  false, Option, none, some, List, arith, str_eq_iff, ◌==◌, ==_iff, Bool-cases, any, Elem, Elem-any,
}
use payroll_management_syste.Effective.{is_effective, effective_sound}
use payroll_management_syste.Employees.Periods.{
  put_row, check_product, clean_employee_period, Product, validate_employee_period,
  save_employee_period, archive_period, starts_before, is_stored_active, is_same_series,
  is_conflict, has_text, has_product, ends_after, EmployeePeriod,
}
use payroll_management_syste.Employees.Models.{is_before, employee_by_key, Employee}
use payroll_management_syste.Prelude.Keyed.{Elem-single}
use payroll_management_syste.Outcome.{
  raise_if-ok, Ensures-last, raise_unless, validation_error, raise_if, or_raise, >>=-eq-ok,
  Ensures-bind, ok, Ensures, Ensures-elim,
}

-- The records that must not overlap: of one employee, and of one kind, jurisdiction and product.
abbrev pub SameSeries : EmployeePeriod → EmployeePeriod → Type 0
SameSeries a b =
    (a.employee ≡ b.employee)
    × (a.kind ≡ b.kind)
    × (a.jurisdiction ≡ b.jurisdiction)
    × (a.product ≡ b.product)

abbrev pub IsInForce : EmployeePeriod → ℕ → Type 0
IsInForce r day =
    (is_stored_active r.archived_at ≡ true)
    × (is_effective r.effective_from r.effective_to day ≡ true)

abbrev pub AtMostOne : EmployeePeriod → EmployeePeriod → Type 0
AtMostOne a b = SameSeries a b → (day : ℕ) → IsInForce a day → IsInForce b day → a.pk ≡ b.pk

abbrev pub AreDisjoint : List EmployeePeriod → Type 0
AreDisjoint table = (a b : EmployeePeriod) → Elem a table → Elem b table → AtMostOne a b

has_text_self : (t : Option String) → has_text t t ≡ true
has_text_self none = refl
has_text_self (some t) = (str_eq_iff t t).1 refl

has_product_self : (p : Option ℕ) → has_product p p ≡ true
has_product_self none = refl
has_product_self (some p) = (==_iff p p).1 refl

is_same_series_of : (a b : EmployeePeriod) → SameSeries a b → is_same_series a b ≡ true
unfolding is_same_series
is_same_series_of a b (e, k, j, p) =
    rw
      (
        ← e,
        (==_iff a.employee a.employee).1 refl,
        ← k,
        has_text_self a.kind,
        ← j,
        has_text_self a.jurisdiction,
        ← p,
        has_product_self a.product,
      )
      refl

SameSeries-sym : (a b : EmployeePeriod) → SameSeries a b → SameSeries b a
SameSeries-sym a b (e, k, j, p) = (sym e, sym k, sym j, sym p)

ends_after_day :
    (start day : ℕ) (stop : Option ℕ)
    → start ≤ day
    → ((s : ℕ) → stop ≡ some s → day ≤ s)
    → ends_after stop start ≡ true
ends_after_day start day none h k = refl
ends_after_day start day (some s) h k = let inside = k s refl in ground arith

starts_before_day :
    (start day : ℕ) (stop : Option ℕ)
    → start ≤ day
    → ((s : ℕ) → stop ≡ some s → day ≤ s)
    → starts_before stop start ≡ true
starts_before_day start day none h k = refl
starts_before_day start day (some s) h k = let inside = k s refl in ground arith

-- Two records in force on one day are in conflict, unless they are the same record.
no_conflict : (row other : EmployeePeriod) → is_conflict row other ≡ false → AtMostOne row other
unfolding is_conflict
no_conflict row other free series day (_, here) (kept, there) =
    let (after, until) = effective_sound row.effective_from row.effective_to day here in
    let (after', until') = effective_sound other.effective_from other.effective_to day there in
    let same = is_same_series_of row other series in
    let late = ends_after_day row.effective_from day other.effective_to after until' in
    let early = starts_before_day other.effective_from day row.effective_to after' until in
    elim (Bool-cases (other.pk == row.pk)) [
      | inl t ↦ sym ((==_iff other.pk row.pk).0 t)
      | inr f ↦
          let clash : ◌≡◌ {A = Bool} true false = rw (f, kept, same, late, early) at free in cc
    ]

AtMostOne-sym : (a b : EmployeePeriod) → AtMostOne a b → AtMostOne b a
AtMostOne-sym a b h series day x y = sym (h (SameSeries-sym b a series) day y x)

any-false :
    {A : Type 0} (test : A → Bool) (xs : List A) (x : A)
    → any test xs ≡ false
    → Elem x xs
    → test x ≡ false
any-false test xs x none_of m = elim (Bool-cases (test x)) [
  | inr f ↦ f
  | inl t ↦ let found = Elem-any test xs x m t in cc
]

validate-Ensures :
    (employees : List Employee) (products : List Product) (table : List EmployeePeriod)
    (row : EmployeePeriod)
    → Ensures
        (λ _. any (is_conflict row) table ≡ false)
        (validate_employee_period employees products table row)
unfolding validate_employee_period
validate-Ensures employees products table row =
    let P = λ (_ : Unit {0}). any (is_conflict row) table ≡ false in
    Ensures-bind P
      (or_raise (employee_by_key row.employee employees)
        (validation_error "the employee does not exist"))
      _
      λ employee _.
        Ensures-bind P
          (raise_unless (employee.organization == row.organization)
            (validation_error "employee must belong to the same organization"))
          _
          λ _ _. Ensures-bind P (check_product products row) _ λ _ _.
            Ensures-last P
              (raise_if (any (is_conflict row) table)
                (validation_error "effective date range overlaps an existing active record"))
              λ _ free. raise_if-ok _ _ free

save_employee_period-Ensures :
    (employees : List Employee) (products : List Product) (row : EmployeePeriod)
    (table : List EmployeePeriod)
    → Ensures
        (λ t. (any (is_conflict row) table ≡ false) × (t ≡ put_row row table))
        (save_employee_period employees products row table)
unfolding save_employee_period clean_employee_period
save_employee_period-Ensures employees products row table =
    let P = λ (t : List EmployeePeriod).
      (any (is_conflict row) table ≡ false) × (t ≡ put_row row table) in
    Ensures-bind P (clean_employee_period employees products table row) _ λ _ cleaned.
      let (_, _, valid) =
        >>=-eq-ok
          (raise_if (is_before row.effective_to row.effective_from)
            (validation_error "effective end date cannot precede the start date"))
          _ cleaned in
      (
        Ensures-elim (λ _. any (is_conflict row) table ≡ false)
            (validate_employee_period employees products table row) _
            (validate-Ensures employees products table row) valid,
        refl,
      )

-- A row of the table after a save is the saved row, or an old one.
Elem-put_row :
    (row y : EmployeePeriod) (table : List EmployeePeriod)
    → Elem y (put_row row table)
    → Elem y table ⊎ (y ≡ row)
Elem-put_row row y table m = elim (Bool-cases (any (λ r. r.pk == row.pk) table)) [
  | inl t ↦
      let (x, old, way) = Elem-update_where (λ r. r.pk == row.pk) (λ _. row) table y (rw t at m) in
      elim way [ inl (_, e) ↦ inr e | inr (_, e) ↦ inl (subst (λ z. Elem z table) (sym e) old) ]
  | inr f ↦ Elem-single y row table (rw f at m)
]

AtMostOne-self : (a b row : EmployeePeriod) → a ≡ row → b ≡ row → AtMostOne a b
AtMostOne-self a b row p q series day x y = ap (λ (r : EmployeePeriod). r.pk) (p ∙ sym q)

put_row-AreDisjoint :
    (row : EmployeePeriod) (table : List EmployeePeriod)
    → any (is_conflict row) table ≡ false
    → AreDisjoint table
    → AreDisjoint (put_row row table)
put_row-AreDisjoint row table free h a b m n =
    let apart = λ (x : EmployeePeriod) (old : Elem x table).
      no_conflict row x (any-false (is_conflict row) table x free old) in
    elim (Elem-put_row row a table m) [
      | inl old ↦ elim (Elem-put_row row b table n) [
        | inl old' ↦ h a b old old'
        | inr e ↦ subst (λ z. AtMostOne a z) (sym e) (AtMostOne-sym row a (apart a old))
      ]
      | inr e ↦ elim (Elem-put_row row b table n) [
        | inl old' ↦ subst (λ z. AtMostOne z b) (sym e) (apart b old')
        | inr e' ↦ AtMostOne-self a b row e e'
      ]
    ]

-- A record in force after an archiving was in the table before it, with the same terms.
archived_before :
    (pk now : ℕ) (table : List EmployeePeriod) (y : EmployeePeriod)
    → Elem y (archive_period pk now table)
    → is_stored_active y.archived_at ≡ true
    → Elem y table
unfolding archive_period
archived_before pk now table y m live =
    let (x, old, way) =
      Elem-update_where (λ (r : EmployeePeriod). r.pk == pk)
        (λ r. record r { archived_at = some now }) table y m in
    elim way [
      | inl (_, e) ↦
          let shut : is_stored_active y.archived_at ≡ false =
            ap (λ (r : EmployeePeriod). is_stored_active r.archived_at) e in
          cc
      | inr (_, e) ↦ subst (λ z. Elem z table) (sym e) old
    ]

-- What can happen to one table: records that were cleaned are saved, and records are archived. The
-- employees and the products are those of the time.
pub data TableHistory : List EmployeePeriod → List EmployeePeriod → Type 0 where
  start : {t : List EmployeePeriod} → TableHistory t t
  saved :
      {t a b : List EmployeePeriod} (employees : List Employee) (products : List Product)
      (row : EmployeePeriod)
      → TableHistory t a
      → save_employee_period employees products row a ≡ ok b
      → TableHistory t b
  archived :
      {t a : List EmployeePeriod} (pk now : ℕ)
      → TableHistory t a
      → TableHistory t (archive_period pk now a)

-- On any day at most one record of a series is in force: of two records of one employee, kind,
-- jurisdiction and product that are not archived and in force on the day, both have the same key.
-- Whatever is saved after its checks, and whatever is archived, keeps this true of a table.
pub TableHistory-AreDisjoint :
    {s t : List EmployeePeriod} → AreDisjoint s → TableHistory s t → AreDisjoint t
TableHistory-AreDisjoint h start = h
TableHistory-AreDisjoint h (saved {a = a} employees products row before e) =
    let (free, same) =
      Ensures-elim (λ t. (any (is_conflict row) a ≡ false) × (t ≡ put_row row a))
        (save_employee_period employees products row a) _
        (save_employee_period-Ensures employees products row a) e in
    subst AreDisjoint (sym same)
      (put_row-AreDisjoint row a free (TableHistory-AreDisjoint h before))
TableHistory-AreDisjoint h (archived {a = a} pk now before) =
    λ x y m n series day (live, within) (live', within').
      TableHistory-AreDisjoint h before x y (archived_before pk now a x m live)
        (archived_before pk now a y n live') series day (live, within) (live', within')
