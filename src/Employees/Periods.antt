-- ===== src/Employees/Periods.antt =====
-- Effective-dated records of employees: `validate_employee_period` of apps/employees/models.py and
-- the `clean` of the tables that call it. One table is a list of the records as the check reads them;
-- `kind`, `jurisdiction` and `product` are missing where the table has no such field.
pub mod Disjoint
use payroll_management_syste.Prelude.{
  ℕ, String, Bool, true, false, not, ◌&&◌, Option, none, some, List, [], ◌∷◌, ◌++◌, str_eq, leb,
  ◌==◌, if◌then◌else◌, any, find, update_where,
}
use payroll_management_syste.Outcome.{
  or_raise, ok, Result, validation_error, raise_if, raise_unless, ◌>>=◌, ◌>>◌,
}
use payroll_management_syste.Employees.Models.{Employee, is_before, employee_by_key}

pub record EmployeePeriod : Type 0 where
  pub pk : ℕ
  pub organization : ℕ
  pub employee : ℕ
  pub kind : Option String
  pub jurisdiction : Option String
  pub product : Option ℕ
  pub effective_from : ℕ
  pub effective_to : Option ℕ
  pub archived_at : Option ℕ

-- `PayrollProduct` and `BenefitPlan`, as far as the check reads them.
pub record Product : Type 0 where
  pub pk : ℕ
  pub organization : ℕ

abbrev pub is_stored_active : Option ℕ → Bool
is_stored_active none = true
is_stored_active (some _) = false

-- A filter on a field that the table may not have.
abbrev pub has_text : Option String → Option String → Bool
has_text none other = true
has_text (some text) none = false
has_text (some text) (some other) = str_eq other text

abbrev pub has_product : Option ℕ → Option ℕ → Bool
has_product none other = true
has_product (some product) none = false
has_product (some product) (some other) = other == product

-- The filters by employee, kind, jurisdiction and product.
unfoldable pub is_same_series : EmployeePeriod → EmployeePeriod → Bool
is_same_series row other =
    other.employee == row.employee
    && has_text row.kind other.kind
    && has_text row.jurisdiction other.jurisdiction
    && has_product row.product other.product

-- `Q(effective_to__isnull=True) | Q(effective_to__gte=day)`
abbrev pub ends_after : Option ℕ → ℕ → Bool
ends_after none day = true
ends_after (some stop) day = leb day stop

-- `filter(effective_from__lte=effective_to)`, if the row has an end.
abbrev pub starts_before : Option ℕ → ℕ → Bool
starts_before none start = true
starts_before (some stop) start = leb start stop

-- `conflicts`
unfoldable pub is_conflict : EmployeePeriod → EmployeePeriod → Bool
unfolding is_same_series
is_conflict row other =
    not (other.pk == row.pk)
    && is_stored_active other.archived_at
    && is_same_series row other
    && ends_after other.effective_to row.effective_from
    && starts_before row.effective_to other.effective_from

unfoldable pub check_product : List Product → EmployeePeriod → Result (Unit {0})
check_product products row = elim row.product [
  | none ↦ ok tt
  | some pk ↦ do
    product ←
        or_raise (find (λ p. p.pk == pk) products) (validation_error "the product does not exist")
    raise_unless (product.organization == row.organization)
        (validation_error "product must belong to the same organization")
]

-- `validate_employee_period`, for a record that names an employee.
unfoldable pub validate_employee_period :
    List Employee → List Product → List EmployeePeriod → EmployeePeriod → Result (Unit {0})
validate_employee_period employees products table row = do
  employee ←
      or_raise (employee_by_key row.employee employees)
        (validation_error "the employee does not exist")
  raise_unless (employee.organization == row.organization)
      (validation_error "employee must belong to the same organization")
  check_product products row
  raise_if (any (is_conflict row) table)
      (validation_error "effective date range overlaps an existing active record")

-- `EffectiveDatedOrganizationModel.clean` and `EmployeeEffectiveDatedModel.clean`
unfoldable pub clean_employee_period :
    List Employee → List Product → List EmployeePeriod → EmployeePeriod → Result (Unit {0})
clean_employee_period employees products table row = do
  raise_if (is_before row.effective_to row.effective_from)
      (validation_error "effective end date cannot precede the start date")
  validate_employee_period employees products table row

-- The stored row with the key is replaced, or a new row is added.
abbrev pub put_row : EmployeePeriod → List EmployeePeriod → List EmployeePeriod
put_row row table =
    if any (λ r. r.pk == row.pk) table
    then update_where (λ r. r.pk == row.pk) (λ _. row) table
    else table ++ row ∷ []

-- `save` of a record that was cleaned.
unfoldable pub save_employee_period :
    List Employee
    → List Product
    → EmployeePeriod
    → List EmployeePeriod
    → Result (List EmployeePeriod)
save_employee_period employees products row table = do
  clean_employee_period employees products table row
  ok (put_row row table)

-- `ArchivableOrganizationModel.archive` of the stored record with that key, at that time.
unfoldable pub archive_period : ℕ → ℕ → List EmployeePeriod → List EmployeePeriod
archive_period pk now = update_where (λ r. r.pk == pk) (λ r. record r { archived_at = some now })
