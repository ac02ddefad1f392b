-- ===== src/Employees/Profiles.antt =====
-- `Employee.clean` and `full_clean` of apps/employees/models.py. django's checks of the fields run
-- before `clean`, and those of the constraints after it; whether a text is an email address is
-- django's to say.
pub mod Status
use payroll_management_syste.Prelude.{
  ℕ, String, Bool, true, false, not, ◌&&◌, ◌||◌, Option, none, some, List, str_eq, leb, ◌==◌, any,
}
use payroll_management_syste.Outcome.{ok, Result, validation_error, raise_if, raise_unless, ◌>>◌}
use payroll_management_syste.Prelude.Text.{text_length}
use payroll_management_syste.Organizations.Validators.{validate_identifier}
use payroll_management_syste.Employees.Models.{
  EmploymentStatus, Employee, terminated, status_code, is_allowed_transition, is_present, is_before,
  employee_by_key,
}

-- The status before the change, against the status of the row.
unfoldable pub clean_transition : Option Employee → EmploymentStatus → Result (Unit {0})
clean_transition none status = ok tt
clean_transition (some previous) status =
    raise_unless
      (status_code previous.status == status_code status
        || is_allowed_transition previous.status status)
      (validation_error "cannot make this transition of the employment status")

unfoldable pub is_terminated : EmploymentStatus → Bool
is_terminated terminated = true
is_terminated _ = false

-- `Employee.clean`
unfoldable pub clean_employee : List Employee → Employee → Result (Unit {0})
clean_employee employees e = do
  raise_if (is_before e.termination_date e.hire_date)
      (validation_error "termination date cannot precede hire date")
  raise_if (is_terminated e.status && not (is_present e.termination_date))
      (validation_error "terminated employees require a termination date")
  clean_transition (employee_by_key e.pk employees) e.status

-- A text of a required field of that length.
abbrev is_filled : ℕ → String → Bool
is_filled limit text = not (str_eq text "") && leb (text_length text) limit

-- The checks of the fields. A field that may be blank is not checked further when it is.
unfoldable pub clean_fields : (String → Bool) → Employee → Result (Unit {0})
clean_fields is_email e = do
  raise_unless (is_filled 50 e.employee_number) (validation_error "employee_number")
  validate_identifier e.employee_number
  raise_unless (leb (text_length e.preferred_name) 100) (validation_error "preferred_name")
  raise_unless (is_filled 100 e.given_name) (validation_error "given_name")
  raise_unless (is_filled 100 e.family_name) (validation_error "family_name")
  raise_unless
      (str_eq e.work_email "" || (is_email e.work_email && leb (text_length e.work_email) 254))
      (validation_error "work_email")
  raise_unless (leb (text_length e.work_phone) 50) (validation_error "work_phone")

-- "unique_employee_number_per_org"
abbrev pub is_same_number : Employee → Employee → Bool
is_same_number e other =
    not (other.pk == e.pk)
    && other.organization == e.organization
    && str_eq other.employee_number e.employee_number

-- `full_clean`
unfoldable pub full_clean_employee : (String → Bool) → List Employee → Employee → Result (Unit {0})
full_clean_employee is_email employees e = do
  clean_fields is_email e
  clean_employee employees e
  raise_if (any (is_same_number e) employees) (validation_error "employee number already exists")
