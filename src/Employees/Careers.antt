-- ===== src/Employees/Careers.antt =====
-- Departments, positions, qualifications, skills, experience, employment history and contracts of
-- apps/employees/models.py: the rows and their checks. A foreign key is the number of its row.
use payroll_management_syste.Prelude.{
  ℕ, String, Bool, false, not, ◌&&◌, Option, none, some, List, str_eq, ltb, ◌==◌, any, find,
}
use payroll_management_syste.Outcome.{
  Result, ok, validation_error, or_raise, raise_if, raise_unless, ◌>>=◌, ◌>>◌,
}
use payroll_management_syste.Decimal.{Decimal, whole, lt}
use payroll_management_syste.Organizations.Validators.{validate_identifier}
use payroll_management_syste.Employees.Models.{Employee, EmploymentStatus}

pub record Department : Type 0 where
  pub pk : ℕ
  pub organization : ℕ
  pub code : String
  pub name : String

pub record Position : Type 0 where
  pub pk : ℕ
  pub organization : ℕ
  pub code : String
  pub title : String
  pub department : ℕ

abbrev pub department_by_key : ℕ → List Department → Option Department
department_by_key pk = find (λ d. d.pk == pk)

-- `full_clean` of a department: its code, and "unique_department_code_per_org".
unfoldable pub clean_department : List Department → Department → Result (Unit {0})
clean_department departments d = do
  validate_identifier d.code
  raise_if
      (any (λ x. not (x.pk == d.pk) && x.organization == d.organization && str_eq x.code d.code)
        departments)
      (validation_error "a department with this code exists")

-- `full_clean` of a position: `Position.clean`, its code and "unique_position_code_per_org".
unfoldable pub clean_position : List Department → List Position → Position → Result (Unit {0})
clean_position departments positions p = do
  validate_identifier p.code
  d ←
      or_raise (department_by_key p.department departments)
        (validation_error "the department does not exist")
  raise_unless (p.organization == d.organization)
      (validation_error "department must belong to the same organization")
  raise_if
      (any (λ x. not (x.pk == p.pk) && x.organization == p.organization && str_eq x.code p.code)
        positions)
      (validation_error "a position with this code exists")

-- `validate_employee_ownership`
unfoldable pub validate_employee_ownership : List Employee → ℕ → ℕ → Result (Unit {0})
validate_employee_ownership employees employee organization = do
  e ←
      or_raise (find (λ e. e.pk == employee) employees)
        (validation_error "the employee does not exist")
  raise_unless (organization == e.organization)
      (validation_error "employee must belong to the same organization")

pub record Qualification : Type 0 where
  pub pk : ℕ
  pub organization : ℕ
  pub employee : ℕ
  pub name : String
  pub issuing_body : String
  pub awarded_on : Option ℕ
  pub expires_on : Option ℕ

-- `awarded_on and expires_on and expires_on < awarded_on`
abbrev pub expires_early : Option ℕ → Option ℕ → Bool
expires_early none expires = false
expires_early (some awarded) none = false
expires_early (some awarded) (some expires) = ltb expires awarded

abbrev pub is_same_qualification : Qualification → Qualification → Bool
is_same_qualification q x =
    not (x.pk == q.pk)
    && x.employee == q.employee
    && str_eq x.name q.name
    && str_eq x.issuing_body q.issuing_body

-- `full_clean`: `Qualification.clean` and "unique_employee_qualification".
unfoldable pub clean_qualification :
    List Employee → List Qualification → Qualification → Result (Unit {0})
clean_qualification employees qualifications q = do
  validate_employee_ownership employees q.employee q.organization
  raise_if (expires_early q.awarded_on q.expires_on)
      (validation_error "expiry date cannot precede award date")
  raise_if (any (is_same_qualification q) qualifications)
      (validation_error "this qualification exists")

pub record Skill : Type 0 where
  pub pk : ℕ
  pub organization : ℕ
  pub name : String

pub data Proficiency : Type 0 where
  basic intermediate advanced expert : Proficiency

pub record EmployeeSkill : Type 0 where
  pub pk : ℕ
  pub organization : ℕ
  pub employee : ℕ
  pub skill : ℕ
  pub proficiency : Proficiency
  pub years_experience : Decimal

-- `full_clean`: `EmployeeSkill.clean`, "unique_employee_skill" and "skill_experience_nonnegative".
unfoldable pub clean_employee_skill :
    List Employee → List Skill → List EmployeeSkill → EmployeeSkill → Result (Unit {0})
clean_employee_skill employees skills rows r = do
  validate_employee_ownership employees r.employee r.organization
  s ← or_raise (find (λ s. s.pk == r.skill) skills) (validation_error "the skill does not exist")
  raise_unless (r.organization == s.organization)
      (validation_error "skill must belong to the same organization")
  raise_if (any (λ x. not (x.pk == r.pk) && x.employee == r.employee && x.skill == r.skill) rows)
      (validation_error "this skill of the employee exists")
  raise_if (lt r.years_experience (whole 0)) (validation_error "years of experience are negative")

pub record Experience : Type 0 where
  pub organization : ℕ
  pub employee : ℕ
  pub employer : String
  pub title : String
  pub started_on : ℕ
  pub ended_on : Option ℕ

-- `Experience.clean`
unfoldable pub clean_experience : List Employee → Experience → Result (Unit {0})
clean_experience employees x = do
  validate_employee_ownership employees x.employee x.organization
  raise_if (expires_early (some x.started_on) x.ended_on)
      (validation_error "end date cannot precede start date")

-- `EmploymentHistory`, less the fields of an effective-dated record.
pub record Placement : Type 0 where
  pub organization : ℕ
  pub department : ℕ
  pub position : ℕ
  pub manager : Option ℕ
  pub status : EmploymentStatus
  pub location : String

unfoldable pub check_manager : List Employee → Option ℕ → ℕ → Result (Unit {0})
check_manager employees none organization = ok tt
check_manager employees (some manager) organization =
    validate_employee_ownership employees manager organization

-- `EmploymentHistory.clean`, after that of its base.
unfoldable pub clean_placement :
    List Employee → List Department → List Position → Placement → Result (Unit {0})
clean_placement employees departments positions h = do
  d ←
      or_raise (department_by_key h.department departments)
        (validation_error "the department does not exist")
  raise_unless (d.organization == h.organization)
      (validation_error "department must belong to the same organization")
  p ←
      or_raise (find (λ p. p.pk == h.position) positions)
        (validation_error "the position does not exist")
  raise_unless (p.organization == h.organization)
      (validation_error "position must belong to the same organization")
  check_manager employees h.manager h.organization
  raise_unless (p.department == h.department)
      (validation_error "position must belong to the selected department")

pub data EmploymentType : Type 0 where
  permanent fixed_term casual contractor : EmploymentType

-- `EmploymentContract`, less the fields of an effective-dated record.
pub record Contract : Type 0 where
  pub pk : ℕ
  pub organization : ℕ
  pub contract_number : String
  pub employment_type : EmploymentType
  pub hours_per_week : Decimal
  pub notice_days : ℕ

-- The field checks and constraints of a contract.
unfoldable pub check_contract : List Contract → Contract → Result (Unit {0})
check_contract contracts c = do
  validate_identifier c.contract_number
  raise_unless (lt (whole 0) c.hours_per_week) (validation_error "hours must be positive")
  raise_if
      (any
        (λ x.
          not (x.pk == c.pk)
          && x.organization == c.organization
          && str_eq x.contract_number c.contract_number)
        contracts)
      (validation_error "a contract with this number exists")
