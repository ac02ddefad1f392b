-- ===== src/Employees/Models.antt =====
-- apps/employees/models.py: the profile of an employee with its restricted records, and the requests
-- of a data subject. A foreign key is the number of the row that it names, a date its ordinal. The
-- encrypted fields hold the texts that they are read back as. The times at which a row was created
-- and updated are left out.
use payroll_management_syste.Prelude.{
  ℕ, String, Bool, true, false, Option, none, some, List, ltb, ◌==◌, find,
}

-- `EmploymentStatus`
pub data EmploymentStatus : Type 0 where
  draft active leave terminated archived : EmploymentStatus

abbrev pub status_code : EmploymentStatus → ℕ
status_code draft = 0
status_code active = 1
status_code leave = 2
status_code terminated = 3
status_code archived = 4

-- `ALLOWED_STATUS_TRANSITIONS`, for a status and the next one.
unfoldable pub is_allowed_transition : EmploymentStatus → EmploymentStatus → Bool
is_allowed_transition draft active = true
is_allowed_transition draft archived = true
is_allowed_transition active leave = true
is_allowed_transition active terminated = true
is_allowed_transition leave active = true
is_allowed_transition leave terminated = true
is_allowed_transition terminated archived = true
is_allowed_transition _ _ = false

pub record Employee : Type 0 where
  pub pk : ℕ
  pub organization : ℕ
  pub employee_number : String
  pub preferred_name : String
  pub given_name : String
  pub family_name : String
  pub work_email : String
  pub work_phone : String
  pub hire_date : ℕ
  pub termination_date : Option ℕ
  pub status : EmploymentStatus
  pub archived_at : Option ℕ
  pub retention_until : Option ℕ

-- `EmployeePersonalInformation`, one row for an employee.
pub record PersonalInformation : Type 0 where
  pub pk : ℕ
  pub organization : ℕ
  pub employee : ℕ
  pub legal_name : String
  pub date_of_birth : String
  pub personal_email : String
  pub personal_phone : String
  pub residential_address : String
  pub government_id_token : String
  pub emergency_contact : String
  pub archived_at : Option ℕ
  pub retention_until : Option ℕ

-- `EmployeeBankAccount`
pub record BankAccount : Type 0 where
  pub pk : ℕ
  pub organization : ℕ
  pub employee : ℕ
  pub account_holder : String
  pub account_number_token : String
  pub account_fingerprint : String
  pub routing_details : String
  pub currency : String
  pub is_primary : Bool
  pub archived_at : Option ℕ
  pub retention_until : Option ℕ

-- `EmployeeTaxProfile`
pub record TaxProfile : Type 0 where
  pub pk : ℕ
  pub organization : ℕ
  pub employee : ℕ
  pub jurisdiction : String
  pub tax_identifier_token : String
  pub tax_identifier_fingerprint : String
  pub elections : String
  pub effective_from : ℕ
  pub effective_to : Option ℕ
  pub archived_at : Option ℕ
  pub retention_until : Option ℕ

-- `PrivacyRequestType`
pub data PrivacyRequestType : Type 0 where
  export correction deletion retention_review : PrivacyRequestType

-- `PrivacyRequestStatus`
pub data PrivacyRequestStatus : Type 0 where
  pending approved completed rejected : PrivacyRequestStatus

pub record DataSubjectRequest : Type 0 where
  pub pk : ℕ
  pub organization : ℕ
  pub employee : ℕ
  pub request_type : PrivacyRequestType
  pub status : PrivacyRequestStatus
  pub requested_by : ℕ
  pub approved_by : Option ℕ
  pub reason : String
  pub legal_basis : String
  pub response_sha256 : String
  pub completed_at : Option ℕ

abbrev pub is_present : Option ℕ → Bool
is_present none = false
is_present (some _) = true

-- `self.termination_date and self.termination_date < self.hire_date`
abbrev pub is_before : Option ℕ → ℕ → Bool
is_before none start = false
is_before (some day) start = ltb day start

abbrev pub employee_by_key : ℕ → List Employee → Option Employee
employee_by_key pk = find (λ e. e.pk == pk)
