-- ===== src/Employees/Privacy/Correction.antt =====
-- `correct_employee_data` of apps/employees/services/privacy.py. The changes are the items of its
-- dictionaries, in their order.
use payroll_management_syste.Prelude.{
  ℕ, ◌+◌, String, Bool, ◌&&◌, ◌||◌, none, some, List, [], ◌∷◌, ◌++◌, str_eq, ◌==◌, if◌then◌else◌,
  all, find, update_where,
}
use payroll_management_syste.Outcome.{
  Result, ok, validation_error, does_not_exist, or_raise, raise_unless, ◌>>=◌, ◌>>◌, atomic,
}
use payroll_management_syste.Organizations.{User}
use payroll_management_syste.Employees.Models.{
  Employee, PersonalInformation, DataSubjectRequest, PrivacyRequestType, employee_by_key,
}
use payroll_management_syste.Employees.Profiles.{full_clean_employee}
use payroll_management_syste.Employees.Privacy.{
  PrivacyContext, PrivacyStore, complete, check_execution,
}

abbrev pub FieldChanges : Type 0
FieldChanges = List (String × String)

-- `GENERAL_CORRECTION_FIELDS`
abbrev pub is_general_field : String → Bool
is_general_field field =
    str_eq field "preferred_name"
    || str_eq field "given_name"
    || str_eq field "family_name"
    || str_eq field "work_email"
    || str_eq field "work_phone"

-- `PERSONAL_CORRECTION_FIELDS`
abbrev pub is_personal_field : String → Bool
is_personal_field field =
    str_eq field "legal_name_encrypted"
    || str_eq field "date_of_birth_encrypted"
    || str_eq field "personal_email_encrypted"
    || str_eq field "personal_phone_encrypted"
    || str_eq field "residential_address_encrypted"
    || str_eq field "emergency_contact_encrypted"

-- `setattr(employee, field, value)`, for the fields that a correction may name.
abbrev pub set_general : String → String → Employee → Employee
set_general field value e =
    if str_eq field "preferred_name"
    then record e { preferred_name = value }
    else if str_eq field "given_name"
    then record e { given_name = value }
    else if str_eq field "family_name"
    then record e { family_name = value }
    else if str_eq field "work_email"
    then record e { work_email = value }
    else if str_eq field "work_phone"
    then record e { work_phone = value }
    else e

abbrev pub set_personal : String → String → PersonalInformation → PersonalInformation
set_personal field value p =
    if str_eq field "legal_name_encrypted"
    then record p { legal_name = value }
    else if str_eq field "date_of_birth_encrypted"
    then record p { date_of_birth = value }
    else if str_eq field "personal_email_encrypted"
    then record p { personal_email = value }
    else if str_eq field "personal_phone_encrypted"
    then record p { personal_phone = value }
    else if str_eq field "residential_address_encrypted"
    then record p { residential_address = value }
    else if str_eq field "emergency_contact_encrypted"
    then record p { emergency_contact = value }
    else p

-- `for field, value in changes.items(): setattr(row, field, value)`
unfoldable pub set_all : {A : Type 0} → (String → String → A → A) → FieldChanges → A → A
set_all setter [] row = row
set_all setter ((field, value) ∷ changes) row = set_all setter changes (setter field value row)

abbrev pub blank_personal : Employee → ℕ → PersonalInformation
blank_personal e pk = record {
  pk = pk;
  organization = e.organization;
  employee = e.pk;
  legal_name = "";
  date_of_birth = "";
  personal_email = "";
  personal_phone = "";
  residential_address = "";
  government_id_token = "";
  emergency_contact = "";
  archived_at = none;
  retention_until = none;
}

abbrev pub is_of_employee : Employee → PersonalInformation → Bool
is_of_employee e p = p.employee == e.pk

-- `get_or_create(employee=employee, …)`
unfoldable pub get_or_create : Employee → PrivacyStore → PersonalInformation × PrivacyStore
get_or_create e s = elim (find (is_of_employee e) s.personal_information) [
  | some p ↦ (p, s)
  | none ↦
      let p = blank_personal e s.next_personal in
      (
        p,
        record s {
          personal_information = s.personal_information ++ p ∷ [];
          next_personal = s.next_personal + 1;
        },
      )
]

-- The personal part. Only the named fields of the row are saved.
unfoldable pub correct_personal : Employee → FieldChanges → PrivacyStore → Result PrivacyStore
correct_personal e [] s = ok s
correct_personal e (change ∷ changes) s =
    let (p, created) = get_or_create e s in
    let named = change ∷ changes in
    raise_unless (p.organization == e.organization)
      (validation_error "employee must belong to the same organization")
    >> ok (record created {
      personal_information =
          update_where (λ x. x.pk == p.pk) (set_all set_personal named)
            created.personal_information;
    })

-- `save(update_fields=…)` of the general changes.
unfoldable pub save_general : Employee → FieldChanges → PrivacyStore → PrivacyStore
save_general e changes s = record s {
  employees = update_where (λ x. x.pk == e.pk) (set_all set_general changes) s.employees;
}

unfoldable pub correct_locked :
    PrivacyContext
    → DataSubjectRequest
    → User
    → FieldChanges
    → FieldChanges
    → PrivacyStore
    → Result (Unit {0} × PrivacyStore)
correct_locked c r actor general personal s = do
  check_execution c r actor PrivacyRequestType.correction
  raise_unless
      (all (λ x. is_general_field x.0) general && all (λ x. is_personal_field x.0) personal)
      (validation_error "correction contains a field that must use a specialized legal workflow")
  employee ← or_raise (employee_by_key r.employee s.employees) does_not_exist
  let corrected = set_all set_general general employee
  full_clean_employee c.is_email s.employees corrected
  s' ← correct_personal corrected personal (save_general employee general s)
  s'' ← complete c r actor "" s'
  ok (tt, s'')

unfoldable pub correct_employee_data :
    PrivacyContext
    → DataSubjectRequest
    → User
    → FieldChanges
    → FieldChanges
    → PrivacyStore
    → Result (Unit {0}) × PrivacyStore
correct_employee_data c r actor general personal s =
    atomic s (correct_locked c r actor general personal s)
