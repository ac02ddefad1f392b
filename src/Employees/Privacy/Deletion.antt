-- ===== src/Employees/Privacy/Deletion.antt =====
-- `delete_employee_data` of apps/employees/services/privacy.py.
use payroll_management_syste.Prelude.{ℕ, some, List, ltb, ◌==◌, update_where}
use payroll_management_syste.Outcome.{
  Result, ok, validation_error, does_not_exist, or_raise, raise_if, ◌>>=◌, ◌>>◌, atomic,
}
use payroll_management_syste.Organizations.{User}
use payroll_management_syste.Employees.Models.{
  Employee, PersonalInformation, BankAccount, TaxProfile, DataSubjectRequest, PrivacyRequestType,
  employee_by_key,
}
use payroll_management_syste.Employees.Privacy.{
  PrivacyContext, PrivacyStore, complete, check_execution,
}

abbrev pub erase_personal : ℕ → ℕ → PersonalInformation → PersonalInformation
erase_personal now until p = record p {
  legal_name = "";
  date_of_birth = "";
  personal_email = "";
  personal_phone = "";
  residential_address = "";
  emergency_contact = "";
  government_id_token = "";
  archived_at = some now;
  retention_until = some until;
}

abbrev pub erase_bank : ℕ → ℕ → BankAccount → BankAccount
erase_bank now until b = record b {
  account_holder = "";
  account_number_token = "";
  routing_details = "";
  archived_at = some now;
  retention_until = some until;
}

abbrev pub retire_tax : ℕ → ℕ → TaxProfile → TaxProfile
retire_tax now until t = record t { archived_at = some now; retention_until = some until }

-- The instance in memory after the assignments.
abbrev pub minimized : Employee → Employee
minimized e = record e { preferred_name = ""; work_email = ""; work_phone = "" }

-- `ArchivableOrganizationModel.archive` of an employee: `save` writes these two fields only.
unfoldable pub archive_employee : ℕ → ℕ → Employee → List Employee → List Employee
archive_employee now until instance =
    update_where (λ x. x.pk == instance.pk)
      (λ x. record x { archived_at = some now; retention_until = some until })

-- What is written before the request is completed.
unfoldable pub erase_employee : ℕ → ℕ → Employee → PrivacyStore → PrivacyStore
unfolding archive_employee
erase_employee now until e s = record s {
  personal_information =
      update_where (λ p. p.employee == e.pk) (erase_personal now until) s.personal_information;
  bank_accounts = update_where (λ b. b.employee == e.pk) (erase_bank now until) s.bank_accounts;
  tax_profiles = update_where (λ t. t.employee == e.pk) (retire_tax now until) s.tax_profiles;
  employees = archive_employee now until (minimized e) s.employees;
}

unfoldable pub delete_locked :
    PrivacyContext → DataSubjectRequest → User → ℕ → PrivacyStore → Result (Unit {0} × PrivacyStore)
delete_locked c r actor until s = do
  check_execution c r actor PrivacyRequestType.deletion
  raise_if (ltb until c.today) (validation_error "retention date cannot be in the past")
  employee ← or_raise (employee_by_key r.employee s.employees) does_not_exist
  s' ← complete c r actor "" (erase_employee c.now until employee s)
  ok (tt, s')

unfoldable pub delete_employee_data :
    PrivacyContext → DataSubjectRequest → User → ℕ → PrivacyStore → Result (Unit {0}) × PrivacyStore
delete_employee_data c r actor until s = atomic s (delete_locked c r actor until s)
