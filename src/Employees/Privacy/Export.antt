-- ===== src/Employees/Privacy/Export.antt =====
-- `export_employee_data` of apps/employees/services/privacy.py, without the notice and the JSON text of
-- the payload.
use payroll_management_syste.Prelude.{
  refl, ◌≡◌, ℕ, String, Bool, true, false, Option, none, some, [], ◌∷◌, map, ◌==◌, select, find,
}
use payroll_management_syste.Outcome.{
  or_raise-ok, Ensures-bind, Ensures, Result, ok, does_not_exist, or_raise, ◌>>=◌, ◌>>◌, atomic,
}
use payroll_management_syste.Organizations.{User}
use payroll_management_syste.Employees.Models.{
  Employee, PersonalInformation, BankAccount, TaxProfile, DataSubjectRequest, PrivacyRequestType,
  employee_by_key,
}
use payroll_management_syste.Employees.Privacy.{
  PrivacyContext, PrivacyStore, SafeRow, ExportPayload, complete, check_execution,
}
use payroll_management_syste.Employees.Privacy.Execution.{
  complete-ok, check_execution-ok, IsCompleted, IsExecutable,
}

-- `str(value) if value is not None else None`
abbrev pub optional_text : (ℕ → String) → Option ℕ → Option String
optional_text text none = none
optional_text text (some n) = some (text n)

abbrev pub bool_text : Bool → String
bool_text true = "True"
bool_text false = "False"

abbrev pub safe_employee : PrivacyContext → Employee → SafeRow
safe_employee c e =
    ("id", some (c.text_of e.pk))
    ∷ ("archived_at", optional_text c.time_text e.archived_at)
    ∷ ("retention_until", optional_text c.date_text e.retention_until)
    ∷ ("employee_number", some e.employee_number)
    ∷ ("preferred_name", some e.preferred_name)
    ∷ ("given_name", some e.given_name)
    ∷ ("family_name", some e.family_name)
    ∷ ("work_email", some e.work_email)
    ∷ ("work_phone", some e.work_phone)
    ∷ ("hire_date", some (c.date_text e.hire_date))
    ∷ ("termination_date", optional_text c.date_text e.termination_date)
    ∷ ("status", some (c.status_text e))
    ∷ []

abbrev pub safe_personal : PrivacyContext → PersonalInformation → SafeRow
safe_personal c p =
    ("id", some (c.text_of p.pk))
    ∷ ("archived_at", optional_text c.time_text p.archived_at)
    ∷ ("retention_until", optional_text c.date_text p.retention_until)
    ∷ ("legal_name_encrypted", some p.legal_name)
    ∷ ("date_of_birth_encrypted", some p.date_of_birth)
    ∷ ("personal_email_encrypted", some p.personal_email)
    ∷ ("personal_phone_encrypted", some p.personal_phone)
    ∷ ("residential_address_encrypted", some p.residential_address)
    ∷ ("government_id_token", some p.government_id_token)
    ∷ ("emergency_contact_encrypted", some p.emergency_contact)
    ∷ []

abbrev pub safe_bank : PrivacyContext → BankAccount → SafeRow
safe_bank c b =
    ("id", some (c.text_of b.pk))
    ∷ ("archived_at", optional_text c.time_text b.archived_at)
    ∷ ("retention_until", optional_text c.date_text b.retention_until)
    ∷ ("account_holder_encrypted", some b.account_holder)
    ∷ ("routing_details_encrypted", some b.routing_details)
    ∷ ("currency", some b.currency)
    ∷ ("is_primary", some (bool_text b.is_primary))
    ∷ []

abbrev pub safe_tax : PrivacyContext → TaxProfile → SafeRow
safe_tax c t =
    ("id", some (c.text_of t.pk))
    ∷ ("archived_at", optional_text c.time_text t.archived_at)
    ∷ ("retention_until", optional_text c.date_text t.retention_until)
    ∷ ("effective_from", some (c.date_text t.effective_from))
    ∷ ("effective_to", optional_text c.date_text t.effective_to)
    ∷ ("jurisdiction", some t.jurisdiction)
    ∷ ("elections_encrypted", some t.elections)
    ∷ []

abbrev pub optional_row : {A : Type 0} → (A → SafeRow) → Option A → Option SafeRow
optional_row f none = none
optional_row f (some a) = some (f a)

-- `payload`
unfoldable pub export_payload : PrivacyContext → Employee → PrivacyStore → ExportPayload
export_payload c e s = record {
  employee = safe_employee c e;
  personal_information =
      optional_row (safe_personal c) (find (λ p. p.employee == e.pk) s.personal_information);
  bank_accounts = map (safe_bank c) (select (λ b. b.employee == e.pk) s.bank_accounts);
  tax_profiles = map (safe_tax c) (select (λ t. t.employee == e.pk) s.tax_profiles);
  payroll_input_ids = map (λ i. i.0) (select (λ i. i.1 == e.pk) s.payroll_inputs);
}

unfoldable pub export_locked :
    PrivacyContext
    → DataSubjectRequest
    → User
    → PrivacyStore
    → Result (ExportPayload × PrivacyStore)
export_locked c r actor s = do
  check_execution c r actor PrivacyRequestType.export
  employee ← or_raise (employee_by_key r.employee s.employees) does_not_exist
  let payload = export_payload c employee s
  s' ← complete c r actor (c.response_digest payload) s
  ok (payload, s')

unfoldable pub export_employee_data :
    PrivacyContext → DataSubjectRequest → User → PrivacyStore → Result ExportPayload × PrivacyStore
export_employee_data c r actor s = atomic s (export_locked c r actor s)

abbrev pub IsExport :
    PrivacyContext
    → DataSubjectRequest
    → User
    → PrivacyStore
    → ExportPayload × PrivacyStore
    → Type 0
IsExport c r actor s (payload, s') =
    IsExecutable c r actor PrivacyRequestType.export
    × ((e : Employee) × (employee_by_key r.employee s.employees ≡ some e)
        × (payload ≡ export_payload c e s))
    × IsCompleted c r actor (c.response_digest payload) s s'

pub export_locked-Ensures :
    (c : PrivacyContext) (r : DataSubjectRequest) (actor : User) (s : PrivacyStore)
    → Ensures (IsExport c r actor s) (export_locked c r actor s)
unfolding export_locked
export_locked-Ensures c r actor s =
    let P = IsExport c r actor s in
    Ensures-bind P (check_execution c r actor PrivacyRequestType.export) _ λ _ checked.
      Ensures-bind P (or_raise (employee_by_key r.employee s.employees) does_not_exist) _ λ e known.
        let sha = c.response_digest (export_payload c e s) in
        Ensures-bind P (complete c r actor sha s) _ λ s' done. (
          check_execution-ok c r actor PrivacyRequestType.export checked,
          (e, or_raise-ok _ _ known, refl),
          complete-ok c r actor sha s s' done,
        )
