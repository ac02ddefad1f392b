-- ===== src/Employees/Privacy.antt =====
-- apps/employees/services/privacy.py: the requests of data subjects. A request is passed as the caller
-- has it, and only the named fields of a row are saved. Values are exported as their texts; `export`
-- and the digest of the JSON text are functions of the rows.
pub mod Execution
pub mod Export
pub mod Correction
pub mod Corrected
pub mod History
pub mod Deletion
pub mod Erasure
use payroll_management_syste.Prelude.{
  ℕ, zero, suc, ◌+◌, ◌-◌, ◌*◌, ◌/◌, ◌%◌, ◌^◌, ◌≤◌, ◌<◌, max, min, String, ◌≡◌, refl, sym, ap, subst,
  ◌∙◌, ◌≢◌, ◌↔◌, ◌⊎◌, inl, inr, Bool, true, false, not, ◌&&◌, ◌||◌, Option, none, some,
  some-injective, List, [], ◌∷◌, ◌++◌, map, append-nil, append_assoc, arith, str_eq, str_eq_iff,
  ltb, leb, ◌==◌, if◌then◌else◌, ==_iff, Bool-cases, Option-cases, length, length-append, any, all,
  select, find, update_where, All, All-append, any-append, Elem, find-Elem, Elem-any, find_sound,
  select-append, All-select, All-map, Elem-select, select-Elem, select-All, find-append_new,
  length-update_where,
}
use payroll_management_syste.Outcome.{
  Result, ok, err, validation_error, permission_denied, does_not_exist, or_raise, raise_if,
  raise_unless, ◌>>=◌, ◌>>◌, atomic,
}
use payroll_management_syste.Organizations.{User}
use payroll_management_syste.Auditing.{
  AuditPayload, AuditAction, AuditEvent, EventRequest, record_event,
}
use payroll_management_syste.Prelude.Text.{is_blank}
use payroll_management_syste.Employees.Models.{
  Employee, PersonalInformation, BankAccount, TaxProfile, DataSubjectRequest, PrivacyRequestType,
  PrivacyRequestStatus, employee_by_key,
}
use payroll_management_syste.Employees.Profiles.{full_clean_employee}

-- The tables, oldest row first, and the keys to be given next. An input is its key and its employee's.
pub record PrivacyStore : Type 0 where
  pub employees : List Employee
  pub personal_information : List PersonalInformation
  pub bank_accounts : List BankAccount
  pub tax_profiles : List TaxProfile
  pub payroll_inputs : List (ℕ × ℕ)
  pub requests : List DataSubjectRequest
  pub events : List AuditEvent
  pub next_request : ℕ
  pub next_personal : ℕ

-- A row as `_safe_model_dict` gives it.
abbrev pub SafeRow : Type 0
SafeRow = List (String × Option String)

pub record ExportPayload : Type 0 where
  pub employee : SafeRow
  pub personal_information : Option SafeRow
  pub bank_accounts : List SafeRow
  pub tax_profiles : List SafeRow
  pub payroll_input_ids : List ℕ

-- What the services read besides their tables. `may_manage` is django's
-- `has_perm("employees.manage_privacy_requests")`, the texts are `str` of a number, a time, a date and
-- a status, and `response_digest` is the SHA-256 of the payload's JSON text.
pub record PrivacyContext : Type 0 where
  pub may_manage : User → Bool
  pub is_email : String → Bool
  pub digest : AuditPayload → String
  pub response_digest : ExportPayload → String
  pub text_of : ℕ → String
  pub time_text : ℕ → String
  pub date_text : ℕ → String
  pub status_text : Employee → String
  pub now : ℕ
  pub today : ℕ

abbrev pub is_approved : PrivacyRequestStatus → Bool
is_approved PrivacyRequestStatus.approved = true
is_approved _ = false

abbrev pub type_code : PrivacyRequestType → ℕ
type_code PrivacyRequestType.export = 0
type_code PrivacyRequestType.correction = 1
type_code PrivacyRequestType.deletion = 2
type_code PrivacyRequestType.retention_review = 3

abbrev pub type_text : PrivacyRequestType → String
type_text PrivacyRequestType.export = "export"
type_text PrivacyRequestType.correction = "correction"
type_text PrivacyRequestType.deletion = "deletion"
type_text PrivacyRequestType.retention_review = "retention_review"

-- The permission, or the rank of a superuser.
abbrev pub is_manager : PrivacyContext → User → Bool
is_manager c actor = c.may_manage actor || actor.is_superuser

abbrev pub has_approver : Option ℕ → Bool
has_approver none = false
has_approver (some _) = true

-- `_authorize`
unfoldable pub authorize_execution : PrivacyContext → DataSubjectRequest → User → Result (Unit {0})
authorize_execution c r actor = do
  raise_unless (is_approved r.status && has_approver r.approved_by)
      (validation_error "privacy request must be independently approved before execution")
  raise_if (actor.pk == r.requested_by)
      (permission_denied "requester cannot execute their own privacy request")
  raise_unless (is_manager c actor) (permission_denied "privacy workflow permission is required")

-- `create_request`
unfoldable pub create_request :
    Employee → PrivacyRequestType → User → String → PrivacyStore → DataSubjectRequest × PrivacyStore
create_request employee request_type requested_by reason s =
    let r : DataSubjectRequest = record {
      pk = s.next_request;
      organization = employee.organization;
      employee = employee.pk;
      request_type = request_type;
      status = PrivacyRequestStatus.pending;
      requested_by = requested_by.pk;
      approved_by = none;
      reason = reason;
      legal_basis = "";
      response_sha256 = "";
      completed_at = none;
    } in
    (r, record s { requests = s.requests ++ r ∷ []; next_request = s.next_request + 1 })

-- `request_record.save(update_fields=…)`
abbrev pub save_request :
    ℕ → (DataSubjectRequest → DataSubjectRequest) → PrivacyStore → PrivacyStore
save_request pk change s = record s { requests = update_where (λ x. x.pk == pk) change s.requests }

abbrev pub with_approval : ℕ → String → DataSubjectRequest → DataSubjectRequest
with_approval actor legal_basis r = record r {
  status = PrivacyRequestStatus.approved;
  approved_by = some actor;
  legal_basis = legal_basis;
}

-- `approve_request`
unfoldable pub approve_request :
    PrivacyContext
    → DataSubjectRequest
    → User
    → String
    → PrivacyStore
    → Result (DataSubjectRequest × PrivacyStore)
approve_request c r actor legal_basis s = do
  raise_unless (is_manager c actor) (permission_denied "privacy workflow permission is required")
  raise_if (actor.pk == r.requested_by)
      (permission_denied "privacy requests require independent approval")
  raise_if (is_blank legal_basis)
      (validation_error "documented legal basis and retention analysis are required")
  ok (
    with_approval actor.pk legal_basis r,
    save_request r.pk (with_approval actor.pk legal_basis) s,
  )

abbrev pub with_completion : ℕ → String → DataSubjectRequest → DataSubjectRequest
with_completion now response_sha256 r = record r {
  status = PrivacyRequestStatus.completed;
  completed_at = some now;
  response_sha256 = response_sha256;
}

abbrev pub action_of : PrivacyRequestType → AuditAction
action_of PrivacyRequestType.export = AuditAction.export
action_of _ = AuditAction.redact

-- The event that `_complete` records.
abbrev pub completion_event : PrivacyContext → DataSubjectRequest → User → EventRequest
completion_event c r actor = record {
  organization = r.organization;
  action = action_of r.request_type;
  object_type = "employees.DataSubjectRequest";
  actor = some actor;
  object_id = c.text_of r.pk;
  object_label = "";
  before = [];
  after = ("request_type", type_text r.request_type) ∷ ("status", "completed") ∷ [];
  request_id = "";
  source_address = none;
  sensitive = true;
}

-- `_complete`
unfoldable pub complete :
    PrivacyContext → DataSubjectRequest → User → String → PrivacyStore → Result PrivacyStore
complete c r actor response_sha256 s = do
  events ← record_event c.digest (completion_event c r actor) c.now s.events
  ok (record (save_request r.pk (with_completion c.now response_sha256) s) { events = events })

-- The three workflows ask first for the authorization and then for the type of the request.
unfoldable pub check_execution :
    PrivacyContext → DataSubjectRequest → User → PrivacyRequestType → Result (Unit {0})
check_execution c r actor request_type = do
  authorize_execution c r actor
  raise_unless (type_code r.request_type == type_code request_type)
      (validation_error "request type does not permit this workflow")
