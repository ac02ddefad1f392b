-- ===== src/Employees/Tests.antt =====
-- One employee with restricted records, terms of employment and two privacy requests.
mod Witnesses
use payroll_management_syste.Prelude.{
  ℕ, zero, suc, ◌+◌, ◌-◌, ◌*◌, ◌/◌, ◌%◌, ◌^◌, ◌≤◌, ◌<◌, max, min, String, ◌≡◌, refl, sym, ap, subst,
  ◌∙◌, ◌≢◌, ◌↔◌, ◌⊎◌, inl, inr, Bool, true, false, not, ◌&&◌, ◌||◌, Option, none, some,
  some-injective, List, [], ◌∷◌, ◌++◌, map, append-nil, append_assoc, arith, str_eq, str_eq_iff,
  ltb, leb, ◌==◌, if◌then◌else◌, ==_iff, Bool-cases, Option-cases, length, length-append, any, all,
  select, find, update_where, All, All-append, any-append, Elem, find-Elem, Elem-any, find_sound,
  select-append, All-select, All-map, Elem-select, select-Elem, select-All, find-append_new,
  length-update_where,
}
use payroll_management_syste.Outcome.{ok}
use payroll_management_syste.Organizations.{User}
use payroll_management_syste.Employees.Models
use payroll_management_syste.Employees.Models.{
  Employee, PersonalInformation, BankAccount, TaxProfile, DataSubjectRequest, PrivacyRequestType,
  PrivacyRequestStatus,
}
use payroll_management_syste.Employees.Periods.{EmployeePeriod}
use payroll_management_syste.Employees.Privacy.{PrivacyContext, PrivacyStore}

abbrev pub worker : Employee
worker = record {
  pk = 3;
  organization = 1;
  employee_number = "E-3";
  preferred_name = "Al";
  given_name = "Alan";
  family_name = "Poe";
  work_email = "al@x";
  work_phone = "12";
  hire_date = 10;
  termination_date = none;
  status = Models.active;
  archived_at = none;
  retention_until = none;
}

abbrev pub salary : ℕ → ℕ → Option ℕ → EmployeePeriod
salary pk start stop = record {
  pk = pk;
  organization = 1;
  employee = 3;
  kind = none;
  jurisdiction = none;
  product = none;
  effective_from = start;
  effective_to = stop;
  archived_at = none;
}

abbrev pub manager : User
manager = record { pk = 7; is_authenticated = true; is_superuser = false }

abbrev pub hr : User
hr = record { pk = 8; is_authenticated = true; is_superuser = false }

abbrev pub context : PrivacyContext
context = record {
  may_manage = λ u. u.pk == 7;
  is_email = λ _. true;
  digest = λ p. p.object_id;
  response_digest = λ _. "digest";
  text_of = λ _. "1";
  time_text = λ _. "time";
  date_text = λ _. "date";
  status_text = λ _. "active";
  now = 90;
  today = 60;
}

abbrev pub request : PrivacyRequestType → DataSubjectRequest
request request_type = record {
  pk = 0;
  organization = 1;
  employee = 3;
  request_type = request_type;
  status = PrivacyRequestStatus.approved;
  requested_by = 8;
  approved_by = some 7;
  reason = "asked";
  legal_basis = "consent";
  response_sha256 = "";
  completed_at = none;
}

abbrev pub personal : PersonalInformation
personal = record {
  pk = 0;
  organization = 1;
  employee = 3;
  legal_name = "Alan Poe";
  date_of_birth = "1990";
  personal_email = "a@y";
  personal_phone = "34";
  residential_address = "street";
  government_id_token = "token";
  emergency_contact = "Eve";
  archived_at = none;
  retention_until = none;
}

abbrev pub store : PrivacyRequestType → PrivacyStore
store request_type = record {
  employees = worker ∷ [];
  personal_information = personal ∷ [];
  bank_accounts = [];
  tax_profiles = [];
  payroll_inputs = (5, 3) ∷ [];
  requests = request request_type ∷ [];
  events = [];
  next_request = 1;
  next_personal = 1;
}
