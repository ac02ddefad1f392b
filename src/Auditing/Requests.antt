-- ===== src/Auditing/Requests.antt =====
-- `_request_context` and `record_sensitive_access` of apps/auditing/services.py. The parser of
-- addresses is that of the module ipaddress: it answers with the address's text, or not at all.
use payroll_management_syste.Prelude.{
  ℕ, String, true, Option, none, some, List, [], str_eq, if◌then◌else◌,
}
use payroll_management_syste.Prelude.Text.{strip, text_take, text_before}
use payroll_management_syste.Outcome.{Result}
use payroll_management_syste.Organizations.{User}
use payroll_management_syste.Auditing.{
  AuditAction, AuditEvent, AuditPayload, EventRequest, Summary, record_event,
}

-- The headers "X-Request-ID" and "X-Forwarded-For", empty where they are missing, and "REMOTE_ADDR".
pub record AuditRequest : Type 0 where
  pub request_id : String
  pub forwarded_for : String
  pub remote_addr : Option String

-- `value or None`
abbrev pub or_none : String → Option String
or_none text = if str_eq text "" then none else some text

unfoldable pub source_of : AuditRequest → Option String
source_of r =
    if str_eq r.forwarded_for ""
    then elim r.remote_addr [ none ↦ none | some address ↦ or_none address ]
    else or_none (strip (text_before b',' r.forwarded_for))

abbrev pub parsed : (String → Option String) → Option String → Option String
parsed ip_address none = none
parsed ip_address (some source) = ip_address source

-- `_request_context`
unfoldable pub request_context :
    (String → Option String) → Option AuditRequest → String × Option String
unfolding source_of
request_context ip_address none = ("", none)
request_context ip_address (some r) = (text_take 100 r.request_id, parsed ip_address (source_of r))

-- The instance that is read: its organization, label, key and text.
pub record AuditedInstance : Type 0 where
  pub object_type : String
  pub object_id : String
  pub object_label : String

abbrev pub access_request :
    ℕ → Option User → AuditedInstance → String × Option String → Summary → EventRequest
access_request organization actor instance_read context details = record {
  organization = organization;
  action = AuditAction.access;
  object_type = instance_read.object_type;
  actor = actor;
  object_id = instance_read.object_id;
  object_label = instance_read.object_label;
  before = [];
  after = details;
  request_id = context.0;
  source_address = context.1;
  sensitive = true;
}

-- `record_sensitive_access`
unfoldable pub record_sensitive_access :
    (AuditPayload → String)
    → (String → Option String)
    → ℕ
    → Option User
    → AuditedInstance
    → Option AuditRequest
    → Summary
    → ℕ
    → List AuditEvent
    → Result (List AuditEvent)
record_sensitive_access digest ip_address organization actor instance_read request details now
      events =
    record_event digest
      (access_request organization actor instance_read (request_context ip_address request) details)
      now events
