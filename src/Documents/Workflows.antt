-- ===== src/Documents/Workflows.antt =====
-- apps/documents/services/workflows.py: holds, purges and redactions, each with its audit event.
-- Three of the services are one transaction. The redactions are not: what they wrote before an
-- exception stays.
pub mod Retention
use payroll_management_syste.Prelude.{
  ℕ, zero, suc, ◌+◌, ◌-◌, ◌*◌, ◌/◌, ◌%◌, ◌^◌, ◌≤◌, ◌<◌, max, min, String, ◌≡◌, refl, sym, ap, subst,
  ◌∙◌, ◌≢◌, ◌↔◌, ◌⊎◌, inl, inr, Bool, true, false, not, ◌&&◌, ◌||◌, Option, none, some,
  some-injective, List, [], ◌∷◌, ◌++◌, map, append-nil, append_assoc, arith, str_eq, str_eq_iff,
  ltb, leb, ◌==◌, if◌then◌else◌, ==_iff, Bool-cases, Option-cases, length, length-append, any, all,
  select, find, update_where, All, All-append, any-append, Elem, find-Elem, Elem-any, find_sound,
  select-append, All-select, All-map, Elem-select, select-Elem, select-All, find-append_new,
  length-update_where,
}
use payroll_management_syste.Outcome.{
  Result, ok, err, validation_error, raise_if, raise_unless, ◌>>=◌, ◌>>◌, atomic,
}
use payroll_management_syste.Organizations.{
  User, ActionName, authorize, document_manage_retention, document_redact,
}
use payroll_management_syste.Auditing.{AuditAction, AuditEvent, EventRequest, Summary, record_event}
use payroll_management_syste.Documents.Models.{
  WorkflowStatus, Document, Attachment, LegalHold, RedactionRequest, DocumentStore, DocumentContext,
  is_requested, is_approved, is_open, is_on_legal_hold,
}

-- `authorize`, for its check.
unfoldable pub allowed : DocumentContext → User → ℕ → ActionName → Result (Unit {0})
allowed c actor organization action = do
  _ ← authorize c.memberships actor organization (some action)
  ok tt

-- The event that a workflow records about an object. A list in a summary is a name with each of its
-- elements.
abbrev pub event_request : ℕ → User → AuditAction → String → String → Summary → EventRequest
event_request organization actor action object_type object_id after = record {
  organization = organization;
  action = action;
  object_type = object_type;
  actor = some actor;
  object_id = object_id;
  object_label = "";
  before = [];
  after = after;
  request_id = "";
  source_address = none;
  sensitive = false;
}

abbrev pub named : String → List String → Summary
named name = map (λ text. (name, text))

unfoldable pub audited : DocumentContext → EventRequest → DocumentStore → Result DocumentStore
audited c r s = do
  events ← record_event c.digest r c.now s.events
  ok (record s { events = events })

abbrev pub hold_of : Document → User → String → ℕ → LegalHold
hold_of document actor reason pk = record {
  pk = pk;
  organization = document.organization;
  document = document.pk;
  reason = reason;
  placed_by = actor.pk;
  released_by = none;
  released_at = none;
}

abbrev pub add_hold : LegalHold → DocumentStore → DocumentStore
add_hold hold s = record s { holds = s.holds ++ hold ∷ []; next_hold = s.next_hold + 1 }

unfoldable pub place_locked :
    DocumentContext → Document → User → String → DocumentStore → Result (LegalHold × DocumentStore)
place_locked c document actor reason s = do
  allowed c actor document.organization document_manage_retention
  let hold = hold_of document actor reason s.next_hold
  s' ←
      audited c
        (event_request document.organization actor AuditAction.legal_hold "documents.Document"
          (c.text_of document.pk) (("hold_id", c.text_of hold.pk) ∷ ("reason", reason) ∷ []))
        (add_hold hold s)
  ok (hold, s')

unfoldable pub place_legal_hold :
    DocumentContext → Document → User → String → DocumentStore → Result LegalHold × DocumentStore
place_legal_hold c document actor reason s = atomic s (place_locked c document actor reason s)

abbrev pub release : ℕ → ℕ → LegalHold → LegalHold
release now actor h = record h { released_at = some now; released_by = some actor }

-- `release_legal_hold`, on the hold as its caller has it.
unfoldable pub release_locked :
    DocumentContext → LegalHold → User → DocumentStore → Result (LegalHold × DocumentStore)
release_locked c hold actor s = do
  allowed c actor hold.organization document_manage_retention
  raise_unless (is_open hold.released_at) (validation_error "legal hold has already been released")
  let saved = record s {
    holds = update_where (λ h. h.pk == hold.pk) (release c.now actor.pk) s.holds;
  }
  s' ←
      audited c
        (event_request hold.organization actor AuditAction.legal_hold "documents.Document"
          (c.text_of hold.document) (("released_hold_id", c.text_of hold.pk) ∷ []))
        saved
  ok (release c.now actor.pk hold, s')

unfoldable pub release_legal_hold :
    DocumentContext → LegalHold → User → DocumentStore → Result LegalHold × DocumentStore
release_legal_hold c hold actor s = atomic s (release_locked c hold actor s)

-- `not document.retention_until or document.retention_until > today`
abbrev pub is_retained : Option ℕ → ℕ → Bool
is_retained none today = true
is_retained (some until) today = ltb today until

abbrev pub checksums_of : ℕ → List Attachment → List String
checksums_of document attachments =
    map (λ a. a.checksum_sha256) (select (λ a. a.document == document) attachments)

abbrev pub purged : ℕ → List String → Document → Document
purged now checksums d = record d {
  archived_at = some now;
  purged_attachment_checksums = some checksums;
}

-- The checks of `purge_expired_document`, in their order.
unfoldable pub check_purge : DocumentContext → Document → User → DocumentStore → Result (Unit {0})
check_purge c document actor s = do
  allowed c actor document.organization document_manage_retention
  raise_if (is_on_legal_hold document.pk s.holds)
      (validation_error "a document on legal hold cannot be purged")
  raise_if (is_retained document.retention_until c.today)
      (validation_error "the document retention period has not expired")

-- The files are deleted, and the document keeps their checksums.
unfoldable pub record_purge : DocumentContext → Document → DocumentStore → DocumentStore
record_purge c document s = record s {
  attachments =
      update_where (λ a. a.document == document.pk) (λ a. record a { has_file = false })
        s.attachments;
  documents =
      update_where (λ d. d.pk == document.pk)
        (purged c.now (checksums_of document.pk s.attachments)) s.documents;
}

-- What follows the checks.
unfoldable pub purge_locked :
    DocumentContext → Document → User → DocumentStore → Result (Document × DocumentStore)
purge_locked c document actor s = do
  let checksums = checksums_of document.pk s.attachments
  s' ←
      audited c
        (event_request document.organization actor AuditAction.retention "documents.Document"
          (c.text_of document.pk) (("purged", "true") ∷ named "checksums" checksums))
        (record_purge c document s)
  ok (purged c.now checksums document, s')

-- The files of a document that are deleted while its rows stay as they were.
abbrev pub without_files : Document → DocumentStore → DocumentStore
without_files document s = record s {
  attachments =
      update_where (λ a. a.document == document.pk) (λ a. record a { has_file = false })
        s.attachments;
}

abbrev pub after_check :
    Result (Unit {0})
    → DocumentStore
    → Result Document × DocumentStore
    → Result Document × DocumentStore
after_check (err e) s rest = (err e, s)
after_check (ok _) s rest = rest

-- `purge_expired_document`: an exception after the checks restores the rows, but not the files.
unfoldable pub purge_expired_document :
    DocumentContext → Document → User → DocumentStore → Result Document × DocumentStore
purge_expired_document c document actor s =
    after_check (check_purge c document actor s) s
      (atomic (without_files document s) (purge_locked c document actor s))

-- The audit event is recorded, or raises and leaves what was saved before it.
abbrev pub or_saved :
    Result DocumentStore
    → RedactionRequest
    → DocumentStore
    → Result RedactionRequest × DocumentStore
or_saved (err e) redaction saved = (err e, saved)
or_saved (ok s') redaction saved = (ok redaction, s')

-- A service that is not a transaction: its own write, `saved`, if the checks pass, stays also when the
-- audit event after it raises.
unfoldable pub written_then_audited :
    DocumentContext
    → Result (Unit {0})
    → EventRequest
    → RedactionRequest
    → DocumentStore
    → DocumentStore
    → Result RedactionRequest × DocumentStore
written_then_audited c (err e) r redaction saved s = (err e, s)
written_then_audited c (ok _) r redaction saved s = or_saved (audited c r saved) redaction saved

abbrev pub redaction_of : Document → User → List String → String → ℕ → RedactionRequest
redaction_of document actor fields reason pk = record {
  pk = pk;
  organization = document.organization;
  document = document.pk;
  requested_by = actor.pk;
  approved_by = none;
  fields = fields;
  reason = reason;
  status = WorkflowStatus.requested;
  completed_at = none;
}

unfoldable pub request_redaction :
    DocumentContext
    → Document
    → User
    → List String
    → String
    → DocumentStore
    → Result RedactionRequest × DocumentStore
request_redaction c document actor fields reason s =
    let redaction = redaction_of document actor fields reason s.next_redaction in
    written_then_audited c (allowed c actor document.organization document_redact)
      (event_request document.organization actor AuditAction.redact "documents.Document"
        (c.text_of document.pk) (("request_id", c.text_of redaction.pk) ∷ named "fields" fields))
      redaction
      (record s {
        redactions = s.redactions ++ redaction ∷ [];
        next_redaction = s.next_redaction + 1;
      })
      s

abbrev pub save_redaction :
    ℕ → (RedactionRequest → RedactionRequest) → DocumentStore → DocumentStore
save_redaction pk change s = record s {
  redactions = update_where (λ x. x.pk == pk) change s.redactions;
}

abbrev pub with_approval : ℕ → RedactionRequest → RedactionRequest
with_approval actor r = record r { status = WorkflowStatus.approved; approved_by = some actor }

abbrev pub with_completion : ℕ → RedactionRequest → RedactionRequest
with_completion now r = record r { status = WorkflowStatus.completed; completed_at = some now }

unfoldable pub check_redaction :
    DocumentContext → User → RedactionRequest → Bool → Result (Unit {0})
check_redaction c actor redaction has_status = do
  allowed c actor redaction.organization document_redact
  raise_unless has_status
      (validation_error "the redaction is not in the status that this step wants")

-- `approve_redaction`, on the request as its caller has it.
unfoldable pub approve_redaction :
    DocumentContext
    → RedactionRequest
    → User
    → DocumentStore
    → Result RedactionRequest × DocumentStore
approve_redaction c redaction actor s =
    written_then_audited c (check_redaction c actor redaction (is_requested redaction.status))
      (event_request redaction.organization actor AuditAction.approve "documents.RedactionRequest"
        (c.text_of redaction.pk) (("status", "approved") ∷ []))
      (with_approval actor.pk redaction) (save_redaction redaction.pk (with_approval actor.pk) s) s

-- `complete_redaction`, on the request as its caller has it.
unfoldable pub complete_redaction :
    DocumentContext
    → RedactionRequest
    → User
    → List ℕ
    → DocumentStore
    → Result RedactionRequest × DocumentStore
complete_redaction c redaction actor attachment_ids s =
    written_then_audited c (check_redaction c actor redaction (is_approved redaction.status))
      (event_request redaction.organization actor AuditAction.redact "documents.RedactionRequest"
        (c.text_of redaction.pk)
        (("status", "completed") ∷ named "redacted_attachment_ids" (map c.text_of attachment_ids)))
      (with_completion c.now redaction) (save_redaction redaction.pk (with_completion c.now) s) s
