-- ===== src/Documents/Tests.antt =====
-- An expired document, with and without a hold, and an approved redaction.
use payroll_management_syste.Prelude.{
  ℕ, zero, suc, String, ◌≡◌, refl, true, false, none, some, [], ◌∷◌, map,
}
use payroll_management_syste.Outcome.{ok}
use payroll_management_syste.Organizations.{
  User, administrator, authorize, membership_for, check_membership, permits, role_actions,
  document_redact, document_manage_retention,
}
use payroll_management_syste.Auditing.{
  AuditPayload, AuditEvent, AuditAction, event_of, sealed, newest_hash, record_event, save_event,
}
use payroll_management_syste.Documents.Models.{
  Document, RedactionRequest, DocumentStore, DocumentContext, WorkflowStatus,
}
use payroll_management_syste.Documents.Workflows.{
  allowed, audited, event_request, named, check_purge, record_purge, purge_locked,
  purge_expired_document, hold_of, check_redaction, written_then_audited, complete_redaction,
  with_completion, with_approval, redaction_of, save_redaction,
}
use payroll_management_syste.Documents.Workflows.Retention.{
  IsPurged, IsAudited, purge_expired_document_purges, complete_redaction_approved,
}

-- All that a workflow unfolds.
unfoldable working : Unit {0}
unfolding authorize membership_for check_membership permits role_actions newest_hash record_event
    save_event allowed audited check_purge record_purge purge_locked purge_expired_document
    check_redaction written_then_audited complete_redaction
working = tt

abbrev admin : User
admin = record { pk = 7; is_authenticated = true; is_superuser = false }

abbrev object_key : AuditPayload → String
object_key p = p.object_id

abbrev digit : ℕ → String
digit zero = "0"
digit (suc n) = "1"

abbrev context : DocumentContext
context = record {
  memberships = record { user = 7; organization = 1; role = administrator; is_active = true } ∷ [];
  digest = object_key;
  text_of = digit;
  now = 90;
  today = 60;
}

abbrev document : Document
document = record {
  pk = 4;
  organization = 1;
  retention_until = some 50;
  archived_at = none;
  purged_attachment_checksums = none;
}

abbrev redaction : RedactionRequest
redaction = with_approval 7 (redaction_of document admin ("name" ∷ []) "request" 1)

abbrev store : DocumentStore
store = record {
  documents = document ∷ [];
  attachments = record { pk = 1; document = 4; checksum_sha256 = "abc"; has_file = true } ∷ [];
  holds = [];
  redactions = redaction ∷ [];
  events = [];
  next_hold = 1;
  next_redaction = 2;
}

abbrev held_store : DocumentStore
held_store = record store { holds = hold_of document admin "lawsuit" 1 ∷ []; next_hold = 2 }

abbrev purged_document : Document
purged_document = record document {
  archived_at = some 90;
  purged_attachment_checksums = some ("abc" ∷ []);
}

abbrev purge_event : AuditEvent
purge_event = sealed object_key (
    event_of
      (event_request 1 admin AuditAction.retention "documents.Document" "1"
        (("purged", "true") ∷ ("checksums", "abc") ∷ []))
      90)

abbrev purged_store : DocumentStore
purged_store = record store {
  documents = purged_document ∷ [];
  attachments = record { pk = 1; document = 4; checksum_sha256 = "abc"; has_file = false } ∷ [];
  events = purge_event ∷ [];
}

purges : purge_expired_document context document admin store ≡ (ok purged_document, purged_store)
unfolding working
purges = refl

purge_expired_document_purges_example :
    IsPurged context document admin store (purged_document, purged_store)
    × (purged_store.holds ≡ store.holds)
    × (purged_store.redactions ≡ store.redactions)
purge_expired_document_purges_example =
    purge_expired_document_purges context document admin store purged_store purged_document purges

may_manage : allowed context admin 1 document_manage_retention ≡ ok tt
unfolding working
may_manage = refl

abbrev redaction_event : AuditEvent
redaction_event = sealed object_key (
    event_of
      (event_request 1 admin AuditAction.redact "documents.RedactionRequest" "1"
        (("status", "completed") ∷ ("redacted_attachment_ids", "1") ∷ []))
      90)

abbrev completed_store : DocumentStore
completed_store = record store {
  redactions = with_completion 90 redaction ∷ [];
  events = redaction_event ∷ [];
}

completes :
    complete_redaction context redaction admin (1 ∷ []) store
    ≡ (ok (with_completion 90 redaction), completed_store)
unfolding working
completes = refl

complete_redaction_approved_example :
    (allowed context admin 1 document_redact ≡ ok tt)
    × (redaction.status ≡ WorkflowStatus.approved)
    × (with_completion 90 redaction ≡ with_completion 90 redaction)
    × IsAudited context
        (event_request 1 admin AuditAction.redact "documents.RedactionRequest" "1"
          (("status", "completed") ∷ named "redacted_attachment_ids" (map digit (1 ∷ []))))
        (save_redaction 1 (with_completion 90) store)
        completed_store
complete_redaction_approved_example =
    complete_redaction_approved context redaction (with_completion 90 redaction) admin (1 ∷ [])
      store completed_store completes
