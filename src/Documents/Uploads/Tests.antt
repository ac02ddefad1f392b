-- ===== src/Documents/Uploads/Tests.antt =====
-- A small text file, and one with a script in it.
use payroll_management_syste.Prelude.{◌≡◌, refl, true, false, none, some, [], ◌∷◌}
use payroll_management_syste.Outcome.{err, validation_error}
use payroll_management_syste.Prelude.Text.{codes}
use payroll_management_syste.Organizations.{
  User, administrator, authorize, membership_for, check_membership, permits, role_actions,
}
use payroll_management_syste.Auditing.{newest_hash, record_event, save_event}
use payroll_management_syste.Documents.Models.{Document, Attachment, DocumentStore, DocumentContext}
use payroll_management_syste.Documents.Workflows.{allowed, audited}
use payroll_management_syste.Documents.Uploads.{
  Upload, ScanContext, allowed_types, dangerous_signatures, last_period, suffix, validate_and_scan,
  create_locked, create_attachment,
}
use payroll_management_syste.Documents.Uploads.Attached.{IsAttached, create_attachment_scanned}

abbrev admin : User
admin = record { pk = 7; is_authenticated = true; is_superuser = false }

abbrev context : DocumentContext
context = record {
  memberships = record { user = 7; organization = 1; role = administrator; is_active = true } ∷ [];
  digest = λ p. p.object_id;
  text_of = λ _. "1";
  now = 90;
  today = 60;
}

abbrev scan : ScanContext
scan = record {
  max_upload_bytes = 100;
  guess_type = λ _. some (codes "text/plain");
  sha256 = λ _. "digest";
}

abbrev note : Upload
note = record {
  name = "note.TXT";
  size = 5;
  content_type = some "Text/Plain";
  content = codes "hello";
}

abbrev document : Document
document = record {
  pk = 4;
  organization = 1;
  retention_until = none;
  archived_at = none;
  purged_attachment_checksums = none;
}

abbrev store : DocumentStore
store = record {
  documents = document ∷ [];
  attachments = [];
  holds = [];
  redactions = [];
  events = [];
  next_hold = 0;
  next_redaction = 0;
}

refuses_script :
    validate_and_scan scan (record note { content = codes "a <ScRiPt>" })
    ≡ err (validation_error "upload rejected by malware/content scan")
unfolding validate_and_scan allowed_types dangerous_signatures last_period suffix
refuses_script = refl

attachment : Attachment
attachment = record { pk = 2; document = 4; checksum_sha256 = "digest"; has_file = true }

after_upload : DocumentStore
after_upload = (create_attachment context scan 2 document note admin store).1

create_attachment_scanned_example :
    IsAttached context scan 2 document note admin store (attachment, after_upload)
unfolding attachment after_upload create_attachment create_locked validate_and_scan allowed_types
    dangerous_signatures last_period suffix allowed audited authorize membership_for
    check_membership permits role_actions newest_hash record_event save_event
create_attachment_scanned_example =
    create_attachment_scanned context scan 2 document note admin store after_upload attachment refl
