-- ===== src/Documents/Uploads/Attached.antt =====
-- When an attachment is stored, and of what file.
use payroll_management_syste.Prelude.{ℕ, String, ◌≡◌, ap, subst, [], ◌∷◌, ◌++◌}
use payroll_management_syste.Outcome.{atomic-ok, Ensures-elim, Ensures-bind, Ensures, ok}
use payroll_management_syste.Documents.Models.{Attachment, DocumentStore, Document, DocumentContext}
use payroll_management_syste.Documents.Uploads.{
  creation_event, attachment_of, validate_and_scan, Upload, ScanContext, create_locked,
  create_attachment,
}
use payroll_management_syste.Organizations.{document_write, User}
use payroll_management_syste.Documents.Workflows.{audited, allowed}
use payroll_management_syste.Documents.Uploads.Scanned.{validate_and_scan-Ensures, IsScanned}
use payroll_management_syste.Documents.Workflows.Retention.{audited-Ensures, IsAudited}

abbrev pub IsAttached :
    DocumentContext
    → ScanContext
    → ℕ
    → Document
    → Upload
    → User
    → DocumentStore
    → Attachment × DocumentStore
    → Type 0
IsAttached c scan pk document upload actor s (attachment, s') =
    (allowed c actor document.organization document_write ≡ ok tt)
    × ((content_type : String) × IsScanned scan upload (attachment.checksum_sha256, content_type)
        × (attachment ≡ attachment_of pk document (scan.sha256 upload.content))
        × IsAudited c
            (creation_event c pk document upload actor (scan.sha256 upload.content) content_type)
            (record s { attachments = s.attachments ++ attachment ∷ [] }) s')

create_locked-Ensures :
    (c : DocumentContext) (scan : ScanContext) (pk : ℕ) (document : Document) (upload : Upload)
    (actor : User) (s : DocumentStore)
    → Ensures
        (IsAttached c scan pk document upload actor s)
        (create_locked c scan pk document upload actor s)
unfolding create_locked
create_locked-Ensures c scan pk document upload actor s =
    let P = IsAttached c scan pk document upload actor s in
    Ensures-bind P (allowed c actor document.organization document_write) _ λ _ may.
      Ensures-bind P (validate_and_scan scan upload) _ λ checked passed.
        let scanned =
          Ensures-elim (IsScanned scan upload) (validate_and_scan scan upload) checked
            (validate_and_scan-Ensures scan upload) passed in
        let saved = record s {
          attachments = s.attachments ++ attachment_of pk document checked.0 ∷ [];
        } in
        let r = creation_event c pk document upload actor checked.0 checked.1 in
        Ensures-bind P (audited c r saved) _ λ s' recorded. (
          may,
          (
            checked.1,
            scanned,
            ap (attachment_of pk document) scanned.1,
            subst
                (λ sha.
                  IsAudited c (creation_event c pk document upload actor sha checked.1) saved s')
                scanned.1
                (Ensures-elim (IsAudited c r saved) (audited c r saved) s'
                  (audited-Ensures c r saved) recorded),
          ),
        )

-- An attachment is stored only for an actor who may write documents in the organization, and of a file
-- that is within the size limit, has the extension and first bytes of an allowed type that was declared
-- and is guessed from its name, and holds no dangerous signature anywhere, in whatever case of letters.
-- The one new row has the digest of the content, and one audit event records it; nothing else changes.
pub create_attachment_scanned :
    (c : DocumentContext) (scan : ScanContext) (pk : ℕ) (document : Document) (upload : Upload)
    (actor : User) (s s' : DocumentStore) (attachment : Attachment)
    → create_attachment c scan pk document upload actor s ≡ (ok attachment, s')
    → IsAttached c scan pk document upload actor s (attachment, s')
unfolding create_attachment
create_attachment_scanned c scan pk document upload actor s s' attachment h =
    let m = create_locked c scan pk document upload actor s in
    Ensures-elim (IsAttached c scan pk document upload actor s) m (attachment, s')
      (create_locked-Ensures c scan pk document upload actor s) (atomic-ok s s' attachment m h)
