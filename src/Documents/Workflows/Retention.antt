-- ===== src/Documents/Workflows/Retention.antt =====
-- What a purge needs, and that a hold stops it.
use payroll_management_syste.Prelude.{ℕ, ◌≡◌, refl, ap, Bool, true, false, List, ◌∷◌, map}
use payroll_management_syste.Outcome.{
  Result, ok, err, validation_error, raise_if, raise_if-ok, raise_unless, raise_unless-ok, atomic,
  atomic-ok, Ensures, Ensures-bind, Ensures-last, Ensures-elim,
}
use payroll_management_syste.Organizations.{User, document_manage_retention, document_redact}
use payroll_management_syste.Auditing.{AuditAction, AuditEvent, EventRequest, record_event}
use payroll_management_syste.Documents.Models.{
  Document, RedactionRequest, DocumentStore, DocumentContext, WorkflowStatus, requested, approved,
  completed, rejected, is_approved, is_on_legal_hold,
}
use payroll_management_syste.Documents.Workflows.{
  or_saved, allowed, audited, event_request, named, check_purge, record_purge, purge_locked,
  purge_expired_document, after_check, without_files, purged, checksums_of, is_retained,
  check_redaction, or_saved, written_then_audited, complete_redaction, save_redaction,
  with_completion,
}

-- The store with one more event, and all else as it was.
abbrev pub IsAudited : DocumentContext → EventRequest → DocumentStore → DocumentStore → Type 0
IsAudited c r s s' =
    (events : List AuditEvent) × (record_event c.digest r c.now s.events ≡ ok events)
    × (s' ≡ record s { events = events })

pub audited-Ensures :
    (c : DocumentContext) (r : EventRequest) (s : DocumentStore)
    → Ensures (IsAudited c r s) (audited c r s)
unfolding audited
audited-Ensures c r s =
    Ensures-bind (IsAudited c r s) (record_event c.digest r c.now s.events) _
      λ events recorded. (events, recorded, refl)

abbrev IsPurgeable : DocumentContext → Document → User → DocumentStore → Type 0
IsPurgeable c document actor s =
    (allowed c actor document.organization document_manage_retention ≡ ok tt)
    × (is_on_legal_hold document.pk s.holds ≡ false)
    × (is_retained document.retention_until c.today ≡ false)

check_purge-Ensures :
    (c : DocumentContext) (document : Document) (actor : User) (s : DocumentStore)
    → Ensures (λ _. IsPurgeable c document actor s) (check_purge c document actor s)
unfolding check_purge
check_purge-Ensures c document actor s =
    let P = λ (_ : Unit {0}). IsPurgeable c document actor s in
    Ensures-bind P (allowed c actor document.organization document_manage_retention) _ λ _ may.
      Ensures-bind P
        (raise_if (is_on_legal_hold document.pk s.holds)
          (validation_error "a document on legal hold cannot be purged"))
        _
        λ _ free.
          Ensures-last P
            (raise_if (is_retained document.retention_until c.today)
              (validation_error "the document retention period has not expired"))
            λ _ expired. (may, raise_if-ok _ _ free, raise_if-ok _ _ expired)

abbrev pub IsPurged :
    DocumentContext → Document → User → DocumentStore → Document × DocumentStore → Type 0
IsPurged c document actor s (document', s') =
    IsPurgeable c document actor s
    × (document' ≡ purged c.now (checksums_of document.pk s.attachments) document)
    × IsAudited c
        (event_request document.organization actor AuditAction.retention "documents.Document"
          (c.text_of document.pk)
          (("purged", "true") ∷ named "checksums" (checksums_of document.pk s.attachments)))
        (record_purge c document s) s'

purge_locked-Ensures :
    (c : DocumentContext) (document : Document) (actor : User) (s : DocumentStore)
    → IsPurgeable c document actor s
    → Ensures (IsPurged c document actor s) (purge_locked c document actor s)
unfolding purge_locked
purge_locked-Ensures c document actor s passed =
    let P = IsPurged c document actor s in
    let r =
      event_request document.organization actor AuditAction.retention "documents.Document"
        (c.text_of document.pk)
        (("purged", "true") ∷ named "checksums" (checksums_of document.pk s.attachments)) in
    Ensures-bind P (audited c r (record_purge c document s)) _ λ s' recorded. (
      passed,
      refl,
      Ensures-elim (IsAudited c r (record_purge c document s))
          (audited c r (record_purge c document s)) s'
          (audited-Ensures c r (record_purge c document s)) recorded,
    )

checked-ok :
    (checks : Result (Unit {0})) (s s' : DocumentStore) (document : Document)
    (rest : Result Document × DocumentStore)
    → after_check checks s rest ≡ (ok document, s')
    → (checks ≡ ok tt) × (rest ≡ (ok document, s'))
checked-ok (err x) s s' document rest e = cc
checked-ok (ok _) s s' document rest e = (refl, e)

-- A purge that returns was made by an actor who may manage the retention in the document's
-- organization, while no hold on the document was open and after its retention had expired. The
-- files of the document are gone, their checksums are kept in it, and one audit event with these
-- checksums is recorded; no hold and no redaction changes.
pub purge_expired_document_purges :
    (c : DocumentContext) (document : Document) (actor : User) (s s' : DocumentStore)
    (document' : Document)
    → purge_expired_document c document actor s ≡ (ok document', s')
    → IsPurged c document actor s (document', s')
      × (s'.holds ≡ s.holds)
      × (s'.redactions ≡ s.redactions)
unfolding purge_expired_document record_purge
purge_expired_document_purges c document actor s s' document' e =
    let m = purge_locked c document actor s in
    let (passes, returns) =
      checked-ok (check_purge c document actor s) s s' document'
        (atomic (without_files document s) m) e in
    let may =
      Ensures-elim (λ _. IsPurgeable c document actor s) (check_purge c document actor s) tt
        (check_purge-Ensures c document actor s) passes in
    let (checked, same, (events, recorded, written)) =
      Ensures-elim (IsPurged c document actor s) m (document', s')
        (purge_locked-Ensures c document actor s may)
        (atomic-ok (without_files document s) s' document' m returns) in
    (
      (checked, same, (events, recorded, written)),
      ap (λ (x : DocumentStore). x.holds) written,
      ap (λ (x : DocumentStore). x.redactions) written,
    )

was_approved : (w : WorkflowStatus) → is_approved w ≡ true → w ≡ approved
was_approved requested h = cc
was_approved approved h = refl
was_approved completed h = cc
was_approved rejected h = cc

or_saved-ok :
    (m : Result DocumentStore) (redaction redaction' : RedactionRequest) (saved s' : DocumentStore)
    → or_saved m redaction saved ≡ (ok redaction', s')
    → (redaction' ≡ redaction) × (m ≡ ok s')
or_saved-ok (err x) redaction redaction' saved s' e = cc
or_saved-ok (ok t) redaction redaction' saved s' e = (cc, cc)

written-ok :
    (c : DocumentContext) (checks : Result (Unit {0})) (r : EventRequest)
    (redaction redaction' : RedactionRequest) (saved s s' : DocumentStore)
    → written_then_audited c checks r redaction saved s ≡ (ok redaction', s')
    → (checks ≡ ok tt) × (redaction' ≡ redaction) × (audited c r saved ≡ ok s')
unfolding written_then_audited
written-ok c (err x) r redaction redaction' saved s s' e = cc
written-ok c (ok _) r redaction redaction' saved s s' e =
    let (same, recorded) = or_saved-ok (audited c r saved) redaction redaction' saved s' e in
    (refl, same, recorded)

check_redaction-ok :
    (c : DocumentContext) (actor : User) (redaction : RedactionRequest) (has_status : Bool)
    → Ensures
        (λ _.
          (allowed c actor redaction.organization document_redact ≡ ok tt) × (has_status ≡ true))
        (check_redaction c actor redaction has_status)
unfolding check_redaction
check_redaction-ok c actor redaction has_status =
    let P = λ (_ : Unit {0}).
      (allowed c actor redaction.organization document_redact ≡ ok tt) × (has_status ≡ true) in
    Ensures-bind P (allowed c actor redaction.organization document_redact) _ λ _ may.
      Ensures-last P
        (raise_unless has_status
          (validation_error "the redaction is not in the status that this step wants"))
        λ _ status. (may, raise_unless-ok _ _ status)

-- A completion that returns was made by an actor who may redact in the organization, on a request
-- that was approved; it stores the completion and one audit event.
pub complete_redaction_approved :
    (c : DocumentContext) (redaction redaction' : RedactionRequest) (actor : User) (ids : List ℕ)
    (s s' : DocumentStore)
    → complete_redaction c redaction actor ids s ≡ (ok redaction', s')
    → (allowed c actor redaction.organization document_redact ≡ ok tt)
      × (redaction.status ≡ approved)
      × (redaction' ≡ with_completion c.now redaction)
      × IsAudited c
          (event_request redaction.organization actor AuditAction.redact
            "documents.RedactionRequest"
            (c.text_of redaction.pk)
            (("status", "completed") ∷ named "redacted_attachment_ids" (map c.text_of ids)))
          (save_redaction redaction.pk (with_completion c.now) s)
          s'
unfolding complete_redaction
complete_redaction_approved c redaction redaction' actor ids s s' e =
    let checks = check_redaction c actor redaction (is_approved redaction.status) in
    let saved = save_redaction redaction.pk (with_completion c.now) s in
    let r =
      event_request redaction.organization actor AuditAction.redact "documents.RedactionRequest"
        (c.text_of redaction.pk)
        (("status", "completed") ∷ named "redacted_attachment_ids" (map c.text_of ids)) in
    let (passed, same, recorded) =
      written-ok c checks r (with_completion c.now redaction) redaction' saved s s' e in
    let (may, status) =
      Ensures-elim
        (λ _.
          (allowed c actor redaction.organization document_redact ≡ ok tt)
          × (is_approved redaction.status ≡ true))
        checks tt (check_redaction-ok c actor redaction (is_approved redaction.status)) passed in
    (
      may,
      was_approved redaction.status status,
      same,
      Ensures-elim (IsAudited c r saved) (audited c r saved) s' (audited-Ensures c r saved)
          recorded,
    )
