-- ===== src/Documents/Models.antt =====
-- apps/documents/models.py: the rows that the workflows read and write. A foreign key is the number
-- of the row that it names, a date its ordinal.
use payroll_management_syste.Prelude.{
  ℕ, String, Bool, true, false, ◌&&◌, Option, none, some, List, ◌==◌, any,
}
use payroll_management_syste.Organizations.{OrganizationMembership}
use payroll_management_syste.Auditing.{AuditPayload, AuditEvent}

-- `WorkflowStatus`
pub data WorkflowStatus : Type 0 where
  requested approved completed rejected : WorkflowStatus

abbrev pub is_requested : WorkflowStatus → Bool
is_requested requested = true
is_requested _ = false

abbrev pub is_approved : WorkflowStatus → Bool
is_approved approved = true
is_approved _ = false

-- The metadata of a document, as far as the workflows write it.
pub record Document : Type 0 where
  pub pk : ℕ
  pub organization : ℕ
  pub retention_until : Option ℕ
  pub archived_at : Option ℕ
  pub purged_attachment_checksums : Option (List String)

-- `has_file` is false after the file is deleted from the storage.
pub record Attachment : Type 0 where
  pub pk : ℕ
  pub document : ℕ
  pub checksum_sha256 : String
  pub has_file : Bool

pub record LegalHold : Type 0 where
  pub pk : ℕ
  pub organization : ℕ
  pub document : ℕ
  pub reason : String
  pub placed_by : ℕ
  pub released_by : Option ℕ
  pub released_at : Option ℕ

pub record RedactionRequest : Type 0 where
  pub pk : ℕ
  pub organization : ℕ
  pub document : ℕ
  pub requested_by : ℕ
  pub approved_by : Option ℕ
  pub fields : List String
  pub reason : String
  pub status : WorkflowStatus
  pub completed_at : Option ℕ

-- The tables, oldest row first, and the keys to be given next.
pub record DocumentStore : Type 0 where
  pub documents : List Document
  pub attachments : List Attachment
  pub holds : List LegalHold
  pub redactions : List RedactionRequest
  pub events : List AuditEvent
  pub next_hold : ℕ
  pub next_redaction : ℕ

abbrev pub is_open : Option ℕ → Bool
is_open none = true
is_open (some _) = false

-- `Document.is_on_legal_hold`
abbrev pub is_on_legal_hold : ℕ → List LegalHold → Bool
is_on_legal_hold document = any (λ h. h.document == document && is_open h.released_at)

-- What the workflows read besides their tables.
pub record DocumentContext : Type 0 where
  pub memberships : List OrganizationMembership
  pub digest : AuditPayload → String
  -- `str` of a key.
  pub text_of : ℕ → String
  pub now : ℕ
  pub today : ℕ
