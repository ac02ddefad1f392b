-- ===== src/Documents/Uploads.antt =====
-- apps/documents/services/uploads.py: the checks of an uploaded file, and its attachment. Texts and
-- contents are lists of codes and bytes; the guess of a type from a file name is a table of the system,
-- and the digest is SHA-256.
pub mod Scanned
pub mod Attached
mod Tests
use payroll_management_syste.Prelude.{
  ℕ, zero, suc, ◌+◌, ◌-◌, ◌*◌, ◌/◌, ◌%◌, ◌^◌, ◌≤◌, ◌<◌, max, min, String, ◌≡◌, refl, sym, ap, subst,
  ◌∙◌, ◌≢◌, ◌↔◌, ◌⊎◌, inl, inr, Bool, true, false, not, ◌&&◌, ◌||◌, Option, none, some,
  some-injective, List, [], ◌∷◌, ◌++◌, map, append-nil, append_assoc, arith, str_eq, str_eq_iff,
  ltb, leb, ◌==◌, if◌then◌else◌, ==_iff, Bool-cases, Option-cases, length, length-append, any, all,
  select, find, update_where, All, All-append, any-append, Elem, find-Elem, Elem-any, find_sound,
  select-append, All-select, All-map, Elem-select, select-Elem, select-All, find-append_new,
  length-update_where,
}
use payroll_management_syste.Prelude.Text.{codes, to_lower, starts_with, contains}
use payroll_management_syste.Outcome.{
  Result, ok, err, validation_error, or_raise, raise_if, raise_unless, ◌>>=◌, ◌>>◌, atomic,
}
use payroll_management_syste.Documents.Models.{DocumentStore, Attachment, DocumentContext, Document}
use payroll_management_syste.Organizations.{document_write, User}
use payroll_management_syste.Auditing.{AuditAction, EventRequest}
use payroll_management_syste.Documents.Workflows.{audited, allowed}

-- The file as django passes it: `name` has no folder.
pub record Upload : Type 0 where
  pub name : String
  pub size : ℕ
  pub content_type : Option String
  pub content : List ℕ

pub record ScanContext : Type 0 where
  pub max_upload_bytes : ℕ
  pub guess_type : String → Option (List ℕ)
  pub sha256 : List ℕ → String

abbrev pub same_codes : List ℕ → List ℕ → Bool
same_codes [] [] = true
same_codes [] (c ∷ cs) = false
same_codes (p ∷ ps) [] = false
same_codes (p ∷ ps) (c ∷ cs) = p == c && same_codes ps cs

-- The extensions and the magic bytes of an allowed type.
pub record TypeRule : Type 0 where
  pub name : String
  pub content_type : List ℕ
  pub extensions : List (List ℕ)
  pub magic : Option (List ℕ)

abbrev type_rule : String → List String → Option (List ℕ) → TypeRule
type_rule content_type extensions magic = record {
  name = content_type;
  content_type = codes content_type;
  extensions = map codes extensions;
  magic = magic;
}

-- `DEFAULT_ALLOWED_TYPES`
unfoldable pub allowed_types : List TypeRule
allowed_types =
    type_rule "application/pdf" (".pdf" ∷ []) (some (codes "%PDF-"))
    ∷ type_rule "image/png" (".png" ∷ [])
        (some (0x89 ∷ 0x50 ∷ 0x4E ∷ 0x47 ∷ 13 ∷ 10 ∷ 0x1A ∷ 10 ∷ []))
    ∷ type_rule "image/jpeg" (".jpg" ∷ ".jpeg" ∷ []) (some (0xFF ∷ 0xD8 ∷ 0xFF ∷ []))
    ∷ type_rule "text/plain" (".txt" ∷ []) none
    ∷ type_rule "text/csv" (".csv" ∷ []) none
    ∷ []

-- `DANGEROUS_SIGNATURES`
unfoldable pub dangerous_signatures : List (List ℕ)
dangerous_signatures =
    codes "X5O!P%@AP[4\\PZX54(P^)7CC)7}$EICAR" ∷ codes "<script" ∷ codes "<?php" ∷ codes "MZ" ∷ []

-- `(getattr(upload, "content_type", "") or "").lower()`
abbrev pub supplied_type : Option String → List ℕ
supplied_type none = []
supplied_type (some text) = map to_lower (codes text)

-- The rest of a name from its last period on.
unfoldable pub last_period : List ℕ → Option (List ℕ)
last_period [] = none
last_period (c ∷ cs) = elim (last_period cs) [
  | some rest ↦ some rest
  | none ↦ if c == b'.' then some (c ∷ cs) else none
]

abbrev suffix_found : Option (List ℕ) → List ℕ
suffix_found none = []
suffix_found (some rest) = if length rest == 1 then [] else rest

-- `Path(name).suffix`: not from a period at the start of the name, nor from one at its end.
unfoldable pub suffix : List ℕ → List ℕ
unfolding last_period
suffix [] = []
suffix (c ∷ cs) = suffix_found (last_period cs)

-- `not rules or guessed_type != supplied_type`
abbrev pub is_guessed : Option (List ℕ) → List ℕ → Bool
is_guessed none supplied = false
is_guessed (some guessed) supplied = same_codes guessed supplied

abbrev pub has_magic : Option (List ℕ) → List ℕ → Bool
has_magic none content = true
has_magic (some magic) content = starts_with magic content

-- `any(signature.lower() in lowered for signature in DANGEROUS_SIGNATURES)`
abbrev pub is_dangerous : List ℕ → Bool
is_dangerous content =
    any (λ s. contains (map to_lower s) (map to_lower content)) dangerous_signatures

-- `validate_and_scan`: the checksum and the type, which is the name of the rule found for it.
unfoldable pub validate_and_scan : ScanContext → Upload → Result (String × String)
validate_and_scan c upload = do
  raise_if (ltb c.max_upload_bytes upload.size) (validation_error "file exceeds the upload limit")
  let supplied = supplied_type upload.content_type
  let extension = map to_lower (suffix (codes upload.name))
  rules ←
      or_raise (find (λ r. same_codes r.content_type supplied) allowed_types)
        (validation_error "file type or extension is not allowed")
  raise_unless (is_guessed (c.guess_type upload.name) supplied)
      (validation_error "file type or extension is not allowed")
  raise_unless (any (same_codes extension) rules.extensions)
      (validation_error "file extension does not match its declared type")
  raise_unless (has_magic rules.magic upload.content)
      (validation_error "file content does not match its declared type")
  raise_if (is_dangerous upload.content)
      (validation_error "upload rejected by malware/content scan")
  ok (c.sha256 upload.content, rules.name)

-- The stored row, and the event about it.
abbrev pub attachment_of : ℕ → Document → String → Attachment
attachment_of pk document checksum = record {
  pk = pk;
  document = document.pk;
  checksum_sha256 = checksum;
  has_file = true;
}

abbrev pub creation_event :
    DocumentContext → ℕ → Document → Upload → User → String → String → EventRequest
creation_event c pk document upload actor checksum content_type = record {
  organization = document.organization;
  action = AuditAction.create;
  object_type = "documents.Attachment";
  actor = some actor;
  object_id = c.text_of pk;
  object_label = upload.name;
  before = [];
  after =
      ("checksum_sha256", checksum)
      ∷ ("content_type", content_type)
      ∷ ("size_bytes", c.text_of upload.size)
      ∷ [];
  request_id = "";
  source_address = none;
  sensitive = false;
}

unfoldable pub create_locked :
    DocumentContext
    → ScanContext
    → ℕ
    → Document
    → Upload
    → User
    → DocumentStore
    → Result (Attachment × DocumentStore)
create_locked c scan pk document upload actor s = do
  allowed c actor document.organization document_write
  (checksum, content_type) ← validate_and_scan scan upload
  let attachment = attachment_of pk document checksum
  s' ←
      audited c (creation_event c pk document upload actor checksum content_type)
        (record s { attachments = s.attachments ++ attachment ∷ [] })
  ok (attachment, s')

-- `create_attachment`, with the key that the new row is given.
unfoldable pub create_attachment :
    DocumentContext
    → ScanContext
    → ℕ
    → Document
    → Upload
    → User
    → DocumentStore
    → Result Attachment × DocumentStore
create_attachment c scan pk document upload actor s =
    atomic s (create_locked c scan pk document upload actor s)
