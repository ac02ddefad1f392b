-- ===== src/Auditing.antt =====
-- apps/auditing/models.py and `record_event` of apps/auditing/services.py: the audit trail. The
-- SHA-256 digest of the canonical JSON text of an event is a parameter; a summary is a list of
-- names with texts.
pub mod Chain
pub mod Requests
mod Tests
use payroll_management_syste.Prelude.{
  ℕ, zero, suc, ◌+◌, ◌-◌, ◌*◌, ◌/◌, ◌%◌, ◌^◌, ◌≤◌, ◌<◌, max, min, String, ◌≡◌, refl, sym, ap, subst,
  ◌∙◌, ◌≢◌, ◌↔◌, ◌⊎◌, inl, inr, Bool, true, false, not, ◌&&◌, ◌||◌, Option, none, some,
  some-injective, List, [], ◌∷◌, ◌++◌, map, append-nil, append_assoc, arith, str_eq, str_eq_iff,
  ltb, leb, ◌==◌, if◌then◌else◌, ==_iff, Bool-cases, Option-cases, length, length-append, any, all,
  select, find, update_where, All, All-append, any-append, Elem, find-Elem, Elem-any, find_sound,
  select-append, All-select, All-map, Elem-select, select-Elem, select-All, find-append_new,
  length-update_where,
}
use payroll_management_syste.Outcome.{
  Result, ok, err, validation_error, integrity_error, raise_if, ◌>>=◌, ◌>>◌,
}
use payroll_management_syste.Prelude.Text.{text_take}
use payroll_management_syste.Organizations.{User}

-- `AuditAction`
pub data AuditAction : Type 0 where
  access create update approve delete export redact legal_hold retention : AuditAction

abbrev pub Summary : Type 0
Summary = List (String × String)

-- What the digest is taken of.
pub record AuditPayload : Type 0 where
  pub organization : ℕ
  pub actor : Option ℕ
  pub action : AuditAction
  pub occurred_at : ℕ
  pub object_type : String
  pub object_id : String
  pub before : Summary
  pub after : Summary
  pub request_id : String
  pub source_address : Option String
  pub sensitive : Bool
  pub previous_hash : String

pub record AuditEvent : Type 0 where
  pub organization : ℕ
  pub actor : Option ℕ
  pub action : AuditAction
  pub occurred_at : ℕ
  pub object_type : String
  pub object_id : String
  pub object_label : String
  pub before_summary : Summary
  pub after_summary : Summary
  pub request_id : String
  pub source_address : Option String
  pub is_sensitive_access : Bool
  pub previous_hash : String
  pub integrity_hash : String

-- The argument of the digest in `_hash_payload`. The label of the object is not part of it.
abbrev pub hash_payload : AuditEvent → AuditPayload
hash_payload e = record {
  organization = e.organization;
  actor = e.actor;
  action = e.action;
  occurred_at = e.occurred_at;
  object_type = e.object_type;
  object_id = e.object_id;
  before = e.before_summary;
  after = e.after_summary;
  request_id = e.request_id;
  source_address = e.source_address;
  sensitive = e.is_sensitive_access;
  previous_hash = e.previous_hash;
}

-- `filter(organization_id=…).order_by("-pk").first()`, and its hash or the empty text.
unfoldable pub newest_hash : ℕ → List AuditEvent → Option String
newest_hash organization [] = none
newest_hash organization (e ∷ es) = elim (newest_hash organization es) [
  | some h ↦ some h
  | none ↦ if e.organization == organization then some e.integrity_hash else none
]

abbrev pub or_blank : Option String → String
or_blank none = ""
or_blank (some h) = h

-- `if not self.previous_hash: …`
abbrev pub linked : List AuditEvent → AuditEvent → AuditEvent
linked events e =
    if str_eq e.previous_hash ""
    then record e { previous_hash = or_blank (newest_hash e.organization events) }
    else e

-- What the caller of `record_event` passes, with what `_request_context` found in the request.
pub record EventRequest : Type 0 where
  pub organization : ℕ
  pub action : AuditAction
  pub object_type : String
  pub actor : Option User
  pub object_id : String
  pub object_label : String
  pub before : Summary
  pub after : Summary
  pub request_id : String
  pub source_address : Option String
  pub sensitive : Bool

-- `actor if getattr(actor, "is_authenticated", False) else None`
abbrev pub known_actor : Option User → Option ℕ
known_actor none = none
known_actor (some user) = if user.is_authenticated then some user.pk else none

abbrev pub event_of : EventRequest → ℕ → AuditEvent
event_of r now = record {
  organization = r.organization;
  actor = known_actor r.actor;
  action = r.action;
  occurred_at = now;
  object_type = r.object_type;
  object_id = r.object_id;
  object_label = text_take 255 r.object_label;
  before_summary = r.before;
  after_summary = r.after;
  request_id = r.request_id;
  source_address = r.source_address;
  is_sensitive_access = r.sensitive;
  previous_hash = "";
  integrity_hash = "";
}

module _ (digest : AuditPayload → String) where
  abbrev pub sealed : AuditEvent → AuditEvent
  sealed e = record e { integrity_hash = digest (hash_payload e) }

  -- `AuditEvent.save`; a stored event, `is_stored`, is refused. The hash is unique.
  unfoldable pub save_event : Bool → AuditEvent → List AuditEvent → Result (List AuditEvent)
  save_event is_stored e events = do
    raise_if is_stored (validation_error "audit events are immutable")
    let event = sealed (linked events e)
    raise_if (any (λ x. str_eq x.integrity_hash event.integrity_hash) events) integrity_error
    ok (events ++ event ∷ [])

  -- `record_event`
  unfoldable pub record_event : EventRequest → ℕ → List AuditEvent → Result (List AuditEvent)
  record_event r now events = save_event false (event_of r now) events
