-- ===== src/Auditing/Tests.antt =====
-- A trail of two events, with the object's key in place of a digest.
use payroll_management_syste.Prelude.{
  String, ◌≡◌, refl, sym, ap, ◌∙◌, inl, inr, false, none, [], ◌∷◌, map, ◌==◌, Bool-cases, Elem,
}
use payroll_management_syste.Outcome.{ok}
use payroll_management_syste.Auditing.{
  AuditPayload, AuditEvent, EventRequest, hash_payload, newest_hash, event_of, sealed, save_event,
  record_event, create,
}
use payroll_management_syste.Auditing.Chain.{
  unlabelled, AreChains, record_event-AreChains, IsChain-determined,
}

abbrev digest : AuditPayload → String
digest p = p.object_id

abbrev request : String → EventRequest
request object_id = record {
  organization = 1;
  action = create;
  object_type = "payroll.CalculationRun";
  actor = none;
  object_id = object_id;
  object_label = "";
  before = [];
  after = [];
  request_id = "";
  source_address = none;
  sensitive = false;
}

abbrev first : AuditEvent
first = sealed digest (event_of (request "run-1") 5)

abbrev second : AuditEvent
second = sealed digest (record (event_of (request "run-2") 6) { previous_hash = "run-1" })

records : record_event digest (request "run-2") 6 (first ∷ []) ≡ ok (first ∷ second ∷ [])
unfolding record_event save_event newest_hash
records = refl

one_event : AreChains digest (first ∷ [])
one_event organization = elim (Bool-cases (1 == organization)) [
  | inl t ↦ rw t (refl, refl, tt)
  | inr f ↦ rw f tt
]

record_event-AreChains_example : AreChains digest (first ∷ second ∷ [])
record_event-AreChains_example =
    record_event-AreChains digest (request "run-2") 6 (first ∷ []) (first ∷ second ∷ []) one_event
      records

abbrev relabelled : AuditEvent
relabelled = record first { object_label = "another label" }

same_event :
    (x y : AuditEvent)
    → Elem x (first ∷ [])
    → Elem y (relabelled ∷ [])
    → digest (hash_payload x) ≡ digest (hash_payload y)
    → hash_payload x ≡ hash_payload y
same_event x y (inl a) (inl b) h = ap (λ e. hash_payload e) a ∙ sym (ap (λ e. hash_payload e) b)
same_event x y (inl a) (inr n) h = elim n [ ]
same_event x y (inr m) n h = elim m [ ]

IsChain-determined_example :
    (map unlabelled (first ∷ []) ≡ map unlabelled (relabelled ∷ []))
    × (relabelled.previous_hash ≡ "")
IsChain-determined_example =
    IsChain-determined digest "" "" (first ∷ []) (relabelled ∷ []) (refl, refl, tt) (refl, refl, tt)
      refl refl same_event
