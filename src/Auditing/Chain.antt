-- ===== src/Auditing/Chain.antt =====
-- The events of an organization form a chain of digests, which shows any change.
use payroll_management_syste.Prelude.{
  ℕ, String, ◌≡◌, refl, sym, ap, subst, ◌∙◌, inl, inr, Option, none, some, List, [], ◌∷◌, ◌++◌, map,
  append-nil, arith, str_eq, ◌==◌, ==_iff, Bool-cases, Option-cases, length, any, select, Elem,
  select-append,
}
use payroll_management_syste.Outcome.{ok, integrity_error, raise_if, Ensures-bind, Ensures-elim}
use payroll_management_syste.Auditing.{
  AuditPayload, AuditEvent, EventRequest, hash_payload, newest_hash, or_blank, linked, event_of,
  sealed, save_event, record_event,
}

abbrev pub of_organization : ℕ → List AuditEvent → List AuditEvent
of_organization organization = select (λ e. e.organization == organization)

-- The hash behind which the next event follows.
abbrev pub last_hash : String → List AuditEvent → String
last_hash start [] = start
last_hash start (e ∷ es) = last_hash e.integrity_hash es

abbrev get_or : Option String → String → String
get_or none d = d
get_or (some h) d = h

or_blank_get : (o : Option String) → or_blank o ≡ get_or o ""
or_blank_get none = refl
or_blank_get (some h) = refl

-- An event without its label.
abbrev pub unlabelled : AuditEvent → AuditEvent
unlabelled e = record e { object_label = "" }

-- The event without its label that has the payload and the hash.
abbrev of_payload : AuditPayload → String → AuditEvent
of_payload p hash = record {
  organization = p.organization;
  actor = p.actor;
  action = p.action;
  occurred_at = p.occurred_at;
  object_type = p.object_type;
  object_id = p.object_id;
  object_label = "";
  before_summary = p.before;
  after_summary = p.after;
  request_id = p.request_id;
  source_address = p.source_address;
  is_sensitive_access = p.sensitive;
  previous_hash = p.previous_hash;
  integrity_hash = hash;
}

unlabelled-determined :
    (x y : AuditEvent)
    → hash_payload x ≡ hash_payload y
    → x.integrity_hash ≡ y.integrity_hash
    → unlabelled x ≡ unlabelled y
unlabelled-determined x y same hashes =
    let is_x : unlabelled x ≡ of_payload (hash_payload x) x.integrity_hash = refl in
    let is_y : of_payload (hash_payload y) y.integrity_hash ≡ unlabelled y = refl in
    is_x
    ∙ ap (λ p. of_payload p x.integrity_hash) same
    ∙ ap (of_payload (hash_payload y)) hashes
    ∙ is_y

module _ (digest : AuditPayload → String) where
  -- Each event names the hash of the one before, and has the digest of its own payload.
  abbrev pub IsChain : String → List AuditEvent → Type 0
  IsChain start [] = Unit
  IsChain start (e ∷ es) =
      (e.previous_hash ≡ start)
      × (e.integrity_hash ≡ digest (hash_payload e))
      × IsChain e.integrity_hash es

  -- The events of every organization are a chain from the empty text on.
  abbrev pub AreChains : List AuditEvent → Type 0
  AreChains events = (organization : ℕ) → IsChain "" (of_organization organization events)

  IsChain-append :
      (start : String) (es : List AuditEvent) (e : AuditEvent)
      → IsChain start es
      → e.previous_hash ≡ last_hash start es
      → e.integrity_hash ≡ digest (hash_payload e)
      → IsChain start (es ++ e ∷ [])
  IsChain-append start [] e h follows hashed = (follows, hashed, tt)
  IsChain-append start (x ∷ es) e (first, own, rest) follows hashed =
      (first, own, IsChain-append x.integrity_hash es e rest follows hashed)

  newest_or :
      (organization : ℕ) (start : String) (es : List AuditEvent)
      → last_hash start (of_organization organization es)
        ≡ get_or (newest_hash organization es) start
  unfolding newest_hash
  newest_or organization start [] = refl
  newest_or organization start (e ∷ es) = elim (Bool-cases (e.organization == organization)) [
    | inl t ↦ elim (Option-cases (newest_hash organization es)) [
      | inl absent ↦
          rw (t, absent, t)
            (newest_or organization e.integrity_hash es
              ∙ ap (λ o. get_or o e.integrity_hash) absent)
      | inr (h, found) ↦
          rw (t, found)
            (newest_or organization e.integrity_hash es ∙ ap (λ o. get_or o e.integrity_hash) found)
    ]
    | inr f ↦ elim (Option-cases (newest_hash organization es)) [
      | inl absent ↦
          rw (f, absent, f) (newest_or organization start es ∙ ap (λ o. get_or o start) absent)
      | inr (h, found) ↦
          rw (f, found) (newest_or organization start es ∙ ap (λ o. get_or o start) found)
    ]
  ]

  -- Recording an event keeps the events of every organization a chain: each names the hash of the
  -- one before it, and has the digest of its own payload.
  pub record_event-AreChains :
      (r : EventRequest) (now : ℕ) (events events' : List AuditEvent)
      → AreChains events
      → record_event digest r now events ≡ ok events'
      → AreChains events'
  unfolding record_event save_event
  record_event-AreChains r now events events' h e =
      let event = sealed digest (linked events (event_of r now)) in
      Ensures-elim AreChains (record_event digest r now events) events'
        (Ensures-bind AreChains
          (raise_if (any (λ x. str_eq x.integrity_hash event.integrity_hash) events)
            integrity_error)
          _
          λ _ _ organization. elim (Bool-cases (r.organization == organization)) [
            | inl t ↦
                let same = (==_iff r.organization organization).0 t in
                let follows : or_blank (newest_hash r.organization events)
                    ≡ last_hash "" (of_organization organization events) =
                  or_blank_get (newest_hash r.organization events)
                  ∙ ap (λ k. get_or (newest_hash k events) "") same
                  ∙ sym (newest_or organization "" events) in
                let one : of_organization organization (event ∷ []) ≡ event ∷ [] = rw t refl in
                subst (IsChain "")
                  (sym (
                    select-append (λ x. x.organization == organization) events (event ∷ [])
                    ∙ ap (λ xs. of_organization organization events ++ xs) one))
                  (IsChain-append "" (of_organization organization events) event (h organization)
                    follows refl)
            | inr f ↦
                let nothing : of_organization organization (event ∷ []) ≡ [] = rw f refl in
                subst (IsChain "")
                  (sym (
                    select-append (λ x. x.organization == organization) events (event ∷ [])
                    ∙ ap (λ xs. of_organization organization events ++ xs) nothing
                    ∙ append-nil (of_organization organization events)))
                  (h organization)
          ])
        e

  -- Two chains of the same length that end in the same hash have the same events, but for the labels
  -- of their objects, and start behind the same hash, if no two different payloads of theirs have
  -- the same digest: a change of any other field of an event shows in the last hash.
  pub IsChain-determined :
      (start start' : String) (es es' : List AuditEvent)
      → IsChain start es
      → IsChain start' es'
      → length es ≡ length es'
      → last_hash start es ≡ last_hash start' es'
      → ((x y : AuditEvent)
          → Elem x es
          → Elem y es'
          → digest (hash_payload x) ≡ digest (hash_payload y)
          → hash_payload x ≡ hash_payload y)
      → (map unlabelled es ≡ map unlabelled es') × (start ≡ start')
  IsChain-determined start start' [] [] h h' size ends apart = (refl, ends)
  IsChain-determined start start' [] (y ∷ es') h h' size ends apart =
      let absurd : ⊥ = omega (arith, size) in elim absurd [ ]
  IsChain-determined start start' (x ∷ es) [] h h' size ends apart =
      let absurd : ⊥ = omega (arith, size) in elim absurd [ ]
  IsChain-determined start start' (x ∷ es) (y ∷ es') (first, own, rest) (first', own', rest') size
        ends apart =
      let shorter : length es ≡ length es' = omega (arith, size) in
      let (others, hashes) =
        IsChain-determined x.integrity_hash y.integrity_hash es es' rest rest' shorter ends
          (λ a b m n. apart a b (inr m) (inr n)) in
      let same = apart x y (inl refl) (inl refl) (sym own ∙ hashes ∙ own') in
      (
        ap (λ e. e ∷ map unlabelled es) (unlabelled-determined x y same hashes)
            ∙ ap (λ es. unlabelled y ∷ es) others,
        sym first ∙ ap (λ (p : AuditPayload). p.previous_hash) same ∙ first',
      )
