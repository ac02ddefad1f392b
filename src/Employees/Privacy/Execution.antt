-- ===== src/Employees/Privacy/Execution.antt =====
-- When a request may be executed, and what its completion writes.
use payroll_management_syste.Prelude.{
  ◌∙◌, update_where, ap, ℕ, String, ◌≡◌, refl, sym, ◌≢◌, Bool, true, false, ◌&&◌, Option, none,
  some, List, arith, ◌==◌, ==_iff,
}
use payroll_management_syste.Outcome.{
  raise_if-ok, permission_denied, raise_if, raise_unless-ok, validation_error, raise_unless,
  ok-injective, Ensures-last, Ensures-bind, >>=-eq-ok, Ensures-elim, Ensures, ok,
}
use payroll_management_syste.Auditing.{AuditEvent, record_event}
use payroll_management_syste.Employees.Privacy.{
  with_completion, save_request, completion_event, is_manager, PrivacyStore, type_code, is_approved,
  has_approver, complete, check_execution, authorize_execution, PrivacyContext,
}
use payroll_management_syste.Employees.Models.{
  DataSubjectRequest, PrivacyRequestType, PrivacyRequestStatus,
}
use payroll_management_syste.Organizations.{User}

-- An independently approved request of the wanted type, executed by a manager who did not make it.
abbrev pub IsExecutable : PrivacyContext → DataSubjectRequest → User → PrivacyRequestType → Type 0
IsExecutable c r actor request_type =
    (r.status ≡ PrivacyRequestStatus.approved)
    × ((approver : ℕ) × (r.approved_by ≡ some approver))
    × (actor.pk ≢ r.requested_by)
    × (is_manager c actor ≡ true)
    × (r.request_type ≡ request_type)

was_approved :
    (status : PrivacyRequestStatus)
    → is_approved status ≡ true
    → status ≡ PrivacyRequestStatus.approved
was_approved PrivacyRequestStatus.pending h = cc
was_approved PrivacyRequestStatus.approved h = refl
was_approved PrivacyRequestStatus.completed h = cc
was_approved PrivacyRequestStatus.rejected h = cc

has_approver-some : (o : Option ℕ) → has_approver o ≡ true → (a : ℕ) × (o ≡ some a)
has_approver-some none h = cc
has_approver-some (some a) h = (a, refl)

type_code-injective : (a b : PrivacyRequestType) → type_code a ≡ type_code b → a ≡ b
type_code-injective a b h = ground arith

pub apart_of : (m n : ℕ) → (m == n) ≡ false → m ≢ n
apart_of m n f e = let same = (==_iff m n).1 e in cc

pub both_true : (a b : Bool) → (a && b) ≡ true → (a ≡ true) × (b ≡ true)
both_true a b h = ground arith

authorize_execution-Ensures :
    (c : PrivacyContext) (r : DataSubjectRequest) (actor : User)
    → Ensures
        (λ _.
          (r.status ≡ PrivacyRequestStatus.approved)
          × ((approver : ℕ) × (r.approved_by ≡ some approver))
          × (actor.pk ≢ r.requested_by)
          × (is_manager c actor ≡ true))
        (authorize_execution c r actor)
unfolding authorize_execution
authorize_execution-Ensures c r actor =
    let P = λ (_ : Unit {0}).
      (r.status ≡ PrivacyRequestStatus.approved)
      × ((approver : ℕ) × (r.approved_by ≡ some approver))
      × (actor.pk ≢ r.requested_by)
      × (is_manager c actor ≡ true) in
    Ensures-bind P
      (raise_unless (is_approved r.status && has_approver r.approved_by)
        (validation_error "privacy request must be independently approved before execution"))
      _
      λ _ approved_both.
        let (status, approver) = both_true _ _ (raise_unless-ok _ _ approved_both) in
        Ensures-bind P
          (raise_if (actor.pk == r.requested_by)
            (permission_denied "requester cannot execute their own privacy request"))
          _
          λ _ other.
            Ensures-last P
              (raise_unless (is_manager c actor)
                (permission_denied "privacy workflow permission is required"))
              λ _ may. (
                was_approved r.status status,
                has_approver-some r.approved_by approver,
                apart_of actor.pk r.requested_by (raise_if-ok _ _ other),
                raise_unless-ok _ _ may,
              )

check_execution-Ensures :
    (c : PrivacyContext) (r : DataSubjectRequest) (actor : User) (request_type : PrivacyRequestType)
    → Ensures (λ _. IsExecutable c r actor request_type) (check_execution c r actor request_type)
unfolding check_execution
check_execution-Ensures c r actor request_type =
    let P = λ (_ : Unit {0}). IsExecutable c r actor request_type in
    Ensures-bind P (authorize_execution c r actor) _ λ u may.
      let (status, approver, other, manager) =
        Ensures-elim _ (authorize_execution c r actor) u (authorize_execution-Ensures c r actor)
          may in
      Ensures-last P
        (raise_unless (type_code r.request_type == type_code request_type)
          (validation_error "request type does not permit this workflow"))
        λ _ same. (
          status,
          approver,
          other,
          manager,
          type_code-injective r.request_type request_type
              ((==_iff _ _).0 (raise_unless-ok _ _ same)),
        )

pub check_execution-ok :
    (c : PrivacyContext) (r : DataSubjectRequest) (actor : User) (request_type : PrivacyRequestType)
    {u : Unit {0}}
    → check_execution c r actor request_type ≡ ok u
    → IsExecutable c r actor request_type
check_execution-ok c r actor request_type h =
    Ensures-elim (λ _. IsExecutable c r actor request_type) (check_execution c r actor request_type)
      _ (check_execution-Ensures c r actor request_type) h

-- The store after a completion: the request with its time and digest, and one more event.
abbrev pub IsCompleted :
    PrivacyContext → DataSubjectRequest → User → String → PrivacyStore → PrivacyStore → Type 0
IsCompleted c r actor sha s s' =
    (events : List AuditEvent) × (record_event c.digest (completion_event c r actor) c.now s.events
      ≡ ok events)
    × (s' ≡ record (save_request r.pk (with_completion c.now sha) s) { events = events })

pub complete-ok :
    (c : PrivacyContext) (r : DataSubjectRequest) (actor : User) (sha : String)
    (s s' : PrivacyStore)
    → complete c r actor sha s ≡ ok s'
    → IsCompleted c r actor sha s s'
unfolding complete
complete-ok c r actor sha s s' h =
    let (events, recorded, written) =
      >>=-eq-ok (record_event c.digest (completion_event c r actor) c.now s.events) _ h in
    (events, recorded, sym (ok-injective written))

-- The requests, their events and the keys, untouched.
abbrev pub SameRequests : PrivacyStore → PrivacyStore → Type 0
SameRequests s s' =
    (s'.events ≡ s.events) × (s'.requests ≡ s.requests) × (s'.next_request ≡ s.next_request)

-- What a completion does to the requests and the events.
abbrev pub IsClosed :
    PrivacyContext → DataSubjectRequest → User → String → PrivacyStore → PrivacyStore → Type 0
IsClosed c r actor sha s s' =
    (record_event c.digest (completion_event c r actor) c.now s.events ≡ ok s'.events)
    × (s'.requests ≡ update_where (λ x. x.pk == r.pk) (with_completion c.now sha) s.requests)
    × (s'.next_request ≡ s.next_request)

pub IsCompleted-IsClosed :
    (c : PrivacyContext) (r : DataSubjectRequest) (actor : User) (sha : String)
    (s t s' : PrivacyStore)
    → SameRequests s t
    → IsCompleted c r actor sha t s'
    → IsClosed c r actor sha s s'
IsCompleted-IsClosed c r actor sha s t s' (events, requests, key) (found, recorded, written) =
    let now_events : s'.events ≡ found = ap (λ (x : PrivacyStore). x.events) written in
    let now_requests = ap (λ (x : PrivacyStore). x.requests) written in
    let now_key = ap (λ (x : PrivacyStore). x.next_request) written in
    (
      rw (now_events, ← events) recorded,
      now_requests ∙ ap (update_where (λ x. x.pk == r.pk) (with_completion c.now sha)) requests,
      now_key ∙ key,
    )
