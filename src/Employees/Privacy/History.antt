-- ===== src/Employees/Privacy/History.antt =====
-- Every history of privacy requests: no request is granted but by somebody else than its requester.
use payroll_management_syste.Prelude.{
  Elem-update_where, ℕ, String, ◌≡◌, refl, sym, ap, subst, ◌∙◌, ◌≢◌, inl, inr, Bool, true, false,
  some, ◌==◌, ==_iff, update_where, Elem,
}
use payroll_management_syste.Outcome.{
  atomic-cases, raise_if-ok, validation_error, raise_if, permission_denied, raise_unless,
  Ensures-bind, Result, Ensures-elim, Ensures, ok,
}
use payroll_management_syste.Prelude.Keyed.{
  IsKeyed, IsKeyed-append, IsKeyed-update_where, Elem-single,
}
use payroll_management_syste.Employees.Privacy.Correction.{
  correct_locked, correct_employee_data, FieldChanges,
}
use payroll_management_syste.Employees.Models.{
  PrivacyRequestType, Employee, PrivacyRequestStatus, DataSubjectRequest,
}
use payroll_management_syste.Employees.Privacy.{
  is_manager, with_approval, ExportPayload, with_completion, save_request, create_request,
  approve_request, PrivacyStore, PrivacyContext,
}
use payroll_management_syste.Organizations.{User}
use payroll_management_syste.Prelude.Text.{is_blank}
use payroll_management_syste.Employees.Privacy.Execution.{IsCompleted-IsClosed, apart_of, IsClosed}
use payroll_management_syste.Employees.Privacy.Export.{
  export_locked-Ensures, IsExport, export_locked, export_employee_data,
}
use payroll_management_syste.Employees.Privacy.Deletion.{
  delete_locked, erase_employee, delete_employee_data,
}
use payroll_management_syste.Employees.Privacy.Corrected.{correct_locked-Ensures, IsCorrection}
use payroll_management_syste.Employees.Privacy.Erasure.{delete_locked-Ensures, IsDeletion}

abbrev pub is_granted : PrivacyRequestStatus → Bool
is_granted PrivacyRequestStatus.approved = true
is_granted PrivacyRequestStatus.completed = true
is_granted _ = false

-- A granted request names an approver who did not make it, and a legal basis.
abbrev pub IsIndependent : DataSubjectRequest → Type 0
IsIndependent r =
    is_granted r.status ≡ true
    → (approver : ℕ) × (r.approved_by ≡ some approver)
      × (approver ≢ r.requested_by)
      × (is_blank r.legal_basis ≡ false)

abbrev request_key : DataSubjectRequest → ℕ
request_key r = r.pk

abbrev pub AreIndependent : PrivacyStore → Type 0
AreIndependent s =
    IsKeyed request_key s.next_request s.requests
    × ((r : DataSubjectRequest) → Elem r s.requests → IsIndependent r)

-- The stores that the services reach, whether they return or raise, each called with a request as it
-- is stored.
pub data PrivacyHistory : PrivacyStore → PrivacyStore → Type 0 where
  start : {s : PrivacyStore} → PrivacyHistory s s
  made :
      {s a : PrivacyStore} (employee : Employee) (request_type : PrivacyRequestType) (user : User)
      (reason : String)
      → PrivacyHistory s a
      → PrivacyHistory s (create_request employee request_type user reason a).1
  approved :
      {s a b : PrivacyStore} (c : PrivacyContext) (r r' : DataSubjectRequest) (actor : User)
      (legal_basis : String)
      → PrivacyHistory s a
      → Elem r a.requests
      → approve_request c r actor legal_basis a ≡ ok (r', b)
      → PrivacyHistory s b
  exported :
      {s a b : PrivacyStore} (c : PrivacyContext) (r : DataSubjectRequest) (actor : User)
      (result : Result ExportPayload)
      → PrivacyHistory s a
      → Elem r a.requests
      → export_employee_data c r actor a ≡ (result, b)
      → PrivacyHistory s b
  corrected :
      {s a b : PrivacyStore} (c : PrivacyContext) (r : DataSubjectRequest) (actor : User)
      (general personal : FieldChanges) (result : Result (Unit {0}))
      → PrivacyHistory s a
      → Elem r a.requests
      → correct_employee_data c r actor general personal a ≡ (result, b)
      → PrivacyHistory s b
  deleted :
      {s a b : PrivacyStore} (c : PrivacyContext) (r : DataSubjectRequest) (actor : User)
      (until : ℕ) (result : Result (Unit {0}))
      → PrivacyHistory s a
      → Elem r a.requests
      → delete_employee_data c r actor until a ≡ (result, b)
      → PrivacyHistory s b

made-AreIndependent :
    (employee : Employee) (request_type : PrivacyRequestType) (user : User) (reason : String)
    (s : PrivacyStore)
    → AreIndependent s
    → AreIndependent (create_request employee request_type user reason s).1
unfolding create_request
made-AreIndependent employee request_type user reason s (keyed, sound) = (
  IsKeyed-append request_key s.next_request s.requests _ refl keyed,
  λ r m. elim (Elem-single r _ s.requests m) [
    | inl old ↦ sound r old
    | inr e ↦ λ granted.
        let not_yet : is_granted r.status ≡ false =
          ap (λ (x : DataSubjectRequest). is_granted x.status) e in
        cc
  ],
)

-- A change of the row of a stored request keeps the others, and the row itself, independent.
changed-AreIndependent :
    (r : DataSubjectRequest) (change : DataSubjectRequest → DataSubjectRequest)
    (s s' : PrivacyStore)
    → AreIndependent s
    → Elem r s.requests
    → ((x : DataSubjectRequest) → (change x).pk ≡ x.pk)
    → IsIndependent (change r)
    → s'.requests ≡ update_where (λ x. x.pk == r.pk) change s.requests
    → s'.next_request ≡ s.next_request
    → AreIndependent s'
changed-AreIndependent r change s s' (keyed, sound) stored keep fine requests key = (
  rw (requests, key)
      (IsKeyed-update_where request_key s.next_request r.pk change s.requests keep keyed),
  λ y m.
      let (x, old, way) =
        Elem-update_where (λ (z : DataSubjectRequest). z.pk == r.pk) change s.requests y
          (subst (Elem y) requests m) in
      elim way [
        | inl (t, e) ↦
            let same : x ≡ r = keyed.0 x r old stored ((==_iff x.pk r.pk).0 t) in
            subst IsIndependent (sym (e ∙ ap change same)) fine
        | inr (f, e) ↦ subst IsIndependent (sym e) (sound x old)
      ],
)

approval_of :
    (c : PrivacyContext) (r : DataSubjectRequest) (actor : User) (legal_basis : String)
    (s : PrivacyStore)
    → Ensures
        (λ z.
          (actor.pk ≢ r.requested_by)
          × (is_blank legal_basis ≡ false)
          × (z.1 ≡ save_request r.pk (with_approval actor.pk legal_basis) s))
        (approve_request c r actor legal_basis s)
unfolding approve_request
approval_of c r actor legal_basis s =
    let P = λ (z : DataSubjectRequest × PrivacyStore).
      (actor.pk ≢ r.requested_by)
      × (is_blank legal_basis ≡ false)
      × (z.1 ≡ save_request r.pk (with_approval actor.pk legal_basis) s) in
    Ensures-bind P
      (raise_unless (is_manager c actor)
        (permission_denied "privacy workflow permission is required"))
      _
      λ _ _.
        Ensures-bind P
          (raise_if (actor.pk == r.requested_by)
            (permission_denied "privacy requests require independent approval"))
          _
          λ _ other.
            Ensures-bind P
              (raise_if (is_blank legal_basis)
                (validation_error "documented legal basis and retention analysis are required"))
              _
              λ _ based. (
                apart_of actor.pk r.requested_by (raise_if-ok _ _ other),
                raise_if-ok _ _ based,
                refl,
              )

approved-AreIndependent :
    (c : PrivacyContext) (r r' : DataSubjectRequest) (actor : User) (legal_basis : String)
    (s s' : PrivacyStore)
    → AreIndependent s
    → Elem r s.requests
    → approve_request c r actor legal_basis s ≡ ok (r', s')
    → AreIndependent s'
approved-AreIndependent c r r' actor legal_basis s s' h stored e =
    let (other, based, written) =
      Ensures-elim
        (λ z.
          (actor.pk ≢ r.requested_by)
          × (is_blank legal_basis ≡ false)
          × (z.1 ≡ save_request r.pk (with_approval actor.pk legal_basis) s))
        (approve_request c r actor legal_basis s) (r', s') (approval_of c r actor legal_basis s)
        e in
    changed-AreIndependent r (with_approval actor.pk legal_basis) s s' h stored (λ _. refl)
      (λ _. (actor.pk, refl, other, based)) (ap (λ (x : PrivacyStore). x.requests) written)
      (ap (λ (x : PrivacyStore). x.next_request) written)

-- A completion keeps the approval of the approved request that it closes.
closed-AreIndependent :
    (c : PrivacyContext) (r : DataSubjectRequest) (actor : User) (sha : String)
    (s s' : PrivacyStore)
    → AreIndependent s
    → Elem r s.requests
    → r.status ≡ PrivacyRequestStatus.approved
    → IsClosed c r actor sha s s'
    → AreIndependent s'
closed-AreIndependent c r actor sha s s' h stored status (_, requests, key) =
    changed-AreIndependent r (with_completion c.now sha) s s' h stored (λ _. refl)
      (λ _. h.1 r stored (rw status refl)) requests key

exported-AreIndependent :
    (c : PrivacyContext) (r : DataSubjectRequest) (actor : User) (result : Result ExportPayload)
    (s s' : PrivacyStore)
    → AreIndependent s
    → Elem r s.requests
    → export_employee_data c r actor s ≡ (result, s')
    → AreIndependent s'
unfolding export_employee_data
exported-AreIndependent c r actor result s s' h stored e =
    elim (atomic-cases s s' result (export_locked c r actor s) e) [
      | inl same ↦ subst AreIndependent (sym same) h
      | inr (payload, done) ↦
          let (may, _, completed) =
            Ensures-elim (IsExport c r actor s) (export_locked c r actor s) (payload, s')
              (export_locked-Ensures c r actor s) done in
          closed-AreIndependent c r actor _ s s' h stored may.0
            (IsCompleted-IsClosed c r actor _ s s s' (refl, refl, refl) completed)
    ]

corrected-AreIndependent :
    (c : PrivacyContext) (r : DataSubjectRequest) (actor : User) (general personal : FieldChanges)
    (result : Result (Unit {0})) (s s' : PrivacyStore)
    → AreIndependent s
    → Elem r s.requests
    → correct_employee_data c r actor general personal s ≡ (result, s')
    → AreIndependent s'
unfolding correct_employee_data
corrected-AreIndependent c r actor general personal result s s' h stored e =
    elim (atomic-cases s s' result (correct_locked c r actor general personal s) e) [
      | inl same ↦ subst AreIndependent (sym same) h
      | inr (u, done) ↦
          let (may, _, _, _, _, _, _, closed) =
            Ensures-elim (λ z. IsCorrection c r actor general personal s z.1)
              (correct_locked c r actor general personal s) (u, s')
              (correct_locked-Ensures c r actor general personal s) done in
          closed-AreIndependent c r actor "" s s' h stored may.0 closed
    ]

deleted-AreIndependent :
    (c : PrivacyContext) (r : DataSubjectRequest) (actor : User) (until : ℕ)
    (result : Result (Unit {0})) (s s' : PrivacyStore)
    → AreIndependent s
    → Elem r s.requests
    → delete_employee_data c r actor until s ≡ (result, s')
    → AreIndependent s'
unfolding delete_employee_data erase_employee
deleted-AreIndependent c r actor until result s s' h stored e =
    elim (atomic-cases s s' result (delete_locked c r actor until s) e) [
      | inl same ↦ subst AreIndependent (sym same) h
      | inr (u, done) ↦
          let (may, _, _, _, (employee, _, _, _, _, _, completed)) =
            Ensures-elim (λ z. IsDeletion c r actor until s z.1) (delete_locked c r actor until s)
              (u, s') (delete_locked-Ensures c r actor until s) done in
          closed-AreIndependent c r actor "" s s' h stored may.0
            (IsCompleted-IsClosed c r actor "" s _ s' (refl, refl, refl) completed)
    ]

-- Whatever is requested, approved, exported, corrected and deleted, every request that is approved or
-- completed names an approver other than its requester and a documented legal basis, and no two
-- requests have the same key, if this holds at the start and each service gets a request as it is
-- stored.
pub PrivacyHistory-AreIndependent :
    {s s' : PrivacyStore} → AreIndependent s → PrivacyHistory s s' → AreIndependent s'
PrivacyHistory-AreIndependent h start = h
PrivacyHistory-AreIndependent h (made {a = a} employee request_type user reason before) =
    made-AreIndependent employee request_type user reason a (PrivacyHistory-AreIndependent h before)
PrivacyHistory-AreIndependent h (approved {a = a} {b = b} c r r' actor basis before stored e) =
    approved-AreIndependent c r r' actor basis a b (PrivacyHistory-AreIndependent h before) stored e
PrivacyHistory-AreIndependent h (exported {a = a} {b = b} c r actor result before stored e) =
    exported-AreIndependent c r actor result a b (PrivacyHistory-AreIndependent h before) stored e
PrivacyHistory-AreIndependent h
      (corrected {a = a} {b = b} c r actor general personal result before stored e) =
    corrected-AreIndependent c r actor general personal result a b
      (PrivacyHistory-AreIndependent h before) stored e
PrivacyHistory-AreIndependent h (deleted {a = a} {b = b} c r actor until result before stored e) =
    deleted-AreIndependent c r actor until result a b (PrivacyHistory-AreIndependent h before)
      stored e
