-- ===== src/Employees/Privacy/Corrected.antt =====
-- What a correction changes, and what it cannot reach.
use mathlib.Core.List.{map-append}
use payroll_management_syste.Prelude.{
  sym, ap, true, find-update_where, ◌&&◌, subst, find_sound, all, ==_iff, some, ◌==◌, update_where,
  List, ℕ, String, ◌≡◌, refl, ◌∙◌, ◌⊎◌, inl, inr, [], ◌∷◌, ◌++◌, map, arith, Option-cases, find,
}
use payroll_management_syste.Employees.Models.{
  PrivacyRequestType, employee_by_key, DataSubjectRequest, PersonalInformation, Employee,
}
use payroll_management_syste.Employees.Privacy.{
  complete, check_execution, PrivacyContext, PrivacyStore,
}
use payroll_management_syste.Employees.Privacy.Correction.{
  is_personal_field, is_general_field, save_general, correct_personal, correct_locked,
  correct_employee_data, FieldChanges, blank_personal, set_personal, set_general, is_of_employee,
  set_all, get_or_create,
}
use payroll_management_syste.Outcome.{
  or_raise-ok, does_not_exist, or_raise, raise_unless-ok, atomic-ok, validation_error, Ensures-elim,
  raise_unless, ok, Ensures-bind, Ensures,
}
use payroll_management_syste.Organizations.{User}
use payroll_management_syste.Employees.Privacy.Execution.{
  SameRequests, IsCompleted-IsClosed, IsClosed, check_execution-ok, complete-ok, both_true,
  IsExecutable,
}
use payroll_management_syste.Prelude.Updates.{map-update_where}
use payroll_management_syste.Employees.Profiles.{full_clean_employee}

-- A profile without the texts that a correction may set.
abbrev pub without_contact : Employee → Employee
without_contact e = record e {
  preferred_name = "";
  given_name = "";
  family_name = "";
  work_email = "";
  work_phone = "";
}

abbrev pub without_personal : PersonalInformation → PersonalInformation
without_personal p = record p {
  legal_name = "";
  date_of_birth = "";
  personal_email = "";
  personal_phone = "";
  residential_address = "";
  emergency_contact = "";
}

set_all_keeps :
    {A B : Type 0} (f : A → B) (setter : String → String → A → A) (changes : FieldChanges) (row : A)
    → ((field value : String) (x : A) → f (setter field value x) ≡ f x)
    → f (set_all setter changes row) ≡ f row
unfolding set_all
set_all_keeps f setter [] row keep = refl
set_all_keeps f setter ((field, value) ∷ changes) row keep =
    set_all_keeps f setter changes (setter field value row) keep ∙ keep field value row

set_general_keeps :
    (field value : String) (e : Employee)
    → without_contact (set_general field value e) ≡ without_contact e
set_general_keeps field value e = ground arith

set_personal_keeps :
    (field value : String) (p : PersonalInformation)
    → without_personal (set_personal field value p) ≡ without_personal p
set_personal_keeps field value p = ground arith

-- The rest of the tables.
abbrev pub SameOthers : PrivacyStore → PrivacyStore → Type 0
SameOthers s s' =
    (s'.bank_accounts ≡ s.bank_accounts)
    × (s'.tax_profiles ≡ s.tax_profiles)
    × (s'.payroll_inputs ≡ s.payroll_inputs)

-- No row of personal information changes but in the six texts; at most one row is new.
abbrev pub SamePersonal : PrivacyStore → PrivacyStore → Type 0
SamePersonal s s' =
    (map without_personal s'.personal_information ≡ map without_personal s.personal_information)
    ⊎ ((p : PersonalInformation) × (map without_personal s'.personal_information
          ≡ map without_personal s.personal_information ++ p ∷ [])
        × (p.government_id_token ≡ ""))

abbrev PersonalStep : FieldChanges → PrivacyStore → PrivacyStore → Type 0
PersonalStep changes s s' =
    SamePersonal s s' × SameOthers s s' × (s'.employees ≡ s.employees) × SameRequests s s'

get_or_create-step :
    (e : Employee) (s : PrivacyStore)
    → SamePersonal s (get_or_create e s).1
      × SameOthers s (get_or_create e s).1
      × ((get_or_create e s).1.employees ≡ s.employees)
      × SameRequests s (get_or_create e s).1
unfolding get_or_create
get_or_create-step e s = elim (Option-cases (find (is_of_employee e) s.personal_information)) [
  | inl absent ↦
      rw (absent, get_or_create)
        (
          inr (
            blank_personal e s.next_personal,
            map-append without_personal s.personal_information
                (blank_personal e s.next_personal ∷ []),
            refl,
          ),
          (refl, refl, refl),
          refl,
          (refl, refl, refl),
        )
  | inr (p, found) ↦
      rw (found, get_or_create) (inl refl, (refl, refl, refl), refl, (refl, refl, refl))
]

-- The update of the named fields of one row keeps what the creation left.
updated-step :
    (pk : ℕ) (changes : FieldChanges) (s t : PrivacyStore)
    → PersonalStep changes s t
    → PersonalStep changes s (record t {
      personal_information =
          update_where (λ x. x.pk == pk) (set_all set_personal changes) t.personal_information;
    })
updated-step pk changes s t (personal, others, employees, requests) =
    let same =
      map-update_where without_personal (λ (x : PersonalInformation). x.pk == pk)
        (set_all set_personal changes) t.personal_information
        (λ x. set_all_keeps without_personal set_personal changes x set_personal_keeps) in
    (
      elim personal [
        | inl kept ↦ inl (same ∙ kept)
        | inr (p, grown, blank) ↦ inr (p, same ∙ grown, blank)
      ],
      others,
      employees,
      requests,
    )

correct_personal-Ensures :
    (e : Employee) (changes : FieldChanges) (s : PrivacyStore)
    → Ensures (PersonalStep changes s) (correct_personal e changes s)
unfolding correct_personal
correct_personal-Ensures e [] s = (inl refl, (refl, refl, refl), refl, (refl, refl, refl))
correct_personal-Ensures e (change ∷ changes) s =
    Ensures-bind (PersonalStep (change ∷ changes) s)
      (raise_unless ((get_or_create e s).0.organization == e.organization)
        (validation_error "employee must belong to the same organization"))
      _
      λ _ _.
        updated-step (get_or_create e s).0.pk (change ∷ changes) s (get_or_create e s).1
          (get_or_create-step e s)

abbrev pub IsCorrection :
    PrivacyContext
    → DataSubjectRequest
    → User
    → FieldChanges
    → FieldChanges
    → PrivacyStore
    → PrivacyStore
    → Type 0
IsCorrection c r actor general personal s s' =
    IsExecutable c r actor PrivacyRequestType.correction
    × (all (λ (x : String × String). is_general_field x.0) general ≡ true)
    × (all (λ (x : String × String). is_personal_field x.0) personal ≡ true)
    × (map without_contact s'.employees ≡ map without_contact s.employees)
    × ((e : Employee) × (employee_by_key r.employee s.employees ≡ some e)
        × (full_clean_employee c.is_email s.employees (set_all set_general general e) ≡ ok tt)
        × (employee_by_key r.employee s'.employees ≡ some (set_all set_general general e)))
    × SamePersonal s s'
    × SameOthers s s'
    × IsClosed c r actor "" s s'

set_general-pk : (field value : String) (e : Employee) → (set_general field value e).pk ≡ e.pk
set_general-pk field value e = ground arith

corrected_profile :
    (pk : ℕ) (general : FieldChanges) (e : Employee) (employees : List Employee)
    → employee_by_key pk employees ≡ some e
    → employee_by_key pk (update_where (λ x. x.pk == e.pk) (set_all set_general general) employees)
      ≡ some (set_all set_general general e)
corrected_profile pk general e employees found =
    let same = (==_iff e.pk pk).0 (find_sound (λ (x : Employee). x.pk == pk) employees e found) in
    let kept = λ (k : ℕ).
      employee_by_key k (update_where (λ x. x.pk == e.pk) (set_all set_general general) employees)
      ≡ some (set_all set_general general e) in
    subst kept same (
      find-update_where (λ (x : Employee). x.pk == e.pk) (set_all set_general general) employees e
        (λ x.
          ap (λ k. k == e.pk)
            (set_all_keeps (λ (y : Employee). y.pk) set_general general x set_general-pk))
        (subst (λ k. employee_by_key k employees ≡ some e) (sym same) found))

pub correct_locked-Ensures :
    (c : PrivacyContext) (r : DataSubjectRequest) (actor : User) (general personal : FieldChanges)
    (s : PrivacyStore)
    → Ensures
        (λ z. IsCorrection c r actor general personal s z.1)
        (correct_locked c r actor general personal s)
unfolding correct_locked save_general
correct_locked-Ensures c r actor general personal s =
    let P = λ (z : Unit {0} × PrivacyStore). IsCorrection c r actor general personal s z.1 in
    Ensures-bind P (check_execution c r actor PrivacyRequestType.correction) _ λ _ checked.
      Ensures-bind P
        (raise_unless
          (all (λ (x : String × String). is_general_field x.0) general
            && all (λ (x : String × String). is_personal_field x.0) personal)
          (validation_error
            "correction contains a field that must use a specialized legal workflow"))
        _
        λ _ named.
          let (general_named, personal_named) = both_true _ _ (raise_unless-ok _ _ named) in
          Ensures-bind P (or_raise (employee_by_key r.employee s.employees) does_not_exist) _
            λ e known.
              Ensures-bind P
                (full_clean_employee c.is_email s.employees (set_all set_general general e)) _
                λ u cleaned.
                  Ensures-bind P
                    (correct_personal (set_all set_general general e) personal
                      (save_general e general s))
                    _
                    λ s' saved.
                      let (rows, others, employees, requests) =
                        Ensures-elim (PersonalStep personal (save_general e general s))
                          (correct_personal (set_all set_general general e) personal
                            (save_general e general s))
                          s'
                          (correct_personal-Ensures (set_all set_general general e) personal
                            (save_general e general s))
                          saved in
                      Ensures-bind P (complete c r actor "" s') _ λ s'' done.
                        let (events, recorded, written) = complete-ok c r actor "" s' s'' done in
                        subst (λ x. IsCorrection c r actor general personal s x) (sym written)
                          (
                            check_execution-ok c r actor PrivacyRequestType.correction checked,
                            general_named,
                            personal_named,
                            rw employees (
                                map-update_where without_contact (λ (x : Employee). x.pk == e.pk)
                                  (set_all set_general general) s.employees
                                  (λ x.
                                    set_all_keeps without_contact set_general general x
                                      set_general_keeps)),
                            (
                              e,
                              or_raise-ok _ _ known,
                              cleaned,
                              rw employees (
                                  corrected_profile r.employee general e s.employees
                                    (or_raise-ok _ _ known)),
                            ),
                            rows,
                            others,
                            IsCompleted-IsClosed c r actor "" s s' _ requests
                                (events, recorded, refl),
                          )

-- A correction that returns was executed by a manager on an approved correction request that somebody
-- else made, and names only the fields that a correction may name. The stored profile of the employee
-- is the one with the named texts set, which passed the checks of the model; no profile changes
-- otherwise, and no row of personal information but in its six texts, where at most one row, with no
-- government id, is new. Bank accounts, tax profiles and payroll inputs are as before. The request is
-- completed with one audit event.
pub correct_employee_data_corrects :
    (c : PrivacyContext) (r : DataSubjectRequest) (actor : User) (general personal : FieldChanges)
    (s s' : PrivacyStore)
    → correct_employee_data c r actor general personal s ≡ (ok tt, s')
    → IsCorrection c r actor general personal s s'
unfolding correct_employee_data
correct_employee_data_corrects c r actor general personal s s' h =
    let m = correct_locked c r actor general personal s in
    Ensures-elim (λ z. IsCorrection c r actor general personal s z.1) m (tt, s')
      (correct_locked-Ensures c r actor general personal s) (atomic-ok s s' tt m h)
