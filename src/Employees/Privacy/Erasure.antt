-- ===== src/Employees/Privacy/Erasure.antt =====
-- What a deletion leaves of an employee's restricted data, and of everybody else's.
use payroll_management_syste.Prelude.{
  find-update_where, ℕ, ◌≤◌, ◌≡◌, refl, sym, subst, true, false, not, some, List, arith, ltb, ◌==◌,
  ==_iff, select, All, find_sound,
}
use payroll_management_syste.Outcome.{
  or_raise-ok, raise_if-ok, does_not_exist, or_raise, validation_error, raise_if, atomic-ok,
  Ensures-bind, Ensures-elim, Ensures, ok,
}
use payroll_management_syste.Prelude.Updates.{All-updated, select-updated_others}
use payroll_management_syste.Employees.Models.{
  PrivacyRequestType, TaxProfile, employee_by_key, DataSubjectRequest, BankAccount,
  PersonalInformation, Employee,
}
use payroll_management_syste.Employees.Privacy.{
  complete, check_execution, PrivacyStore, PrivacyContext,
}
use payroll_management_syste.Employees.Privacy.Deletion.{
  retire_tax, erase_bank, erase_personal, archive_employee, erase_employee, delete_locked,
  delete_employee_data,
}
use payroll_management_syste.Organizations.{User}
use payroll_management_syste.Employees.Privacy.Execution.{
  complete-ok, check_execution-ok, IsCompleted, IsExecutable,
}

abbrev pub IsErased : PersonalInformation → Type 0
IsErased p =
    (p.legal_name ≡ "")
    × (p.date_of_birth ≡ "")
    × (p.personal_email ≡ "")
    × (p.personal_phone ≡ "")
    × (p.residential_address ≡ "")
    × (p.emergency_contact ≡ "")
    × (p.government_id_token ≡ "")

-- The rows of the employee after a deletion at that time, retained until that date.
abbrev pub AreErased : ℕ → ℕ → ℕ → PrivacyStore → Type 0
AreErased employee now until s =
    All
      (λ (p : PersonalInformation).
        (p.employee == employee) ≡ true
        → IsErased p × (p.archived_at ≡ some now) × (p.retention_until ≡ some until))
      s.personal_information
    × All
        (λ (b : BankAccount).
          (b.employee == employee) ≡ true
          → (b.account_holder ≡ "")
            × (b.account_number_token ≡ "")
            × (b.routing_details ≡ "")
            × (b.archived_at ≡ some now)
            × (b.retention_until ≡ some until))
        s.bank_accounts
    × All
        (λ (t : TaxProfile).
          (t.employee == employee) ≡ true
          → (t.archived_at ≡ some now) × (t.retention_until ≡ some until))
        s.tax_profiles

-- The rows of the other employees, and what a deletion must preserve.
abbrev pub AreKept : ℕ → PrivacyStore → PrivacyStore → Type 0
AreKept employee s s' =
    (select (λ (p : PersonalInformation). not (p.employee == employee)) s'.personal_information
      ≡ select (λ (p : PersonalInformation). not (p.employee == employee)) s.personal_information)
    × (select (λ (b : BankAccount). not (b.employee == employee)) s'.bank_accounts
        ≡ select (λ (b : BankAccount). not (b.employee == employee)) s.bank_accounts)
    × (select (λ (t : TaxProfile). not (t.employee == employee)) s'.tax_profiles
        ≡ select (λ (t : TaxProfile). not (t.employee == employee)) s.tax_profiles)
    × (s'.payroll_inputs ≡ s.payroll_inputs)

erase_employee-AreErased :
    (now until : ℕ) (e : Employee) (s : PrivacyStore)
    → AreErased e.pk now until (erase_employee now until e s)
unfolding erase_employee
erase_employee-AreErased now until e s = (
  All-updated (λ (p : PersonalInformation). p.employee == e.pk) (erase_personal now until)
      (λ _. refl) (λ p. IsErased p × (p.archived_at ≡ some now) × (p.retention_until ≡ some until))
      s.personal_information (λ _. ((refl, refl, refl, refl, refl, refl, refl), refl, refl)),
  All-updated (λ (b : BankAccount). b.employee == e.pk) (erase_bank now until) (λ _. refl)
      (λ b.
        (b.account_holder ≡ "")
        × (b.account_number_token ≡ "")
        × (b.routing_details ≡ "")
        × (b.archived_at ≡ some now)
        × (b.retention_until ≡ some until))
      s.bank_accounts (λ _. (refl, refl, refl, refl, refl)),
  All-updated (λ (t : TaxProfile). t.employee == e.pk) (retire_tax now until) (λ _. refl)
      (λ t. (t.archived_at ≡ some now) × (t.retention_until ≡ some until)) s.tax_profiles
      (λ _. (refl, refl)),
)

erase_employee-AreKept :
    (now until : ℕ) (e : Employee) (s : PrivacyStore)
    → AreKept e.pk s (erase_employee now until e s)
unfolding erase_employee
erase_employee-AreKept now until e s = (
  select-updated_others (λ (p : PersonalInformation). p.employee == e.pk) (erase_personal now until)
      (λ _. refl) s.personal_information,
  select-updated_others (λ (b : BankAccount). b.employee == e.pk) (erase_bank now until) (λ _. refl)
      s.bank_accounts,
  select-updated_others (λ (t : TaxProfile). t.employee == e.pk) (retire_tax now until) (λ _. refl)
      s.tax_profiles,
  refl,
)

employee_by_key-pk :
    (pk : ℕ) (employees : List Employee) (e : Employee)
    → employee_by_key pk employees ≡ some e
    → e.pk ≡ pk
employee_by_key-pk pk employees e found =
    (==_iff e.pk pk).0 (find_sound (λ (x : Employee). x.pk == pk) employees e found)

-- The stored profile of the employee after the deletion: archived, and otherwise as it was.
profile_after :
    (now until pk : ℕ) (e : Employee) (s : PrivacyStore)
    → employee_by_key pk s.employees ≡ some e
    → employee_by_key pk (erase_employee now until e s).employees
      ≡ some (record e { archived_at = some now; retention_until = some until })
unfolding erase_employee archive_employee
profile_after now until pk e s found =
    let same = employee_by_key-pk pk s.employees e found in
    let kept = λ (k : ℕ).
      employee_by_key k (erase_employee now until e s).employees
      ≡ some (record e { archived_at = some now; retention_until = some until }) in
    subst kept same (
      find-update_where (λ (x : Employee). x.pk == e.pk)
        (λ x. record x { archived_at = some now; retention_until = some until }) s.employees e
        (λ _. refl) (subst (λ k. employee_by_key k s.employees ≡ some e) (sym same) found))

abbrev pub IsDeletion :
    PrivacyContext → DataSubjectRequest → User → ℕ → PrivacyStore → PrivacyStore → Type 0
IsDeletion c r actor until s s' =
    IsExecutable c r actor PrivacyRequestType.deletion
    × (c.today ≤ until)
    × AreErased r.employee c.now until s'
    × AreKept r.employee s s'
    × ((e e' : Employee) × (employee_by_key r.employee s.employees ≡ some e)
        × (employee_by_key r.employee s'.employees ≡ some e')
        × (e'.archived_at ≡ some c.now)
        × (e'.retention_until ≡ some until)
        × IsCompleted c r actor "" (erase_employee c.now until e s) s')

deletion_of :
    (c : PrivacyContext) (r : DataSubjectRequest) (actor : User) (until : ℕ) (e : Employee)
    (s s' : PrivacyStore)
    → IsExecutable c r actor PrivacyRequestType.deletion
    → ltb until c.today ≡ false
    → employee_by_key r.employee s.employees ≡ some e
    → IsCompleted c r actor "" (erase_employee c.now until e s) s'
    → IsDeletion c r actor until s s'
deletion_of c r actor until e s s' may due found (events, recorded, written) =
    let same = employee_by_key-pk r.employee s.employees e found in
    subst (λ x. IsDeletion c r actor until s x) (sym written)
      (
        may,
        ground arith,
        subst (λ k. AreErased k c.now until (erase_employee c.now until e s)) same
            (erase_employee-AreErased c.now until e s),
        subst (λ k. AreKept k s (erase_employee c.now until e s)) same
            (erase_employee-AreKept c.now until e s),
        (
          e,
          record e { archived_at = some c.now; retention_until = some until },
          found,
          profile_after c.now until r.employee e s found,
          refl,
          refl,
          (events, recorded, refl),
        ),
      )

pub delete_locked-Ensures :
    (c : PrivacyContext) (r : DataSubjectRequest) (actor : User) (until : ℕ) (s : PrivacyStore)
    → Ensures (λ z. IsDeletion c r actor until s z.1) (delete_locked c r actor until s)
unfolding delete_locked
delete_locked-Ensures c r actor until s =
    let P = λ (z : Unit {0} × PrivacyStore). IsDeletion c r actor until s z.1 in
    Ensures-bind P (check_execution c r actor PrivacyRequestType.deletion) _ λ _ checked.
      Ensures-bind P
        (raise_if (ltb until c.today) (validation_error "retention date cannot be in the past")) _
        λ _ due.
          Ensures-bind P (or_raise (employee_by_key r.employee s.employees) does_not_exist) _
            λ e known.
              Ensures-bind P (complete c r actor "" (erase_employee c.now until e s)) _ λ s' done.
                deletion_of c r actor until e s s'
                  (check_execution-ok c r actor PrivacyRequestType.deletion checked)
                  (raise_if-ok _ _ due) (or_raise-ok _ _ known)
                  (complete-ok c r actor "" (erase_employee c.now until e s) s' done)

-- A deletion that returns was executed by a manager on an approved deletion request that somebody else
-- made, with a retention date not in the past. Every personal-information row of the employee is
-- blank, every bank account has no holder, number and routing, and both, and the tax profiles, are
-- archived until that date; the rows of other employees and the payroll inputs are as before. The
-- request is completed with one audit event. The profile of the employee stays stored under its key
-- and is archived until that date.
pub delete_employee_data_erases :
    (c : PrivacyContext) (r : DataSubjectRequest) (actor : User) (until : ℕ) (s s' : PrivacyStore)
    → delete_employee_data c r actor until s ≡ (ok tt, s')
    → IsDeletion c r actor until s s'
unfolding delete_employee_data
delete_employee_data_erases c r actor until s s' h =
    let m = delete_locked c r actor until s in
    Ensures-elim (λ z. IsDeletion c r actor until s z.1) m (tt, s')
      (delete_locked-Ensures c r actor until s) (atomic-ok s s' tt m h)
