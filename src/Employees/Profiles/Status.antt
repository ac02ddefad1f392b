-- ===== src/Employees/Profiles/Status.antt =====
-- The status of an employee over changes that `Employee.clean` accepts.
use payroll_management_syste.Prelude.{
  refl, none, inr, ==_iff, not, inl, ◌==◌, ◌≤◌, Bool-cases, ◌&&◌, ◌⊎◌, true, false, arith, ◌≡◌,
  some, Option, List, ℕ,
}
use payroll_management_syste.Employees.Models.{
  leave, active, draft, archived, terminated, is_present, status_code, is_before, employee_by_key,
  is_allowed_transition, EmploymentStatus, Employee,
}
use payroll_management_syste.Employees.Profiles.{is_terminated, clean_transition, clean_employee}
use payroll_management_syste.Outcome.{
  raise_if-ok, raise_unless-ok, Ensures-last, validation_error, raise_if, Ensures-elim,
  Ensures-bind, ok, Ensures,
}

-- How far a status is on the way to the archive.
abbrev pub stage : EmploymentStatus → ℕ
stage draft = 0
stage active = 1
stage leave = 1
stage terminated = 2
stage archived = 3

status_code-injective : (a b : EmploymentStatus) → status_code a ≡ status_code b → a ≡ b
status_code-injective a b h = ground arith

stage-le : (a b : EmploymentStatus) → is_allowed_transition a b ≡ true → stage a ≤ stage b
unfolding is_allowed_transition
stage-le a b h = ground arith

-- What `clean` accepts of a change from a stored row.
abbrev pub IsAccepted : Employee → Employee → Type 0
IsAccepted previous e =
    ((previous.status ≡ e.status) ⊎ (is_allowed_transition previous.status e.status ≡ true))
    × (stage previous.status ≤ stage e.status)
    × (is_before e.termination_date e.hire_date ≡ false)
    × (e.status ≡ terminated → (day : ℕ) × (e.termination_date ≡ some day) × (e.hire_date ≤ day))

clean_transition-ok :
    (previous : Employee) (status : EmploymentStatus)
    → clean_transition (some previous) status ≡ ok tt
    → (previous.status ≡ status) ⊎ (is_allowed_transition previous.status status ≡ true)
unfolding clean_transition
clean_transition-ok previous status h =
    elim (Bool-cases (status_code previous.status == status_code status)) [
      | inl t ↦ inl (status_code-injective _ _ ((==_iff _ _).0 t))
      | inr f ↦ inr (raise_unless-ok _ _ (rw f at h))
    ]

stage_of :
    (a b : EmploymentStatus) → (a ≡ b) ⊎ (is_allowed_transition a b ≡ true) → stage a ≤ stage b
stage_of a b (inl e) = rw e (omega arith)
stage_of a b (inr h) = stage-le a b h

date_of :
    (date : Option ℕ) (hire : ℕ) (status : EmploymentStatus)
    → is_before date hire ≡ false
    → (is_terminated status && not (is_present date)) ≡ false
    → status ≡ terminated
    → (day : ℕ) × (date ≡ some day) × (hire ≤ day)
unfolding is_terminated
date_of none hire status h k e = absurd (ground arith)
date_of (some day) hire status h k e = (day, refl, ground arith)

clean_employee-Ensures :
    (employees : List Employee) (previous e : Employee)
    → employee_by_key e.pk employees ≡ some previous
    → Ensures (λ _. IsAccepted previous e) (clean_employee employees e)
unfolding clean_employee
clean_employee-Ensures employees previous e found =
    let P = λ (_ : Unit {0}). IsAccepted previous e in
    Ensures-bind P
      (raise_if (is_before e.termination_date e.hire_date)
        (validation_error "termination date cannot precede hire date"))
      _
      λ _ ordered.
        Ensures-bind P
          (raise_if (is_terminated e.status && not (is_present e.termination_date))
            (validation_error "terminated employees require a termination date"))
          _
          λ _ dated.
            Ensures-last P (clean_transition (employee_by_key e.pk employees) e.status) λ u moved.
              let way = clean_transition-ok previous e.status (rw found at moved) in
              (
                way,
                stage_of previous.status e.status way,
                raise_if-ok _ _ ordered,
                date_of e.termination_date e.hire_date e.status (raise_if-ok _ _ ordered)
                    (raise_if-ok _ _ dated),
              )

-- A change of a stored employee that `clean` accepts keeps the status or makes one of the allowed
-- transitions, never goes back to an earlier stage, and leaves a termination date not before the
-- hire date, which a terminated employee has.
clean_employee_accepts :
    (employees : List Employee) (previous e : Employee)
    → employee_by_key e.pk employees ≡ some previous
    → clean_employee employees e ≡ ok tt
    → IsAccepted previous e
clean_employee_accepts employees previous e found h =
    Ensures-elim (λ _. IsAccepted previous e) (clean_employee employees e) tt
      (clean_employee-Ensures employees previous e found) h

-- A change of status and termination date that `clean` accepts wherever the row is stored.
pub data StatusChanges : Employee → Employee → Type 0 where
  here : {e : Employee} → StatusChanges e e
  next :
      {a b : Employee} (status : EmploymentStatus) (date : Option ℕ)
      → ((employees : List Employee)
          → employee_by_key a.pk employees ≡ some a
          → clean_employee employees (record a { status = status; termination_date = date })
            ≡ ok tt)
      → StatusChanges (record a { status = status; termination_date = date }) b
      → StatusChanges a b

allowed_change :
    (a : Employee) (status : EmploymentStatus) (date : Option ℕ)
    → is_allowed_transition a.status status ≡ true
    → is_before date a.hire_date ≡ false
    → (is_terminated status && not (is_present date)) ≡ false
    → (employees : List Employee) → employee_by_key a.pk employees ≡ some a
    → clean_employee employees (record a { status = status; termination_date = date }) ≡ ok tt
unfolding clean_employee clean_transition
allowed_change a status date may ordered dated employees found =
    rw (ordered, dated, found, may) (ground arith)

-- The end of an employment, on a date that `clean` accepts.
abbrev end_date : Option ℕ → ℕ → Option ℕ
end_date none hire = some hire
end_date (some day) hire = some day

end_date_ordered :
    (date : Option ℕ) (hire : ℕ)
    → is_before date hire ≡ false
    → (is_before (end_date date hire) hire ≡ false) × (is_present (end_date date hire) ≡ true)
end_date_ordered none hire h = (ground arith, refl)
end_date_ordered (some day) hire h = (h, refl)

from_terminated :
    (a : Employee)
    → a.status ≡ terminated
    → is_before a.termination_date a.hire_date ≡ false
    → StatusChanges a (record a { status = archived })
unfolding is_allowed_transition is_terminated
from_terminated a e ordered =
    next archived a.termination_date
      (allowed_change a archived a.termination_date (rw e refl) ordered refl) here

by_termination :
    (a : Employee)
    → is_allowed_transition a.status terminated ≡ true
    → is_before a.termination_date a.hire_date ≡ false
    → (e : Employee) × StatusChanges a e × (e.status ≡ archived)
unfolding is_terminated
by_termination a may ordered =
    let date = end_date a.termination_date a.hire_date in
    let (after, present) = end_date_ordered a.termination_date a.hire_date ordered in
    let ended = record a { status = terminated; termination_date = date } in
    (
      record ended { status = archived },
      next terminated date (allowed_change a terminated date may after (rw present refl))
          (from_terminated ended refl after),
      refl,
    )

way_to_archive :
    (status : EmploymentStatus) (a : Employee)
    → a.status ≡ status
    → is_before a.termination_date a.hire_date ≡ false
    → (e : Employee) × StatusChanges a e × (e.status ≡ archived)
unfolding is_allowed_transition is_terminated
way_to_archive draft a e ordered = (
  record a { status = archived },
  next archived a.termination_date
      (allowed_change a archived a.termination_date (rw e refl) ordered refl) here,
  refl,
)
way_to_archive active a e ordered = by_termination a (rw e refl) ordered
way_to_archive leave a e ordered = by_termination a (rw e refl) ordered
way_to_archive terminated a e ordered =
    (record a { status = archived }, from_terminated a e ordered, refl)
way_to_archive archived a e ordered = (a, here, e)

-- Every employee whose termination date does not precede the hire date can be brought to the archive
-- by changes of status and termination date, each of which `clean` accepts from the row as the
-- change before it left it stored.
pub StatusChanges-archived :
    (a : Employee)
    → is_before a.termination_date a.hire_date ≡ false
    → (e : Employee) × StatusChanges a e × (e.status ≡ archived)
StatusChanges-archived a ordered = way_to_archive a.status a refl ordered
