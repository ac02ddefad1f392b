-- ===== src/Employees/Tests/Witnesses.antt =====
-- The theorems about employees at these rows.
use payroll_management_syste.Prelude.{
  arith, inr, sym, ◌∙◌, none, inl, List, ◌≡◌, refl, some, [], ◌∷◌,
}
use payroll_management_syste.Outcome.{ok}
use payroll_management_syste.Employees.Models
use payroll_management_syste.Auditing.{newest_hash, record_event, save_event}
use payroll_management_syste.Organizations.Validators.{
  validate_identifier, is_identifier, is_identifier_rest,
}
use payroll_management_syste.Employees.Profiles.{
  clean_employee, clean_transition, clean_fields, full_clean_employee, is_terminated,
}
use payroll_management_syste.Employees.Profiles.Status.{StatusChanges, StatusChanges-archived}
use payroll_management_syste.Employees.Periods.{
  EmployeePeriod, save_employee_period, clean_employee_period, validate_employee_period,
  check_product, is_conflict,
}
use payroll_management_syste.Employees.Periods.Disjoint
use payroll_management_syste.Employees.Periods.Disjoint.{
  AreDisjoint, TableHistory, TableHistory-AreDisjoint,
}
use payroll_management_syste.Employees.Privacy.{
  PrivacyStore, authorize_execution, check_execution, complete,
}
use payroll_management_syste.Employees.Privacy.Deletion.{
  delete_employee_data, delete_locked, erase_employee, archive_employee,
}
use payroll_management_syste.Employees.Privacy.Correction.{
  FieldChanges, correct_employee_data, correct_locked, correct_personal, get_or_create,
  save_general, set_all,
}
use payroll_management_syste.Employees.Privacy.Erasure.{IsDeletion, delete_employee_data_erases}
use payroll_management_syste.Employees.Privacy.Corrected.{
  IsCorrection, correct_employee_data_corrects,
}
use payroll_management_syste.Employees.Privacy.History
use payroll_management_syste.Employees.Privacy.History.{
  AreIndependent, PrivacyHistory, PrivacyHistory-AreIndependent,
}
use payroll_management_syste.Employees.Tests.{salary, worker, manager, context, request, store}
use payroll_management_syste.Employees.Models.{PrivacyRequestType, Employee}

-- All that a workflow unfolds.
unfoldable working : Unit {0}
unfolding newest_hash record_event save_event validate_identifier is_identifier is_identifier_rest
    clean_employee clean_transition clean_fields full_clean_employee is_terminated
    authorize_execution check_execution complete delete_employee_data delete_locked erase_employee
    archive_employee correct_employee_data correct_locked correct_personal get_or_create
    save_general set_all Models.is_allowed_transition
working = tt

abbrev retired : Employee
retired = record worker { status = Models.terminated; termination_date = some 40 }

retires : clean_employee (worker ∷ []) retired ≡ ok tt
unfolding working
retires = refl

StatusChanges-archived_example :
    (e : Employee) × StatusChanges worker e × (e.status ≡ Models.archived)
StatusChanges-archived_example = StatusChanges-archived worker refl

after_deletion : PrivacyStore
after_deletion =
    (delete_employee_data context (request PrivacyRequestType.deletion) manager 70
      (store PrivacyRequestType.deletion)).1

delete_employee_data_erases_example :
    IsDeletion context
      (request PrivacyRequestType.deletion)
      manager
      70
      (store PrivacyRequestType.deletion)
      after_deletion
unfolding after_deletion working
delete_employee_data_erases_example =
    delete_employee_data_erases context (request PrivacyRequestType.deletion) manager 70
      (store PrivacyRequestType.deletion) after_deletion refl

abbrev renaming : FieldChanges
renaming = ("preferred_name", "Ali") ∷ []

abbrev moving : FieldChanges
moving = ("residential_address_encrypted", "road") ∷ []

after_correction : PrivacyStore
after_correction =
    (correct_employee_data context (request PrivacyRequestType.correction) manager renaming moving
      (store PrivacyRequestType.correction)).1

correct_employee_data_corrects_example :
    IsCorrection context
      (request PrivacyRequestType.correction)
      manager
      renaming
      moving
      (store PrivacyRequestType.correction)
      after_correction
unfolding after_correction working
correct_employee_data_corrects_example =
    correct_employee_data_corrects context (request PrivacyRequestType.correction) manager renaming
      moving (store PrivacyRequestType.correction) after_correction refl

alone : AreIndependent (store PrivacyRequestType.deletion)
alone = (
  (
    λ x y m n same. elim m [
      | inl e ↦ elim n [ inl e' ↦ e ∙ sym e' | inr none_left ↦ elim none_left [ ] ]
      | inr none_left ↦ elim none_left [ ]
    ],
    λ x m. elim m [ inl e ↦ rw e (omega arith) | inr none_left ↦ elim none_left [ ] ],
  ),
  λ r m. elim m [
    | inl e ↦ λ _. rw e (7, refl, λ same. absurd (omega arith), refl)
    | inr none_left ↦ elim none_left [ ]
  ],
)

one_deletion : PrivacyHistory (store PrivacyRequestType.deletion) after_deletion
unfolding after_deletion working
one_deletion =
    History.deleted context (request PrivacyRequestType.deletion) manager 70 (ok tt) History.start
      (inl refl) refl

PrivacyHistory-AreIndependent_example : AreIndependent after_deletion
PrivacyHistory-AreIndependent_example = PrivacyHistory-AreIndependent alone one_deletion

abbrev table : List EmployeePeriod
table = salary 1 5 (some 9) ∷ salary 2 10 none ∷ []

two_saves : TableHistory [] table
unfolding save_employee_period clean_employee_period validate_employee_period check_product
    is_conflict
two_saves =
    Disjoint.saved (worker ∷ []) [] (salary 2 10 none)
      (Disjoint.saved (worker ∷ []) [] (salary 1 5 (some 9)) Disjoint.start refl) refl

TableHistory-AreDisjoint_example : AreDisjoint table
TableHistory-AreDisjoint_example = TableHistory-AreDisjoint (λ a b m n. elim m [ ]) two_saves
