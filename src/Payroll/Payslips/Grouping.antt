-- ===== src/Payroll/Payslips/Grouping.antt =====
-- The groups of `_create_payslips` are the lines of each employee, in their order.
use payroll_management_syste.Prelude.{
  ℕ, ◌≡◌, refl, subst, ◌∙◌, inl, inr, Bool, false, ◌||◌, List, [], ◌∷◌, ◌++◌, append-nil,
  append_assoc, arith, ◌==◌, if◌then◌else◌, Bool-cases, any, select, All, any-append, select-append,
  All-map,
}
use payroll_management_syste.Payroll.Models.{LineItem}
use payroll_management_syste.Payroll.Payslips.{Groups, add_line, group_from}

abbrev pub is_of_employee : ℕ → LineItem → Bool
is_of_employee k line = line.employee_id == k

-- The lines grouped under a key.
abbrev pub lines_of : ℕ → Groups → List LineItem
lines_of k [] = []
lines_of k ((j, lines) ∷ groups) = if j == k then lines else lines_of k groups

abbrev pub has_key : ℕ → Groups → Bool
has_key k = any (λ g. g.0 == k)

-- No employee has two groups.
abbrev pub IsDistinct : Groups → Type 0
IsDistinct [] = Unit
IsDistinct ((k, lines) ∷ groups) = (has_key k groups ≡ false) × IsDistinct groups

has_key-add_line :
    (k : ℕ) (line : LineItem) (groups : Groups)
    → has_key k (add_line line groups) ≡ (line.employee_id == k || has_key k groups)
unfolding add_line
has_key-add_line k line [] = ground arith
has_key-add_line k line ((j, lines) ∷ groups) = ground (arith, has_key-add_line k line groups)

add_line-IsDistinct :
    (line : LineItem) (groups : Groups) → IsDistinct groups → IsDistinct (add_line line groups)
unfolding add_line
add_line-IsDistinct line [] h = (refl, tt)
add_line-IsDistinct line ((j, lines) ∷ groups) h =
    ground (arith, add_line-IsDistinct line groups h.1, has_key-add_line j line groups)

lines_of-add_line :
    (k : ℕ) (line : LineItem) (groups : Groups)
    → lines_of k (add_line line groups)
      ≡ (if line.employee_id == k then lines_of k groups ++ line ∷ [] else lines_of k groups)
unfolding add_line
lines_of-add_line k line [] = ground arith
lines_of-add_line k line ((j, lines) ∷ groups) = ground (arith, lines_of-add_line k line groups)

-- The groups of the lines read so far.
pub record IsGrouping (groups : Groups) (seen : List LineItem) : Type 0 where
  pub distinct : IsDistinct groups
  pub sorted : (k : ℕ) → lines_of k groups ≡ select (is_of_employee k) seen
  pub covered : (k : ℕ) → has_key k groups ≡ any (is_of_employee k) seen

sorted_step :
    (k : ℕ) (line : LineItem) (groups : Groups) (seen : List LineItem)
    → lines_of k groups ≡ select (is_of_employee k) seen
    → lines_of k (add_line line groups) ≡ select (is_of_employee k) (seen ++ line ∷ [])
sorted_step k line groups seen h =
    rw (lines_of-add_line k line groups, select-append (is_of_employee k) seen (line ∷ []), h)
      (elim (Bool-cases (is_of_employee k line)) [ inl e ↦ rw e | inr e ↦ rw (e, append-nil) ])

add_line-IsGrouping :
    (line : LineItem) (groups : Groups) (seen : List LineItem)
    → IsGrouping groups seen
    → IsGrouping (add_line line groups) (seen ++ line ∷ [])
add_line-IsGrouping line groups seen h = record {
  distinct = add_line-IsDistinct line groups h.distinct;
  sorted = λ k. sorted_step k line groups seen (h.sorted k);
  covered = λ k.
      rw
        (
          has_key-add_line k line groups,
          any-append (is_of_employee k) seen (line ∷ []),
          h.covered k,
        )
        (ground arith);
}

group_from-IsGrouping :
    (lines : List LineItem) (groups : Groups) (seen : List LineItem)
    → IsGrouping groups seen
    → IsGrouping (group_from groups lines) (seen ++ lines)
unfolding group_from
group_from-IsGrouping [] groups seen h = rw (append-nil seen) h
group_from-IsGrouping (line ∷ lines) groups seen h =
    subst (IsGrouping (group_from (add_line line groups) lines))
      (append_assoc seen (line ∷ []) lines)
      (group_from-IsGrouping lines (add_line line groups) (seen ++ line ∷ [])
        (add_line-IsGrouping line groups seen h))

pub group-IsGrouping : (lines : List LineItem) → IsGrouping (group_from [] lines) lines
group-IsGrouping lines =
    group_from-IsGrouping lines [] []
      (record { distinct = tt; sorted = λ k. refl; covered = λ k. refl })

lines_of-cons :
    (k : ℕ) (lines : List LineItem) (gs groups : Groups)
    → has_key k gs ≡ false
    → All (λ g. g.1 ≡ lines_of g.0 groups) gs
    → All (λ g. g.1 ≡ lines_of g.0 ((k, lines) ∷ groups)) gs
lines_of-cons k lines [] groups h a = tt
lines_of-cons k lines ((j, ls) ∷ gs) groups h (own, a) =
    (ground arith, lines_of-cons k lines gs groups (ground arith) a)

-- Under distinct keys a group holds the lines that are looked up by its key.
own_lines : (groups : Groups) → IsDistinct groups → All (λ g. g.1 ≡ lines_of g.0 groups) groups
own_lines [] h = tt
own_lines ((k, lines) ∷ groups) (new, h) =
    (ground arith, lines_of-cons k lines groups groups new (own_lines groups h))

-- Every group of a run consists of the lines of its employee, in the order of the run.
pub group-lines :
    (lines : List LineItem)
    → All (λ g. g.1 ≡ select (is_of_employee g.0) lines) (group_from [] lines)
group-lines lines =
    let h = group-IsGrouping lines in
    All-map _ _ (group_from [] lines) (λ g own. own ∙ h.sorted g.0)
      (own_lines (group_from [] lines) h.distinct)
