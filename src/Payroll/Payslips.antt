-- ===== src/Payroll/Payslips.antt =====
-- `_create_payslips` of apps/payroll/services/processing.py: one payslip for each employee of a run.
pub mod Grouping
pub mod Sums
use payroll_management_syste.Prelude.{
  ℕ, zero, suc, ◌+◌, ◌-◌, ◌*◌, ◌/◌, ◌%◌, ◌^◌, ◌≤◌, ◌<◌, max, min, String, ◌≡◌, refl, sym, ap, subst,
  ◌∙◌, ◌≢◌, ◌↔◌, ◌⊎◌, inl, inr, Bool, true, false, not, ◌&&◌, ◌||◌, Option, none, some, List, [],
  ◌∷◌, ◌++◌, map, append-nil, append_assoc, arith, str_eq, str_eq_iff, ltb, leb, ◌==◌,
  if◌then◌else◌, ==_iff, Bool-cases, Option-cases, length, length-append, any, all, select, find,
  update_where, All, All-append, any-append, Elem, find-Elem, Elem-any, find_sound, select-append,
  All-select, All-map, Elem-select, select-Elem, select-All, find-append_new, length-update_where,
}
use payroll_management_syste.Outcome.{Result, ok, ◌>>=◌}
use payroll_management_syste.Decimal.{Decimal, whole, neg, sub}
use payroll_management_syste.Payroll.Models.{LineItem, LineItemCategory, Payslip}
use payroll_management_syste.Payroll.Rules.{money, sum_amounts, is_gross, is_pre_tax, is_post_tax}

abbrev pub Groups : Type 0
Groups = List (ℕ × List LineItem)

-- `by_employee[line["employee_id"]].append(line)` on a `defaultdict(list)`.
unfoldable pub add_line : LineItem → Groups → Groups
add_line line [] = (line.employee_id, line ∷ []) ∷ []
add_line line ((k, lines) ∷ groups) =
    if k == line.employee_id
    then (k, lines ++ line ∷ []) ∷ groups
    else (k, lines) ∷ add_line line groups

unfoldable pub group_from : Groups → List LineItem → Groups
group_from groups [] = groups
group_from groups (line ∷ lines) = group_from (add_line line groups) lines

abbrev pub is_deduction : LineItemCategory → Bool
is_deduction c = is_pre_tax c || is_post_tax c

unfoldable pub payslip_of : ℕ × List LineItem → Result Payslip
payslip_of (employee_id, lines) = do
  gross ← money (sum_amounts is_gross (whole 0) lines)
  deductions ← money (neg (sum_amounts is_deduction (whole 0) lines))
  net ← money (sub gross deductions)
  ok (record { employee = employee_id; gross_pay = gross; net_pay = net; lines = lines })

unfoldable pub payslips_of : Groups → Result (List Payslip)
payslips_of [] = ok []
payslips_of (group ∷ groups) = do
  payslip ← payslip_of group
  payslips ← payslips_of groups
  ok (payslip ∷ payslips)

unfoldable pub create_payslips : List LineItem → Result (List Payslip)
create_payslips lines = payslips_of (group_from [] lines)
