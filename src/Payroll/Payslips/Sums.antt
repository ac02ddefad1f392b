-- ===== src/Payroll/Payslips/Sums.antt =====
-- The payslips of a run are exact, and share out its totals.
use payroll_management_syste.Prelude.{
  ℕ, ◌^◌, ◌≤◌, ◌<◌, ◌≡◌, refl, ◌∙◌, inl, inr, Bool, false, List, [], ◌∷◌, ◌++◌, map, arith, ◌==◌,
  if◌then◌else◌, Bool-cases, any, select, All, All-select, All-map,
}
use payroll_management_syste.Prelude.Int.{ℤ, pos, neg_ℤ, ◌+ℤ◌, int_laws, +ℤ_assoc, zero-+ℤ}
use payroll_management_syste.Outcome.{ok}
use payroll_management_syste.Decimal.{cents, sub}
use payroll_management_syste.Decimal.Exact.{sub-cents}
use payroll_management_syste.Payroll.Models.{LineItem, Payslip, LineItemCategory, InputItem}
use payroll_management_syste.Payroll.Rules.{money, is_gross, calculate_lines}
use payroll_management_syste.Payroll.Rules.Lines.{calculate_lines-IsLine, IsLine}
use payroll_management_syste.Payroll.Rules.Balance.{
  money-Means, sum_of, volume, is_paid, money_sum, money-neg_sum, sum_of-le-volume,
}
use payroll_management_syste.Payroll.Payslips.{
  Groups, add_line, group_from, is_deduction, payslip_of, payslips_of, create_payslips,
}
use payroll_management_syste.Payroll.Payslips.Grouping.{
  has_key, group-IsGrouping, IsDistinct, is_of_employee, group-lines,
}

-- The payslip that the lines of an employee should have.
abbrev pub exact_payslip : ℕ × List LineItem → Payslip
exact_payslip (employee_id, lines) = record {
  employee = employee_id;
  gross_pay = cents (sum_of is_gross lines);
  net_pay = cents (sum_of is_paid lines);
  lines = lines;
}

paid_line :
    (c : LineItemCategory) (a g d s : ℤ)
    → s ≡ g +ℤ d
    → (if is_paid c then a +ℤ s else s)
      ≡ (if is_gross c then a +ℤ g else g) +ℤ (if is_deduction c then a +ℤ d else d)
paid_line LineItemCategory.earning a g d s h = rw h (omega int_laws)
paid_line LineItemCategory.benefit a g d s h = rw h (omega int_laws)
paid_line LineItemCategory.pre_tax_deduction a g d s h = rw h (omega int_laws)
paid_line LineItemCategory.post_tax_deduction a g d s h = rw h (omega int_laws)
paid_line LineItemCategory.employer_cost a g d s h = rw h (omega int_laws)

sum_of-paid :
    (lines : List LineItem)
    → sum_of is_paid lines ≡ sum_of is_gross lines +ℤ sum_of is_deduction lines
sum_of-paid [] = omega int_laws
sum_of-paid (line ∷ lines) =
    paid_line line.category line.amount.coeff (sum_of is_gross lines) (sum_of is_deduction lines)
      (sum_of is_paid lines) (sum_of-paid lines)

net_of :
    (lines : List LineItem)
    → volume lines < 10 ^ 27
    → money (sub (cents (sum_of is_gross lines)) (cents (neg_ℤ (sum_of is_deduction lines))))
      ≡ ok (cents (sum_of is_paid lines))
net_of lines small =
    let g = sum_of is_gross lines in
    let d = sum_of is_deduction lines in
    let paid : g +ℤ neg_ℤ (neg_ℤ d) ≡ sum_of is_paid lines =
      rw (sum_of-paid lines) (omega int_laws) in
    let low = sum_of-le-volume is_paid lines in
    rw (sub-cents g (neg_ℤ d) (rw paid (omega arith)), paid)
      (money-Means (cents (sum_of is_paid lines)) (sum_of is_paid lines) (inr refl) (omega arith))

payslip_of_exact :
    (k : ℕ) (lines : List LineItem)
    → All IsLine lines
    → volume lines < 10 ^ 27
    → payslip_of (k, lines) ≡ ok (exact_payslip (k, lines))
unfolding payslip_of
payslip_of_exact k lines h small =
    rw (
      money_sum is_gross lines h small,
      money-neg_sum is_deduction lines h small,
      net_of lines small,
    )

payslips_of_exact :
    (groups : Groups)
    → All (λ g. All IsLine g.1 × (volume g.1 < 10 ^ 27)) groups
    → payslips_of groups ≡ ok (map exact_payslip groups)
unfolding payslips_of
payslips_of_exact [] h = refl
payslips_of_exact (g ∷ groups) ((line, small), h) =
    rw (payslip_of_exact g.0 g.1 line small, payslips_of_exact groups h)

volume-select :
    (test : LineItem → Bool) (lines : List LineItem) → volume (select test lines) ≤ volume lines
volume-select test [] = omega arith
volume-select test (line ∷ lines) = elim (Bool-cases (test line)) [
  | inl t ↦ rw t (omega (arith, volume-select test lines))
  | inr f ↦ rw f (omega (arith, volume-select test lines))
]

-- The payslips of lines with a volume below 10 ^ 25 units of currency are always made, one for each
-- group of `by_employee`, and exact.
create_payslips_exact :
    (lines : List LineItem)
    → All IsLine lines
    → volume lines < 10 ^ 27
    → create_payslips lines ≡ ok (map exact_payslip (group_from [] lines))
unfolding create_payslips
create_payslips_exact lines h small = payslips_of_exact (group_from [] lines) (
    All-map (λ g. g.1 ≡ select (is_of_employee g.0) lines) _ (group_from [] lines)
      (λ g own. rw own (
        All-select IsLine (is_of_employee g.0) lines h,
        omega (arith, volume-select (is_of_employee g.0) lines),
      ))
      (group-lines lines))

-- The net pay of all payslips together.
abbrev pub total_net : List Payslip → ℤ
total_net [] = pos 0
total_net (p ∷ ps) = p.net_pay.coeff +ℤ total_net ps

abbrev total_of : (LineItemCategory → Bool) → Groups → ℤ
total_of wanted [] = pos 0
total_of wanted (g ∷ gs) = sum_of wanted g.1 +ℤ total_of wanted gs

sum_of-append :
    (wanted : LineItemCategory → Bool) (xs ys : List LineItem)
    → sum_of wanted (xs ++ ys) ≡ sum_of wanted xs +ℤ sum_of wanted ys
sum_of-append wanted [] ys = omega int_laws
sum_of-append wanted (line ∷ xs) ys = elim (Bool-cases (wanted line.category)) [
  | inl t ↦ rw (t, sum_of-append wanted xs ys) (omega int_laws)
  | inr f ↦ rw (f, sum_of-append wanted xs ys)
]

total_of-add_line :
    (wanted : LineItemCategory → Bool) (line : LineItem) (groups : Groups)
    → total_of wanted (add_line line groups) ≡ total_of wanted groups +ℤ sum_of wanted (line ∷ [])
unfolding add_line
total_of-add_line wanted line [] = omega int_laws
total_of-add_line wanted line ((k, lines) ∷ groups) = elim (Bool-cases (k == line.employee_id)) [
  | inl t ↦ rw (t, sum_of-append wanted lines (line ∷ [])) (omega int_laws)
  | inr f ↦ rw (f, total_of-add_line wanted line groups) (omega int_laws)
]

total_of-group_from :
    (wanted : LineItemCategory → Bool) (lines : List LineItem) (groups : Groups)
    → total_of wanted (group_from groups lines) ≡ total_of wanted groups +ℤ sum_of wanted lines
unfolding group_from
total_of-group_from wanted [] groups = omega int_laws
total_of-group_from wanted (line ∷ lines) groups = rw (
  total_of-group_from wanted lines (add_line line groups),
  total_of-add_line wanted line groups,
  +ℤ_assoc,
  ← sum_of-append wanted (line ∷ []) lines,
)

total_net-exact : (groups : Groups) → total_net (map exact_payslip groups) ≡ total_of is_paid groups
total_net-exact [] = refl
total_net-exact (g ∷ groups) = rw (total_net-exact groups)

-- No employee has two of the payslips.
abbrev pub IsOnePerEmployee : List Payslip → Type 0
IsOnePerEmployee [] = Unit
IsOnePerEmployee (p ∷ ps) = (any (λ q. q.employee == p.employee) ps ≡ false) × IsOnePerEmployee ps

has_payslip-exact :
    (k : ℕ) (groups : Groups)
    → any (λ q. q.employee == k) (map exact_payslip groups) ≡ has_key k groups
has_payslip-exact k [] = refl
has_payslip-exact k (g ∷ groups) = rw (has_payslip-exact k groups)

exact-IsOnePerEmployee :
    (groups : Groups) → IsDistinct groups → IsOnePerEmployee (map exact_payslip groups)
exact-IsOnePerEmployee [] h = tt
exact-IsOnePerEmployee (g ∷ groups) (new, h) =
    (has_payslip-exact g.0 groups ∙ new, exact-IsOnePerEmployee groups h)

exact_lines :
    (lines : List LineItem) (groups : Groups)
    → All (λ g. g.1 ≡ select (is_of_employee g.0) lines) groups
    → All
        (λ (p : Payslip). p.lines ≡ select (is_of_employee p.employee) lines)
        (map exact_payslip groups)
exact_lines lines [] h = tt
exact_lines lines (g ∷ groups) (own, h) = (own, exact_lines lines groups h)

-- The lines of a calculation are shared out among payslips, which are always made if the volume is
-- below 10 ^ 25 units of currency: each employee with a line has exactly one, it holds the lines of
-- that employee in their order, and together the payslips pay exactly what the lines pay.
pub payslips_share_net :
    (items : List InputItem) (lines : List LineItem)
    → calculate_lines items ≡ ok lines
    → volume lines < 10 ^ 27
    → (ps : List Payslip) × (create_payslips lines ≡ ok ps)
      × (total_net ps ≡ sum_of is_paid lines)
      × IsOnePerEmployee ps
      × ((k : ℕ) → any (λ p. p.employee == k) ps ≡ any (is_of_employee k) lines)
      × All (λ (p : Payslip). p.lines ≡ select (is_of_employee p.employee) lines) ps
payslips_share_net items lines e small =
    let groups = group_from [] lines in
    let shared = group-IsGrouping lines in
    (
      map exact_payslip groups,
      create_payslips_exact lines (calculate_lines-IsLine items lines e) small,
      total_net-exact groups
          ∙ total_of-group_from is_paid lines []
          ∙ zero-+ℤ (sum_of is_paid lines),
      exact-IsOnePerEmployee groups shared.distinct,
      λ k. has_payslip-exact k groups ∙ shared.covered k,
      exact_lines lines groups (group-lines lines),
    )
