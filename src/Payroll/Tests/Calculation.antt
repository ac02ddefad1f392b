-- ===== src/Payroll/Tests/Calculation.antt =====
-- The rules and the payslips on the salary and the pension of one employee.
use payroll_management_syste.Prelude.{ℕ, ◌≡◌, refl, List, arith, ◌==◌, any, select, All}
use payroll_management_syste.Decimal.{cents, decimal}
use payroll_management_syste.Payroll.Rules.{money}
use payroll_management_syste.Prelude.Int.{negsuc}
use payroll_management_syste.Outcome.{ok}
use payroll_management_syste.Payroll.Models.{Payslip}
use payroll_management_syste.Payroll.Rules.{calculate, calculate_lines}
use payroll_management_syste.Payroll.Rules.Balance.{calculate_exact, exact_totals, is_paid, sum_of}
use payroll_management_syste.Payroll.Payslips.{create_payslips}
use payroll_management_syste.Payroll.Payslips.Grouping.{is_of_employee}
use payroll_management_syste.Payroll.Payslips.Sums.{payslips_share_net, total_net, IsOnePerEmployee}
use payroll_management_syste.Payroll.Tests.{running, items, lines}

lines_given : calculate_lines items ≡ ok lines
unfolding running
lines_given = refl

calculate_exact_example : calculate items ≡ ok (exact_totals lines)
calculate_exact_example = calculate_exact items lines lines_given (omega arith)

payslips_share_net_example :
    (ps : List Payslip) × (create_payslips lines ≡ ok ps)
    × (total_net ps ≡ sum_of is_paid lines)
    × IsOnePerEmployee ps
    × ((k : ℕ) → any (λ p. p.employee == k) ps ≡ any (is_of_employee k) lines)
    × All (λ (p : Payslip). p.lines ≡ select (is_of_employee p.employee) lines) ps
payslips_share_net_example = payslips_share_net items lines lines_given (omega arith)

rounded : money (decimal (negsuc 10124) 3) ≡ ok (cents (negsuc 1012))
unfolding running
rounded = refl
