-- ===== src/Decimal/Tests.antt =====
-- Python's results on a few numbers.
use payroll_management_syste.Prelude.Int.{pos, negsuc}
use payroll_management_syste.Prelude.{◌^◌, ◌≡◌, refl}
use payroll_management_syste.Outcome.{ok}
use payroll_management_syste.Decimal.{decimal, cents, whole, div, quantize, add, computing}

thirds : div (whole 1) (whole 3) ≡ ok (decimal (pos 3333333333333333333333333333) 28)
unfolding computing
thirds = refl

money_ties : quantize 2 (decimal (negsuc 10124) 3) ≡ ok (cents (negsuc 1012))
unfolding computing
money_ties = refl

rounds_sum : add (whole (10 ^ 28)) (decimal (pos 15) 1) ≡ decimal (pos (10 ^ 28)) 0
unfolding computing
rounds_sum = refl

exact_eighth : div (whole 1000) (cents (pos 800)) ≡ ok (whole 125)
unfolding computing
exact_eighth = refl
