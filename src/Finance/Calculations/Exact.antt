-- ===== src/Finance/Calculations/Exact.antt =====
-- The metrics against the exact sums of the ledger, in cents.
use payroll_management_syste.Prelude.{
  ◌^◌, ℕ, ◌+◌, ◌≤◌, ◌<◌, ◌≡◌, refl, ap, ◌⊎◌, inl, inr, List, [], ◌∷◌, arith, ◌==◌, Bool-cases,
}
use payroll_management_syste.Outcome.{ok}
use payroll_management_syste.Prelude.Int.{
  ℤ, pos, negsuc, ◌+ℤ◌, neg_ℤ, magnitude, magnitude-+ℤ-le, magnitude-neg_ℤ,
}
use payroll_management_syste.Decimal.{Decimal, whole, cents, sub, limit, computing}
use payroll_management_syste.Decimal.Exact.{sub-cents, quantize-cents, quantize-zero}
use payroll_management_syste.Finance.Models.{LedgerEntry, Account, AccountCategory}
use payroll_management_syste.Finance.Calculations.{
  total, operating_profit, gross_profit, coverage_margin, after_tax_result, amounts, sum_cents,
  has_category, total_or_zero, money,
}

-- The start of a sum, `Decimal("0")`, or whole cents.
abbrev IsWorth : Decimal → ℤ → Type 0
IsWorth d c = ((d ≡ whole 0) × (c ≡ pos 0)) ⊎ (d ≡ cents c)

total_or_zero-IsWorth : (xs : List ℤ) → IsWorth (total_or_zero xs) (sum_cents xs)
unfolding total_or_zero
total_or_zero-IsWorth xs = elim (Bool-cases (magnitude (sum_cents xs) == 0)) [
  | inl none_left ↦ rw none_left (inl (refl, is_zero_sum (sum_cents xs) (ground arith)))
  | inr some_left ↦ rw some_left (inr refl)
]
  where
    is_zero_sum : (c : ℤ) → magnitude c ≡ 0 → c ≡ pos 0
    is_zero_sum (pos n) h = ap pos h
    is_zero_sum (negsuc n) h = absurd (omega arith)

-- A zero of no places is subtracted as one of two.
sub_zero_right : (a : ℤ) → sub (cents a) (whole 0) ≡ sub (cents a) (cents (pos 0))
unfolding sub
sub_zero_right a = refl

sub_zero_left : (b : ℤ) → sub (whole 0) (cents b) ≡ sub (cents (pos 0)) (cents b)
unfolding sub
sub_zero_left b = refl

sub_zeros : sub (whole 0) (whole 0) ≡ whole 0
unfolding computing
sub_zeros = refl

zero_minus_zero : pos 0 +ℤ neg_ℤ (pos 0) ≡ pos 0
unfolding computing
zero_minus_zero = refl

cents_difference :
    (a b : ℤ)
    → magnitude a + magnitude b < limit
    → money (sub (cents a) (cents b)) ≡ ok (cents (a +ℤ neg_ℤ b))
unfolding money
cents_difference a b small =
    let bound : magnitude (a +ℤ neg_ℤ b) < limit =
      omega (arith, magnitude-+ℤ-le a (neg_ℤ b), magnitude-neg_ℤ b) in
    rw (sub-cents a b bound) (quantize-cents (a +ℤ neg_ℤ b) bound)

money_difference :
    (d e : Decimal) (a b : ℤ)
    → IsWorth d a
    → IsWorth e b
    → magnitude a + magnitude b < limit
    → money (sub d e) ≡ ok (cents (a +ℤ neg_ℤ b))
unfolding money
money_difference d e a b (inl (dz, az)) (inl (ez, bz)) small =
    rw (dz, ez, az, bz, sub_zeros, zero_minus_zero) quantize-zero
money_difference d e a b (inl (dz, az)) (inr eb) small =
    rw (dz, eb, sub_zero_left b, az) (cents_difference (pos 0) b (omega arith))
money_difference d e a b (inr da) (inl (ez, bz)) small =
    rw (da, ez, sub_zero_right a, bz) (cents_difference a (pos 0) (omega (arith, ap magnitude bz)))
money_difference d e a b (inr da) (inr eb) small = rw (da, eb) (cents_difference a b small)

-- The exact sum of a category, and the volume of all that is added up.
abbrev pub worth : List Account → List LedgerEntry → AccountCategory → ℤ
worth accounts entries category = sum_cents (amounts accounts entries category)

abbrev pub volume : List LedgerEntry → ℕ
volume [] = 0
volume (e ∷ entries) = magnitude e.amount + volume entries

worth-le-volume :
    (accounts : List Account) (category : AccountCategory) (entries : List LedgerEntry)
    → magnitude (worth accounts entries category) ≤ volume entries
worth-le-volume accounts category [] = omega arith
worth-le-volume accounts category (e ∷ entries) =
    elim (Bool-cases (has_category accounts category e)) [
      | inl t ↦ rw t (
          omega (
            arith,
            magnitude-+ℤ-le e.amount (worth accounts entries category),
            worth-le-volume accounts category entries,
          ))
      | inr f ↦ rw f (omega (arith, worth-le-volume accounts category entries))
    ]

module _ (accounts : List Account) (entries : List LedgerEntry)
    (small : volume entries < 10 ^ 27) where
  total-IsWorth :
      (category : AccountCategory)
      → IsWorth (total accounts entries category) (worth accounts entries category)
  unfolding total
  total-IsWorth category = total_or_zero-IsWorth (amounts accounts entries category)

  gross_exact :
      gross_profit accounts entries
      ≡ ok (
          cents (
            worth accounts entries AccountCategory.revenue
            +ℤ neg_ℤ (worth accounts entries AccountCategory.operating_cost)))
  unfolding gross_profit
  gross_exact =
      money_difference _ _ _ _ (total-IsWorth AccountCategory.revenue)
        (total-IsWorth AccountCategory.operating_cost)
        (omega (
          arith,
          worth-le-volume accounts AccountCategory.revenue entries,
          worth-le-volume accounts AccountCategory.operating_cost entries,
        ))

  abbrev exact_gross : ℤ
  exact_gross =
      worth accounts entries AccountCategory.revenue
      +ℤ neg_ℤ (worth accounts entries AccountCategory.operating_cost)

  gross_bound : magnitude exact_gross ≤ volume entries + volume entries
  gross_bound = omega (
    arith,
    magnitude-+ℤ-le (worth accounts entries AccountCategory.revenue)
        (neg_ℤ (worth accounts entries AccountCategory.operating_cost)),
    magnitude-neg_ℤ (worth accounts entries AccountCategory.operating_cost),
    worth-le-volume accounts AccountCategory.revenue entries,
    worth-le-volume accounts AccountCategory.operating_cost entries,
  )

  operating_exact :
      operating_profit accounts entries
      ≡ ok (cents (exact_gross +ℤ neg_ℤ (worth accounts entries AccountCategory.payroll_cost)))
  unfolding operating_profit
  operating_exact = rw gross_exact (
      money_difference (cents exact_gross) _ exact_gross _ (inr refl)
        (total-IsWorth AccountCategory.payroll_cost)
        (omega (arith, gross_bound, worth-le-volume accounts AccountCategory.payroll_cost entries)))

  abbrev exact_operating : ℤ
  exact_operating = exact_gross +ℤ neg_ℤ (worth accounts entries AccountCategory.payroll_cost)

  operating_bound : magnitude exact_operating ≤ volume entries + volume entries + volume entries
  operating_bound = omega (
    arith,
    magnitude-+ℤ-le exact_gross (neg_ℤ (worth accounts entries AccountCategory.payroll_cost)),
    magnitude-neg_ℤ (worth accounts entries AccountCategory.payroll_cost),
    gross_bound,
    worth-le-volume accounts AccountCategory.payroll_cost entries,
  )

  after_tax_exact :
      after_tax_result accounts entries
      ≡ ok (cents (exact_operating +ℤ neg_ℤ (worth accounts entries AccountCategory.tax)))
  unfolding after_tax_result
  after_tax_exact = rw operating_exact (
      money_difference (cents exact_operating) _ exact_operating _ (inr refl)
        (total-IsWorth AccountCategory.tax)
        (omega (arith, operating_bound, worth-le-volume accounts AccountCategory.tax entries)))

  coverage_exact :
      coverage_margin accounts entries
      ≡ ok (
          cents (
            worth accounts entries AccountCategory.insurance_premium
            +ℤ neg_ℤ (worth accounts entries AccountCategory.insurance_claim)))
  unfolding coverage_margin
  coverage_exact =
      money_difference _ _ _ _ (total-IsWorth AccountCategory.insurance_premium)
        (total-IsWorth AccountCategory.insurance_claim)
        (omega (
          arith,
          worth-le-volume accounts AccountCategory.insurance_premium entries,
          worth-le-volume accounts AccountCategory.insurance_claim entries,
        ))

  -- For ledger entries whose absolute amounts add up to less than 10 ^ 25 units of currency, the
  -- profits are always calculated, and no rounding shows in them: the gross profit is the sum of the
  -- revenue less that of the operating costs, the operating profit is less by the payroll costs, and
  -- the result after tax by the taxes too; the coverage margin is the premiums less the claims.
  pub profits_exact :
      let sum = worth accounts entries in
      let gross = sum AccountCategory.revenue +ℤ neg_ℤ (sum AccountCategory.operating_cost) in
      let operating = gross +ℤ neg_ℤ (sum AccountCategory.payroll_cost) in
      (gross_profit accounts entries ≡ ok (cents gross))
      × (operating_profit accounts entries ≡ ok (cents operating))
      × (after_tax_result accounts entries
          ≡ ok (cents (operating +ℤ neg_ℤ (sum AccountCategory.tax))))
      × (coverage_margin accounts entries
          ≡ ok (
              cents (
                sum AccountCategory.insurance_premium
                +ℤ neg_ℤ (sum AccountCategory.insurance_claim))))
  profits_exact = (gross_exact, operating_exact, after_tax_exact, coverage_exact)
