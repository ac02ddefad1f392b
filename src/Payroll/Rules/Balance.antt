-- ===== src/Payroll/Rules/Balance.antt =====
-- The totals of a calculation against the exact sums of its lines, in whole cents.
use payroll_management_syste.Prelude.{
  ℕ, ◌+◌, ◌^◌, ◌≤◌, ◌<◌, ◌≡◌, refl, ap, ◌∙◌, ◌⊎◌, inl, inr, Bool, not, List, [], ◌∷◌, arith,
  if◌then◌else◌, Bool-cases, All,
}
use payroll_management_syste.Prelude.Int.{
  +ℤ_assoc, zero-+ℤ, +ℤ-zero, ℤ, pos, magnitude, neg_ℤ, ◌+ℤ◌, int_laws, magnitude-+ℤ-le,
  magnitude-neg_ℤ,
}
use payroll_management_syste.Outcome.{ok}
use payroll_management_syste.Decimal.{Decimal, whole, cents, limit, neg, add, sub}
use payroll_management_syste.Decimal.Exact.{
  quantize-zero, neg-zero, neg-cents, add-cents, add-zero-cents, sub-cents, quantize-cents,
}
use payroll_management_syste.Payroll.Models.{LineItem, InputItem, LineItemCategory}
use payroll_management_syste.Payroll.Rules.{
  money, sum_amounts, totals_of, calculate, calculate_lines, Totals, is_pre_tax, is_post_tax,
  is_gross, is_employer_cost,
}
use payroll_management_syste.Payroll.Rules.Lines.{IsLine, as_cents, InCents, calculate_lines-IsLine}

-- The exact sum of the amounts of the wanted categories.
abbrev pub sum_of : (LineItemCategory → Bool) → List LineItem → ℤ
sum_of wanted [] = pos 0
sum_of wanted (line ∷ lines) =
    if wanted line.category then line.amount.coeff +ℤ sum_of wanted lines else sum_of wanted lines

-- The sum of the absolute amounts of all lines.
abbrev pub volume : List LineItem → ℕ
volume [] = 0
volume (line ∷ lines) = magnitude line.amount.coeff + volume lines

pub sum_of-le-volume :
    (wanted : LineItemCategory → Bool) (lines : List LineItem)
    → magnitude (sum_of wanted lines) ≤ volume lines
sum_of-le-volume wanted [] = omega arith
sum_of-le-volume wanted (line ∷ lines) =
    grind (
      arith,
      sum_of-le-volume wanted lines,
      magnitude-+ℤ-le line.amount.coeff (sum_of wanted lines),
    )

-- A running sum: the start `Decimal("0")`, or whole cents.
abbrev pub Means : Decimal → ℤ → Type 0
Means d c = ((d ≡ whole 0) × (c ≡ pos 0)) ⊎ (d ≡ cents c)

add-Means :
    (d a : Decimal) (c : ℤ)
    → Means d c
    → InCents a
    → magnitude c + magnitude a.coeff < limit
    → add d a ≡ cents (c +ℤ a.coeff)
add-Means d a c (inl (start, empty)) (scale, small) h =
    rw (start, empty, zero-+ℤ a.coeff)
      (ap (add (whole 0)) (as_cents a scale) ∙ add-zero-cents a.coeff small)
add-Means d a c (inr e) (scale, small) h = rw e (
    ap (add (cents c)) (as_cents a scale)
    ∙ add-cents c a.coeff (omega (arith, magnitude-+ℤ-le c a.coeff)))

-- Adding the wanted amounts in turn is exact while their volume has 28 digits.
sum_amounts_exact :
    (wanted : LineItemCategory → Bool) (lines : List LineItem) (d : Decimal) (c : ℤ)
    → All IsLine lines
    → Means d c
    → magnitude c + volume lines < limit
    → Means (sum_amounts wanted d lines) (c +ℤ sum_of wanted lines)
unfolding sum_amounts
sum_amounts_exact wanted [] d c h m small = rw (+ℤ-zero c) m
sum_amounts_exact wanted (line ∷ lines) d c (h, hs) m small =
    let a : ℤ = line.amount.coeff in
    elim (Bool-cases (wanted line.category)) [
      | inl use_it ↦
          rw (use_it, ← +ℤ_assoc c a (sum_of wanted lines))
            (sum_amounts_exact wanted lines (add d line.amount) (c +ℤ a) hs
              (inr (add-Means d line.amount c m h.0 (omega arith)))
              (omega (arith, magnitude-+ℤ-le c a)))
      | inr skip ↦ rw skip (sum_amounts_exact wanted lines d c hs m (omega arith))
    ]

sum_from_zero :
    (wanted : LineItemCategory → Bool) (lines : List LineItem)
    → All IsLine lines
    → volume lines < limit
    → Means (sum_amounts wanted (whole 0) lines) (sum_of wanted lines)
sum_from_zero wanted lines h small =
    rw (← zero-+ℤ (sum_of wanted lines))
      (sum_amounts_exact wanted lines (whole 0) (pos 0) h (inl (refl, refl)) (omega arith))

pub money-Means : (d : Decimal) (c : ℤ) → Means d c → magnitude c < limit → money d ≡ ok (cents c)
unfolding money
money-Means d c (inl (start, empty)) h = rw (start, empty) quantize-zero
money-Means d c (inr e) h = rw e (quantize-cents c h)

neg-Means : (d : Decimal) (c : ℤ) → Means d c → magnitude c < limit → Means (neg d) (neg_ℤ c)
neg-Means d c (inl (start, empty)) h = inl (rw start neg-zero, rw empty (omega int_laws))
neg-Means d c (inr e) h = inr (rw e (neg-cents c h))

-- What an employee is paid: all but the employer's costs.
abbrev pub is_paid : LineItemCategory → Bool
is_paid c = not (is_employer_cost c)

split_line :
    (c : LineItemCategory) (a g p q s : ℤ)
    → s ≡ g +ℤ p +ℤ q
    → (if is_paid c then a +ℤ s else s)
      ≡ (if is_gross c then a +ℤ g else g)
        +ℤ (if is_pre_tax c then a +ℤ p else p)
        +ℤ (if is_post_tax c then a +ℤ q else q)
split_line LineItemCategory.earning a g p q s h = rw h (omega int_laws)
split_line LineItemCategory.benefit a g p q s h = rw h (omega int_laws)
split_line LineItemCategory.pre_tax_deduction a g p q s h = rw h (omega int_laws)
split_line LineItemCategory.post_tax_deduction a g p q s h = rw h (omega int_laws)
split_line LineItemCategory.employer_cost a g p q s h = rw h (omega int_laws)

-- Gross pay and the two kinds of deduction make up what is paid.
pub sum_of-split :
    (lines : List LineItem)
    → sum_of is_paid lines
      ≡ sum_of is_gross lines +ℤ sum_of is_pre_tax lines +ℤ sum_of is_post_tax lines
sum_of-split [] = omega int_laws
sum_of-split (line ∷ lines) =
    split_line line.category line.amount.coeff (sum_of is_gross lines) (sum_of is_pre_tax lines)
      (sum_of is_post_tax lines) (sum_of is_paid lines) (sum_of-split lines)

-- The totals that the lines should have.
abbrev pub exact_totals : List LineItem → Totals
exact_totals lines = record {
  lines = lines;
  gross_pay = cents (sum_of is_gross lines);
  pre_tax_deductions = cents (neg_ℤ (sum_of is_pre_tax lines));
  post_tax_deductions = cents (neg_ℤ (sum_of is_post_tax lines));
  employer_costs = cents (sum_of is_employer_cost lines);
  net_pay = cents (sum_of is_paid lines);
}

net_bound :
    (lines : List LineItem)
    → volume lines < 10 ^ 27
    → let x = sum_of is_gross lines +ℤ neg_ℤ (neg_ℤ (sum_of is_pre_tax lines)) in
      (magnitude x < limit) × (magnitude (x +ℤ neg_ℤ (neg_ℤ (sum_of is_post_tax lines))) < limit)
net_bound lines small =
    let g = sum_of is_gross lines in
    let p = sum_of is_pre_tax lines in
    let q = sum_of is_post_tax lines in
    omega (
      arith,
      sum_of-le-volume is_gross lines,
      sum_of-le-volume is_pre_tax lines,
      sum_of-le-volume is_post_tax lines,
      magnitude-+ℤ-le g (neg_ℤ (neg_ℤ p)),
      magnitude-+ℤ-le (g +ℤ neg_ℤ (neg_ℤ p)) (neg_ℤ (neg_ℤ q)),
      magnitude-neg_ℤ (neg_ℤ p),
      magnitude-neg_ℤ p,
      magnitude-neg_ℤ (neg_ℤ q),
      magnitude-neg_ℤ q,
    )

net_exact :
    (lines : List LineItem)
    → volume lines < 10 ^ 27
    → money (
        sub
          (sub (cents (sum_of is_gross lines)) (cents (neg_ℤ (sum_of is_pre_tax lines))))
          (cents (neg_ℤ (sum_of is_post_tax lines))))
      ≡ ok (cents (sum_of is_paid lines))
net_exact lines small =
    let g = sum_of is_gross lines in
    let p = sum_of is_pre_tax lines in
    let q = sum_of is_post_tax lines in
    let x = g +ℤ neg_ℤ (neg_ℤ p) in
    let paid : x +ℤ neg_ℤ (neg_ℤ q) ≡ sum_of is_paid lines =
      rw (sum_of-split lines) (omega int_laws) in
    rw
      (
        sub-cents g (neg_ℤ p) (net_bound lines small).0,
        sub-cents x (neg_ℤ q) (net_bound lines small).1,
        paid,
      )
      (money-Means (cents (sum_of is_paid lines)) (sum_of is_paid lines) (inr refl)
        (omega (arith, sum_of-le-volume is_paid lines)))

module _ (wanted : LineItemCategory → Bool) (lines : List LineItem) (h : All IsLine lines)
    (small : volume lines < 10 ^ 27) where
  pub money_sum : money (sum_amounts wanted (whole 0) lines) ≡ ok (cents (sum_of wanted lines))
  money_sum =
      money-Means _ _ (sum_from_zero wanted lines h (omega arith))
        (omega (arith, sum_of-le-volume wanted lines))

  pub money-neg_sum :
      money (neg (sum_amounts wanted (whole 0) lines)) ≡ ok (cents (neg_ℤ (sum_of wanted lines)))
  money-neg_sum =
      money-Means _ _
        (neg-Means _ _ (sum_from_zero wanted lines h (omega arith))
          (omega (arith, sum_of-le-volume wanted lines)))
        (omega (arith, sum_of-le-volume wanted lines, magnitude-neg_ℤ (sum_of wanted lines)))

-- Lines with a volume below 10 ^ 25 units of currency are always totalled, and exactly: the
-- roundings of `decimal` change nothing, and net pay is the sum of all lines but employer costs.
pub totals_of_exact :
    (lines : List LineItem)
    → All IsLine lines
    → volume lines < 10 ^ 27
    → totals_of lines ≡ ok (exact_totals lines)
unfolding totals_of
totals_of_exact lines h small = rw (
  money_sum is_gross lines h small,
  money-neg_sum is_pre_tax lines h small,
  money-neg_sum is_post_tax lines h small,
  money_sum is_employer_cost lines h small,
  net_exact lines small,
)

-- If the inputs give lines whose absolute amounts add up to less than 10 ^ 25 units of currency, the
-- calculation returns, and every total is the exact sum of its lines: gross pay that of the earnings
-- and benefits, the deductions those of their lines with the sign changed, and net pay that of all
-- lines but the employer's costs.
pub calculate_exact :
    (inputs : List InputItem) (lines : List LineItem)
    → calculate_lines inputs ≡ ok lines
    → volume lines < 10 ^ 27
    → calculate inputs ≡ ok (exact_totals lines)
unfolding calculate
calculate_exact inputs lines e small =
    rw e (totals_of_exact lines (calculate_lines-IsLine inputs lines e) small)
