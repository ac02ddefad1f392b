-- ===== src/Payroll/Rules/Lines.antt =====
-- The amounts of the lines that the rules return: whole cents, negative for deductions.
use payroll_management_syste.Prelude.{
  ◌<◌, ◌≡◌, refl, ap, Bool, true, ◌||◌, List, [], ◌∷◌, arith, All,
}
use payroll_management_syste.Prelude.Int.{
  pos_part-neg_ℤ, magnitude-neg_ℤ, pos, magnitude, pos_part, neg_ℤ,
}
use payroll_management_syste.Outcome.{Ensures-bind, Ensures-elim, Ensures, ok, or_raise, key_error}
use payroll_management_syste.Decimal.Quantize.{IsNearest, quantize-IsNearest}
use payroll_management_syste.Decimal.{whole, Decimal, decimal, cents, limit, neg, abs}
use payroll_management_syste.Decimal.Quantize.{quantize-IsNearest}
use payroll_management_syste.Decimal.Exact.{neg-cents, abs-cents}
use payroll_management_syste.Payroll.Models.{LineItem, InputItem, LineItemCategory}
use payroll_management_syste.Payroll.Rules.{
  described, no_metadata, get_or, calculate_input, calculate_lines, signed, category_of, money,
  is_pre_tax, is_post_tax, raw_amount,
}

abbrev pub InCents : Decimal → Type 0
InCents d = (d.scale ≡ 2) × (magnitude d.coeff < limit)

abbrev pub is_deduction : LineItemCategory → Bool
is_deduction c = is_pre_tax c || is_post_tax c

-- A line in whole cents, not above zero if it is a deduction.
abbrev pub IsLine : LineItem → Type 0
IsLine line =
    InCents line.amount × (is_deduction line.category ≡ true → pos_part line.amount.coeff ≡ 0)

pub as_cents : (d : Decimal) → d.scale ≡ 2 → d ≡ cents d.coeff
as_cents d h = ap (decimal d.coeff) h

money-InCents : (d r : Decimal) → money d ≡ ok r → InCents r
unfolding money
money-InCents d r h = let found = quantize-IsNearest 2 d r h in (found.0, found.1)

negative_abs : (d : Decimal) → InCents d → neg (abs d) ≡ cents (neg_ℤ (pos (magnitude d.coeff)))
negative_abs d (scale, small) =
    rw (as_cents d scale, abs-cents d.coeff small, neg-cents (pos (magnitude d.coeff)) small)

negative_abs-IsLine :
    (d : Decimal) → InCents d → InCents (neg (abs d)) × (pos_part (neg (abs d)).coeff ≡ 0)
negative_abs-IsLine d (scale, small) = rw (negative_abs d (scale, small)) (
  (refl, omega (arith, magnitude-neg_ℤ (pos (magnitude d.coeff)))),
  pos_part-neg_ℤ (magnitude d.coeff),
)

signed-IsLine :
    (c : LineItemCategory) (d : Decimal)
    → InCents d
    → InCents (signed c d) × (is_deduction c ≡ true → pos_part (signed c d).coeff ≡ 0)
unfolding signed
signed-IsLine LineItemCategory.earning d h = (h, λ e. cc)
signed-IsLine LineItemCategory.benefit d h = (h, λ e. cc)
signed-IsLine LineItemCategory.pre_tax_deduction d h =
    let (a, b) = negative_abs-IsLine d h in (a, λ _. b)
signed-IsLine LineItemCategory.post_tax_deduction d h =
    let (a, b) = negative_abs-IsLine d h in (a, λ _. b)
signed-IsLine LineItemCategory.employer_cost d h = (h, λ e. cc)

calculate_input-Ensures : (item : InputItem) → Ensures IsLine (calculate_input item)
unfolding calculate_input
calculate_input-Ensures item =
    Ensures-bind IsLine (or_raise item.input_type (key_error "input_type")) _ λ input_type _.
      Ensures-bind IsLine
        (raw_amount input_type (get_or item.amount (whole 0)) (get_or item.quantity (whole 1))
          (get_or item.rate (whole 0)) (get_or item.metadata no_metadata))
        _
        λ raw _. Ensures-bind IsLine (money raw.0) _ λ rounded got.
          Ensures-bind IsLine (or_raise item.employee_id (key_error "employee_id")) _
            λ employee_id _.
              Ensures-bind IsLine (described item.description input_type) _ λ description _.
                signed-IsLine (category_of input_type) rounded (money-InCents raw.0 rounded got)

calculate_lines-Ensures : (items : List InputItem) → Ensures (All IsLine) (calculate_lines items)
unfolding calculate_lines
calculate_lines-Ensures [] = tt
calculate_lines-Ensures (item ∷ items) =
    Ensures-bind (All IsLine) (calculate_input item) _ λ line first.
      Ensures-bind (All IsLine) (calculate_lines items) _ λ lines others. (
        Ensures-elim IsLine (calculate_input item) line (calculate_input-Ensures item) first,
        Ensures-elim (All IsLine) (calculate_lines items) lines (calculate_lines-Ensures items)
            others,
      )

-- Every line that the rules return is a whole number of cents below 10 ^ 26, and a deduction is
-- never above zero, whatever the sign of its input.
pub calculate_lines-IsLine :
    (items : List InputItem) (lines : List LineItem)
    → calculate_lines items ≡ ok lines
    → All IsLine lines
calculate_lines-IsLine items lines e =
    Ensures-elim (All IsLine) (calculate_lines items) lines (calculate_lines-Ensures items) e

-- An amount of money that the rules round has two places and at most 28 digits, and is nearest to
-- the amount given; of two nearest ones it is the one further from zero.
money-IsNearest :
    (d r : Decimal)
    → money d ≡ ok r
    → (r.scale ≡ 2) × (magnitude r.coeff < limit) × IsNearest 2 d r.coeff
unfolding money
money-IsNearest d r e = quantize-IsNearest 2 d r e
