-- ===== src/Payroll/Rules.antt =====
-- apps/payroll/services/v1.py: the payroll calculation rules, version 1. The values of an input are
-- the numbers that its texts stand for.
pub mod Lines
pub mod Balance
use payroll_management_syste.Prelude.{
  ℕ, zero, suc, ◌+◌, ◌-◌, ◌*◌, ◌/◌, ◌%◌, ◌^◌, ◌≤◌, ◌<◌, max, min, String, ◌≡◌, refl, sym, ap, subst,
  ◌∙◌, ◌≢◌, ◌↔◌, ◌⊎◌, inl, inr, Bool, true, false, not, ◌&&◌, ◌||◌, Option, none, some, List, [],
  ◌∷◌, ◌++◌, map, arith, str_eq, str_eq_iff, ltb, leb, ◌==◌, if◌then◌else◌, ==_iff, Bool-cases,
  Option-cases, length, length-append, any, all, select, find, update_where, All, All-append,
  any-append, Elem, find-Elem, Elem-any,
}
use payroll_management_syste.Outcome.{
  Result, ok, err, value_error, key_error, or_raise, raise_if, ◌>>=◌, ◌>>◌,
}
use payroll_management_syste.Decimal.{
  Decimal, decimal, whole, add, sub, mul, div, neg, abs, quantize, le,
}
use payroll_management_syste.Prelude.Int.{pos}
use payroll_management_syste.Payroll.Models.{
  InputType, TypeText, listed, unlisted, LineItemCategory, Metadata, InputItem, LineItem,
}

abbrev pub rules_version : String
rules_version = "v1"

unfoldable pub money : Decimal → Result Decimal
money = quantize 2

abbrev pub no_metadata : Metadata
no_metadata = record { worked_days = none; period_days = none; multiplier = none }

abbrev pub get_or {ℓ} : {A : Type ℓ} → Option A → A → A
get_or none d = d
get_or (some a) d = a

-- `amount * worked_days / period_days`
unfoldable pub prorated : Decimal → Metadata → Result Decimal
prorated amount metadata = do
  let period_days = get_or metadata.period_days (whole 1)
  let worked_days = get_or metadata.worked_days period_days
  raise_if (le period_days (whole 0)) (value_error "period_days must be positive")
  div (mul amount worked_days) period_days

-- The unrounded amount and the formula, by the type.
unfoldable pub raw_amount :
    TypeText → Decimal → Decimal → Decimal → Metadata → Result (Decimal × String)
raw_amount (listed InputType.base_salary) amount quantity rate metadata = do
  raw ← prorated amount metadata
  ok (raw, "amount * worked_days / period_days")
raw_amount (listed InputType.hourly) amount quantity rate metadata =
    ok (mul rate quantity, "rate * quantity")
raw_amount (listed InputType.overtime) amount quantity rate metadata = ok (
  mul (mul rate quantity) (get_or metadata.multiplier (decimal (pos 15) 1)),
  "rate * quantity * multiplier",
)
raw_amount _ amount quantity rate metadata = ok (amount, "amount")

abbrev pub category_of : TypeText → LineItemCategory
category_of (listed InputType.benefit) = LineItemCategory.benefit
category_of (listed InputType.pre_tax_deduction) = LineItemCategory.pre_tax_deduction
category_of (listed InputType.post_tax_deduction) = LineItemCategory.post_tax_deduction
category_of (listed InputType.employer_cost) = LineItemCategory.employer_cost
category_of _ = LineItemCategory.earning

-- A deduction is stored as a negative amount, whatever the sign of the input.
unfoldable pub signed : LineItemCategory → Decimal → Decimal
signed LineItemCategory.pre_tax_deduction amount = neg (abs amount)
signed LineItemCategory.post_tax_deduction amount = neg (abs amount)
signed _ amount = amount

abbrev pub label : InputType → String
label InputType.base_salary = "Base salary"
label InputType.hourly = "Hourly work"
label InputType.overtime = "Overtime"
label InputType.bonus = "Bonus"
label InputType.commission = "Commission"
label InputType.benefit = "Benefit"
label InputType.pre_tax_deduction = "Pre-tax deduction"
label InputType.post_tax_deduction = "Post-tax deduction"
label InputType.employer_cost = "Employer cost"

-- `item.get("description") or InputType(input_type).label`
unfoldable pub described : Option String → TypeText → Result String
described description input_type =
    let text = get_or description "" in
    if str_eq text ""
    then elim input_type [
      | listed t ↦ ok (label t)
      | unlisted _ ↦ err (value_error "not a valid InputType")
    ]
    else ok text

unfoldable pub calculate_input : InputItem → Result LineItem
calculate_input item = do
  input_type ← or_raise item.input_type (key_error "input_type")
  let amount = get_or item.amount (whole 0)
  let quantity = get_or item.quantity (whole 1)
  let rate = get_or item.rate (whole 0)
  raw ← raw_amount input_type amount quantity rate (get_or item.metadata no_metadata)
  rounded ← money raw.0
  employee_id ← or_raise item.employee_id (key_error "employee_id")
  description ← described item.description input_type
  ok (record {
    employee_id = employee_id;
    input_type = input_type;
    category = category_of input_type;
    description = description;
    amount = signed (category_of input_type) rounded;
    formula = raw.1;
    unrounded_result = raw.0;
    source_snapshot = item;
  })

unfoldable pub calculate_lines : List InputItem → Result (List LineItem)
calculate_lines [] = ok []
calculate_lines (item ∷ items) = do
  line ← calculate_input item
  lines ← calculate_lines items
  ok (line ∷ lines)

abbrev pub is_gross : LineItemCategory → Bool
is_gross LineItemCategory.earning = true
is_gross LineItemCategory.benefit = true
is_gross _ = false

abbrev pub is_pre_tax : LineItemCategory → Bool
is_pre_tax LineItemCategory.pre_tax_deduction = true
is_pre_tax _ = false

abbrev pub is_post_tax : LineItemCategory → Bool
is_post_tax LineItemCategory.post_tax_deduction = true
is_post_tax _ = false

abbrev pub is_employer_cost : LineItemCategory → Bool
is_employer_cost LineItemCategory.employer_cost = true
is_employer_cost _ = false

-- `sum((line["amount"] for line in lines if …), start)`
unfoldable pub sum_amounts : (LineItemCategory → Bool) → Decimal → List LineItem → Decimal
sum_amounts wanted start [] = start
sum_amounts wanted start (line ∷ lines) =
    sum_amounts wanted (if wanted line.category then add start line.amount else start) lines

pub record Totals : Type 0 where
  pub lines : List LineItem
  pub gross_pay : Decimal
  pub pre_tax_deductions : Decimal
  pub post_tax_deductions : Decimal
  pub employer_costs : Decimal
  pub net_pay : Decimal

unfoldable pub totals_of : List LineItem → Result Totals
totals_of lines = do
  gross ← money (sum_amounts is_gross (whole 0) lines)
  pre_tax ← money (neg (sum_amounts is_pre_tax (whole 0) lines))
  post_tax ← money (neg (sum_amounts is_post_tax (whole 0) lines))
  employer_costs ← money (sum_amounts is_employer_cost (whole 0) lines)
  net ← money (sub (sub gross pre_tax) post_tax)
  ok (record {
    lines = lines;
    gross_pay = gross;
    pre_tax_deductions = pre_tax;
    post_tax_deductions = post_tax;
    employer_costs = employer_costs;
    net_pay = net;
  })

unfoldable pub calculate : List InputItem → Result Totals
calculate inputs = do lines ← calculate_lines inputs; totals_of lines
