-- ===== src/Taxation/Table.antt =====
-- `TableTaxCalculator` of apps/taxation/services/engine.py: progressive brackets and the
-- employer's taxes.
pub mod Brackets
pub mod Slices
use payroll_management_syste.Prelude.{
  length, ℕ, String, Bool, true, false, Option, none, some, List, [], ◌∷◌, ◌++◌, str_eq, ◌==◌,
  if◌then◌else◌, select, find,
}
use payroll_management_syste.Outcome.{Result, ok, validation_error, raise_if, ◌>>=◌, ◌>>◌}
use payroll_management_syste.Decimal.{Decimal, whole, add, sub, mul, min_of, le, is_zero}
use payroll_management_syste.Taxation.Models.{TaxRuleVersion, TaxBracket, EmployerTax}
use payroll_management_syste.Taxation.Engine.{
  TaxCalculationRequest, BracketDetail, TaxCalculationResult, money,
}

abbrev pub same_key : Option ℕ → Option ℕ → Bool
same_key none none = true
same_key (some a) (some b) = a == b
same_key _ _ = false

-- `order_by("lower_bound")`
unfoldable pub insert_bracket : TaxBracket → List TaxBracket → List TaxBracket
insert_bracket b [] = b ∷ []
insert_bracket b (c ∷ cs) =
    if le b.lower_bound c.lower_bound then b ∷ c ∷ cs else c ∷ insert_bracket b cs

unfoldable pub order_brackets : List TaxBracket → List TaxBracket
unfolding insert_bracket
order_brackets [] = []
order_brackets (b ∷ bs) = insert_bracket b (order_brackets bs)

abbrev pub or_else {ℓ} : {A : Type ℓ} → List A → List A → List A
or_else [] ys = ys
or_else (x ∷ xs) ys = x ∷ xs

-- The brackets of the filing status, or else those of none.
unfoldable pub brackets_for : TaxRuleVersion → String → List TaxBracket
brackets_for rule filing_status =
    let chosen : Option ℕ = elim (find (λ s. str_eq s.code filing_status) rule.filing_statuses) [
      | none ↦ none
      | some s ↦ some s.pk
    ] in
    order_brackets (
      or_else (select (λ b. same_key b.filing_status chosen) rule.brackets)
        (select (λ b. same_key b.filing_status none) rule.brackets))

-- The part of the wages that falls into the bracket.
unfoldable pub taxable_in : Decimal → TaxBracket → Decimal
taxable_in wages b = elim b.upper_bound [
  | none ↦ sub wages b.lower_bound
  | some upper ↦ min_of (sub wages b.lower_bound) (sub upper b.lower_bound)
]

abbrev pub detail : Decimal → TaxBracket → BracketDetail
detail wages b = record { lower_bound = b.lower_bound; taxable = taxable_in wages b; rate = b.rate }

-- The loop over the brackets, on the tax and the details so far.
unfoldable pub tax_loop :
    Decimal → List TaxBracket → Decimal × List BracketDetail → Decimal × List BracketDetail
tax_loop wages [] acc = acc
tax_loop wages (b ∷ bs) (tax, details) = tax_loop wages bs (
    if le wages b.lower_bound then (tax, details) else (
      add tax (add (mul (taxable_in wages b) b.rate) b.fixed_amount),
      details ++ detail wages b ∷ [],
    ))

-- `item.wage_base or request.taxable_wages`: a base of zero is falsy.
unfoldable pub base_or_wages : Option Decimal → Decimal → Decimal
base_or_wages none wages = wages
base_or_wages (some base) wages = if is_zero base then wages else base

unfoldable pub employer_tax_of : Decimal → List EmployerTax → Decimal → Decimal
employer_tax_of wages [] total = total
employer_tax_of wages (item ∷ items) total = employer_tax_of wages items (
    add total
      (add (mul (min_of wages (base_or_wages item.wage_base wages)) item.rate) item.fixed_amount))

-- `TableTaxCalculator.calculate`
unfoldable pub table_calculate :
    TaxCalculationRequest → String → TaxRuleVersion → Result TaxCalculationResult
table_calculate request code rule = do
  let brackets = brackets_for rule request.filing_status
  raise_if (length brackets == 0)
      (validation_error "the rule has no brackets for the filing status")
  let taxed = tax_loop request.taxable_wages brackets (whole 0, [])
  employee ← money taxed.0
  employer ← money (employer_tax_of request.taxable_wages rule.employer_taxes (whole 0))
  ok (record {
    employee_tax = employee;
    employer_tax = employer;
    jurisdiction_code = code;
    rule_version = rule.version;
    explanation = taxed.1;
  })
