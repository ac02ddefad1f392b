-- ===== src/Taxation/Table/Slices.antt =====
-- The loop of the table calculator against a filter and a sum.
use payroll_management_syste.Prelude.{
  String, ◌≡◌, refl, sym, ap, ◌∙◌, Option, none, some, if◌then◌else◌, inl, inr, false, not, List,
  [], ◌∷◌, ◌++◌, map, append-nil, append_assoc, ◌==◌, Bool-cases, length, select,
}
use payroll_management_syste.Outcome.{
  ok, Ensures, Ensures-bind, Ensures-elim, raise_if, raise_if-ok, validation_error,
}
use payroll_management_syste.Decimal.{Decimal, whole, add, mul, le, lt, min_of, is_zero}
use payroll_management_syste.Taxation.Models.{TaxBracket, TaxRuleVersion, EmployerTax}
use payroll_management_syste.Taxation.Engine.{
  TaxCalculationRequest, TaxCalculationResult, BracketDetail, money,
}
use payroll_management_syste.Taxation.Table.{
  taxable_in, detail, tax_loop, brackets_for, employer_tax_of, table_calculate, base_or_wages,
}
use payroll_management_syste.Taxation.Table.Brackets.{ArePicked, brackets_for-ArePicked}

-- The brackets that the wages reach into.
abbrev pub reached : Decimal → List TaxBracket → List TaxBracket
reached wages = select (λ b. not (le wages b.lower_bound))

-- The tax of one bracket.
abbrev amount_in : Decimal → TaxBracket → Decimal
amount_in wages b = add (mul (taxable_in wages b) b.rate) b.fixed_amount

abbrev sum_from : Decimal → List Decimal → Decimal
sum_from total [] = total
sum_from total (x ∷ xs) = sum_from (add total x) xs

tax_loop-slices :
    (wages : Decimal) (bs : List TaxBracket) (tax : Decimal) (details : List BracketDetail)
    → tax_loop wages bs (tax, details) ≡ (
      sum_from tax (map (amount_in wages) (reached wages bs)),
      details ++ map (detail wages) (reached wages bs),
    )
unfolding tax_loop
tax_loop-slices wages [] tax details = ap (λ ds. (tax, ds)) (sym (append-nil details))
tax_loop-slices wages (b ∷ bs) tax details = elim (Bool-cases (le wages b.lower_bound)) [
  | inl t ↦ rw (t, tax_loop-slices wages bs tax details) refl
  | inr f ↦
      rw
        (f, tax_loop-slices wages bs (add tax (amount_in wages b)) (details ++ detail wages b ∷ []))
        (ap
          (λ ds.
            (sum_from (add tax (amount_in wages b)) (map (amount_in wages) (reached wages bs)), ds))
          (append_assoc details (detail wages b ∷ []) (map (detail wages) (reached wages bs))))
]

-- The part of the wages that an employer's tax is on. A base of zero counts as none.
abbrev pub capped : Decimal → Option Decimal → Decimal
capped wages none = wages
capped wages (some base) = if is_zero base then wages else min_of wages base

-- One tax of the employer.
abbrev employer_amount : Decimal → EmployerTax → Decimal
employer_amount wages item = add (mul (capped wages item.wage_base) item.rate) item.fixed_amount

min_of_self : (d : Decimal) → min_of d d ≡ d
unfolding min_of
min_of_self d = elim (Bool-cases (lt d d)) [ inl t ↦ rw t refl | inr f ↦ rw f refl ]

capped_lem :
    (wages : Decimal) (base : Option Decimal)
    → min_of wages (base_or_wages base wages) ≡ capped wages base
unfolding base_or_wages
capped_lem wages none = min_of_self wages
capped_lem wages (some base) = elim (Bool-cases (is_zero base)) [
  | inl t ↦ rw t (min_of_self wages)
  | inr f ↦ rw f refl
]

employer_tax_of-sum :
    (wages : Decimal) (items : List EmployerTax) (total : Decimal)
    → employer_tax_of wages items total ≡ sum_from total (map (employer_amount wages) items)
unfolding employer_tax_of
employer_tax_of-sum wages [] total = refl
employer_tax_of-sum wages (item ∷ items) total =
    ap
      (λ base. employer_tax_of wages items (add total (add (mul base item.rate) item.fixed_amount)))
      (capped_lem wages item.wage_base)
    ∙ employer_tax_of-sum wages items (add total (employer_amount wages item))

-- What a calculation of the table returns.
abbrev pub IsTableResult :
    TaxCalculationRequest → String → TaxRuleVersion → TaxCalculationResult → Type 0
IsTableResult request code rule r =
    (brackets : List TaxBracket) × ArePicked rule request.filing_status brackets
    × ((length brackets == 0) ≡ false)
    × (money (
          sum_from (whole 0)
            (map (amount_in request.taxable_wages) (reached request.taxable_wages brackets)))
        ≡ ok r.employee_tax)
    × (money (sum_from (whole 0) (map (employer_amount request.taxable_wages) rule.employer_taxes))
        ≡ ok r.employer_tax)
    × (r.explanation ≡ map (detail request.taxable_wages) (reached request.taxable_wages brackets))
    × (r.jurisdiction_code ≡ code)
    × (r.rule_version ≡ rule.version)

table_calculate-Ensures :
    (request : TaxCalculationRequest) (code : String) (rule : TaxRuleVersion)
    → Ensures (IsTableResult request code rule) (table_calculate request code rule)
unfolding table_calculate
table_calculate-Ensures request code rule =
    let P = IsTableResult request code rule in
    let brackets = brackets_for rule request.filing_status in
    let taxed = tax_loop request.taxable_wages brackets (whole 0, []) in
    let sliced = tax_loop-slices request.taxable_wages brackets (whole 0) [] in
    Ensures-bind P
      (raise_if (length brackets == 0)
        (validation_error "the rule has no brackets for the filing status"))
      _
      λ _ some_brackets. Ensures-bind P (money taxed.0) _ λ employee rounded.
        Ensures-bind P (money (employer_tax_of request.taxable_wages rule.employer_taxes (whole 0)))
          _
          λ employer summed. (
            brackets,
            brackets_for-ArePicked rule request.filing_status,
            raise_if-ok _ _ some_brackets,
            ap (λ (z : Decimal × List BracketDetail). money z.0) (sym sliced) ∙ rounded,
            ap money (sym (employer_tax_of-sum request.taxable_wages rule.employer_taxes (whole 0)))
                ∙ summed,
            ap (λ (z : Decimal × List BracketDetail). z.1) sliced,
            refl,
            refl,
          )

-- A calculation of the table that returns reads brackets of the rule, at least one: those of the
-- requested filing status, or those without a status if the rule does not have that status or has
-- no bracket of it, each as often as the rule has it and none right before one with a smaller lower
-- bound. The employee's tax is the sum, rounded to cents, of the taxes of exactly those of them whose
-- lower bound is below the wages, and the explanation lists these with the part of the wages in each.
-- The employer's is the rounded sum of its taxes, each on the wages up to its base, where a base of
-- zero counts as none. The result carries the given jurisdiction and the version of the rule.
pub table_calculate-IsTableResult :
    (request : TaxCalculationRequest) (code : String) (rule : TaxRuleVersion)
    (r : TaxCalculationResult)
    → table_calculate request code rule ≡ ok r
    → IsTableResult request code rule r
table_calculate-IsTableResult request code rule r e =
    Ensures-elim (IsTableResult request code rule) (table_calculate request code rule) r
      (table_calculate-Ensures request code rule) e
