-- ===== src/Finance/Calculations.antt =====
-- apps/finance/services/calculations.py. The database adds up cents exactly.
pub mod Exact
use payroll_management_syste.Prelude.{
  ℕ, zero, suc, ◌+◌, ◌-◌, ◌*◌, ◌/◌, ◌%◌, ◌^◌, ◌≤◌, ◌<◌, max, min, String, ◌≡◌, refl, sym, ap, subst,
  ◌∙◌, ◌≢◌, ◌↔◌, ◌⊎◌, inl, inr, Bool, true, false, not, ◌&&◌, ◌||◌, Option, none, some,
  some-injective, List, [], ◌∷◌, ◌++◌, map, append-nil, append_assoc, arith, str_eq, str_eq_iff,
  ltb, leb, ◌==◌, if◌then◌else◌, ==_iff, Bool-cases, Option-cases, length, length-append, any, all,
  select, find, update_where, All, All-append, any-append, Elem, find-Elem, Elem-any, find_sound,
  select-append, All-select, All-map, Elem-select, select-Elem, select-All, find-append_new,
  length-update_where,
}
use payroll_management_syste.Outcome.{Result, ok, ◌>>=◌, ◌>>◌}
use payroll_management_syste.Prelude.Int.{ℤ, pos, ◌+ℤ◌, magnitude}
use payroll_management_syste.Decimal.{Decimal, whole, cents, add, sub, mul, div, quantize, is_zero}
use payroll_management_syste.Finance.Models.{
  AccountCategory, MetricType, Account, InsurancePolicy, LedgerEntry, FinancialMetric, FinanceStore,
  category_eq,
}
use payroll_management_syste.Finance.Models

-- `money` and `ratio`
unfoldable pub money : Decimal → Result Decimal
money d = quantize 2 d

unfoldable pub ratio : Decimal → Result Decimal
ratio d = quantize 4 d

abbrev pub is_for_product : Option ℕ → LedgerEntry → Bool
is_for_product none e = true
is_for_product (some product) e = elim e.product [ none ↦ false | some p ↦ p == product ]

-- `_entries`
unfoldable pub entries_of : ℕ → ℕ → ℕ → Option ℕ → List LedgerEntry → List LedgerEntry
entries_of organization start end product = select (λ e.
    e.organization == organization
    && leb start e.entry_date
    && leb e.entry_date end
    && is_for_product product e)

-- `account__category=category`
abbrev pub has_category : List Account → AccountCategory → LedgerEntry → Bool
has_category accounts category e =
    any (λ a. a.pk == e.account && category_eq a.category category) accounts

-- `Sum(…)`, in cents.
abbrev pub sum_cents : List ℤ → ℤ
sum_cents [] = pos 0
sum_cents (x ∷ xs) = x +ℤ sum_cents xs

-- `aggregate(total=Sum(…))["total"] or ZERO`: a sum of nothing is None, and a sum of 0.00 is false.
unfoldable pub total_or_zero : List ℤ → Decimal
total_or_zero xs = let sum = sum_cents xs in if magnitude sum == 0 then whole 0 else cents sum

abbrev pub amounts : List Account → List LedgerEntry → AccountCategory → List ℤ
amounts accounts entries category =
    map (λ e. e.amount) (select (has_category accounts category) entries)

-- `_total`
unfoldable pub total : List Account → List LedgerEntry → AccountCategory → Decimal
total accounts entries category = total_or_zero (amounts accounts entries category)

module _ (accounts : List Account) (entries : List LedgerEntry) where
  unfoldable pub gross_profit : Result Decimal
  gross_profit = money (
      sub (total accounts entries AccountCategory.revenue)
        (total accounts entries AccountCategory.operating_cost))

  unfoldable pub operating_profit : Result Decimal
  operating_profit = do
    gross ← gross_profit
    money (sub gross (total accounts entries AccountCategory.payroll_cost))

  unfoldable pub after_tax_result : Result Decimal
  after_tax_result = do
    operating ← operating_profit
    money (sub operating (total accounts entries AccountCategory.tax))

  unfoldable pub payroll_to_revenue_ratio : Result Decimal
  payroll_to_revenue_ratio =
      let revenue = total accounts entries AccountCategory.revenue in
      if is_zero revenue then ratio (whole 0) else (do
        quotient ← div (total accounts entries AccountCategory.payroll_cost) revenue
        ratio (mul quotient (whole 100)))

  unfoldable pub product_margin : Result Decimal
  product_margin = do
    gross ← gross_profit
    money (sub gross (total accounts entries AccountCategory.payroll_cost))

  unfoldable pub coverage_margin : Result Decimal
  coverage_margin = money (
      sub (total accounts entries AccountCategory.insurance_premium)
        (total accounts entries AccountCategory.insurance_claim))

unfoldable pub insurance_exposure : ℕ → List InsurancePolicy → Result Decimal
insurance_exposure organization policies = money (
    total_or_zero
      (map (λ p. p.coverage_limit) (select (λ p. p.organization == organization) policies)))

-- `liability += premium.amount * premium.policy.commission_rate`, for the premiums with a policy.
unfoldable pub derived_liability : List InsurancePolicy → List LedgerEntry → Decimal → Decimal
derived_liability policies [] liability = liability
derived_liability policies (e ∷ premiums) liability =
    derived_liability policies premiums (elim e.policy [
      | none ↦ liability
      | some pk ↦ elim (find (λ p. p.pk == pk) policies) [
        | none ↦ liability
        | some p ↦ add liability (mul (cents e.amount) p.commission_rate)
      ]
    ])

unfoldable pub commission_liabilities :
    List Account → List InsurancePolicy → List LedgerEntry → Result Decimal
commission_liabilities accounts policies entries =
    let explicit = total accounts entries AccountCategory.commission_liability in
    if is_zero explicit
    then money (
        derived_liability policies
          (select (has_category accounts AccountCategory.insurance_premium) entries) (whole 0))
    else money explicit

pub record Metrics : Type 0 where
  pub gross_profit : Decimal
  pub operating_profit : Decimal
  pub after_tax_result : Decimal
  pub payroll_revenue_ratio : Decimal
  pub product_margin : Decimal
  pub insurance_exposure : Decimal
  pub coverage_margin : Decimal
  pub commission_liability : Decimal

abbrev pub or_zero_margin : Option ℕ → Result Decimal → Result Decimal
or_zero_margin none margin = money (whole 0)
or_zero_margin (some product) margin = margin

-- The values of `calculate_metrics`.
unfoldable pub metric_values : ℕ → ℕ → ℕ → Option ℕ → FinanceStore → Result Metrics
metric_values organization start end product s = do
  let entries = entries_of organization start end product s.entries
  gross ← gross_profit s.accounts entries
  operating ← operating_profit s.accounts entries
  after_tax ← after_tax_result s.accounts entries
  payroll_ratio ← payroll_to_revenue_ratio s.accounts entries
  margin ← or_zero_margin product (product_margin s.accounts entries)
  exposure ← insurance_exposure organization s.policies
  coverage ← coverage_margin s.accounts entries
  commission ← commission_liabilities s.accounts s.policies entries
  ok (record {
    gross_profit = gross;
    operating_profit = operating;
    after_tax_result = after_tax;
    payroll_revenue_ratio = payroll_ratio;
    product_margin = margin;
    insurance_exposure = exposure;
    coverage_margin = coverage;
    commission_liability = commission;
  })

abbrev pub metric_rows : ℕ → ℕ → ℕ → Option ℕ → List ℕ → Metrics → List FinancialMetric
metric_rows organization start end product ids m =
    let row : MetricType → Decimal → FinancialMetric = λ kind value. record {
      organization = organization;
      metric_type = kind;
      period_start = start;
      period_end = end;
      value = value;
      product = product;
      source_entry_ids = ids;
    } in
    row Models.gross_profit m.gross_profit
    ∷ row Models.operating_profit m.operating_profit
    ∷ row Models.after_tax_result m.after_tax_result
    ∷ row Models.payroll_revenue_ratio m.payroll_revenue_ratio
    ∷ row Models.product_margin m.product_margin
    ∷ row Models.insurance_exposure m.insurance_exposure
    ∷ row Models.coverage_margin m.coverage_margin
    ∷ row MetricType.commission_liability m.commission_liability
    ∷ []

-- `calculate_metrics`, which stores the values if it is asked to persist them.
unfoldable pub calculate_metrics :
    ℕ → ℕ → ℕ → Option ℕ → Bool → FinanceStore → Result (Metrics × FinanceStore)
calculate_metrics organization start end product persist s = do
  m ← metric_values organization start end product s
  let ids = map (λ e. e.pk) (entries_of organization start end product s.entries)
  ok (
    m,
    if persist
        then record s { metrics = s.metrics ++ metric_rows organization start end product ids m }
        else s,
  )
