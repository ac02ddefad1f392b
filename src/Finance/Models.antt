-- ===== src/Finance/Models.antt =====
-- apps/finance/models.py: the ledger, insurance and metrics. A foreign key is the number of the row that
-- it names, a date its ordinal, and an amount its number of cents. Rates and metrics are decimals.
use payroll_management_syste.Prelude.{ℕ, Bool, false, Option, none, some, List, ltb, ◌==◌, find}
use payroll_management_syste.Prelude.{ℕ}
use payroll_management_syste.Outcome.{
  Result, ok, validation_error, or_raise, raise_if, raise_unless, ◌>>=◌, ◌>>◌,
}
use payroll_management_syste.Decimal.{Decimal}
use payroll_management_syste.Prelude.Int.{ℤ}

-- `AccountCategory`
pub data AccountCategory : Type 0 where
  revenue operating_cost payroll_cost tax investment_fund insurance_premium insurance_claim :
      AccountCategory
  commission_liability : AccountCategory

abbrev pub category_code : AccountCategory → ℕ
category_code revenue = 0
category_code operating_cost = 1
category_code payroll_cost = 2
category_code tax = 3
category_code investment_fund = 4
category_code insurance_premium = 5
category_code insurance_claim = 6
category_code commission_liability = 7

abbrev pub category_eq : AccountCategory → AccountCategory → Bool
category_eq a b = category_code a == category_code b

-- `FinancialAccount`
pub record Account : Type 0 where
  pub pk : ℕ
  pub organization : ℕ
  pub category : AccountCategory

-- `Product` and `InvestmentFund`, as far as a check reads them.
pub record Owned : Type 0 where
  pub pk : ℕ
  pub organization : ℕ

pub record InsurancePolicy : Type 0 where
  pub pk : ℕ
  pub organization : ℕ
  pub product : ℕ
  pub coverage_limit : ℤ
  pub commission_rate : Decimal
  pub effective_from : ℕ
  pub effective_to : Option ℕ

pub record InsuranceClaim : Type 0 where
  pub pk : ℕ
  pub organization : ℕ
  pub policy : ℕ
  pub occurred_on : ℕ
  pub reported_on : ℕ

pub record LedgerEntry : Type 0 where
  pub pk : ℕ
  pub organization : ℕ
  pub account : ℕ
  pub entry_date : ℕ
  pub amount : ℤ
  pub product : Option ℕ
  pub investment_fund : Option ℕ
  pub policy : Option ℕ

-- `MetricType`
pub data MetricType : Type 0 where
  gross_profit operating_profit after_tax_result payroll_revenue_ratio product_margin : MetricType
  insurance_exposure coverage_margin commission_liability : MetricType

pub record FinancialMetric : Type 0 where
  pub organization : ℕ
  pub metric_type : MetricType
  pub period_start : ℕ
  pub period_end : ℕ
  pub value : Decimal
  pub product : Option ℕ
  pub source_entry_ids : List ℕ

pub record FinanceStore : Type 0 where
  pub accounts : List Account
  pub products : List Owned
  pub funds : List Owned
  pub policies : List InsurancePolicy
  pub entries : List LedgerEntry
  pub metrics : List FinancialMetric

-- `value.organization_id != self.organization_id`, for the organization of a row that is named.
unfoldable pub check_owner : Option ℕ → ℕ → Result (Unit {0})
check_owner owner organization = do
  found ← or_raise owner (validation_error "the row does not exist")
  raise_unless (found == organization) (validation_error "must belong to the same organization")

abbrev pub owner_of : List Owned → ℕ → Option ℕ
owner_of rows pk = elim (find (λ r. r.pk == pk) rows) [ none ↦ none | some r ↦ some r.organization ]

abbrev pub policy_owner : List InsurancePolicy → ℕ → Option ℕ
policy_owner rows pk = elim (find (λ r. r.pk == pk) rows) [
  | none ↦ none
  | some r ↦ some r.organization
]

abbrev pub account_owner : List Account → ℕ → Option ℕ
account_owner rows pk = elim (find (λ r. r.pk == pk) rows) [
  | none ↦ none
  | some r ↦ some r.organization
]

-- A row that may be named.
unfoldable pub check_optional : (ℕ → Option ℕ) → Option ℕ → ℕ → Result (Unit {0})
check_optional owner none organization = ok tt
check_optional owner (some pk) organization = check_owner (owner pk) organization

abbrev pub ends_before : Option ℕ → ℕ → Bool
ends_before none start = false
ends_before (some stop) start = ltb stop start

-- `InsurancePolicy.clean`
unfoldable pub clean_policy : FinanceStore → InsurancePolicy → Result (Unit {0})
clean_policy s p = do
  check_owner (owner_of s.products p.product) p.organization
  raise_if (ends_before p.effective_to p.effective_from)
      (validation_error "policy end date cannot precede its start date")

-- `InsuranceClaim.clean`
unfoldable pub clean_claim : FinanceStore → InsuranceClaim → Result (Unit {0})
clean_claim s c = do
  check_owner (policy_owner s.policies c.policy) c.organization
  raise_if (ltb c.reported_on c.occurred_on)
      (validation_error "report date cannot precede occurrence date")

-- `LedgerEntry.clean`
unfoldable pub clean_entry : FinanceStore → LedgerEntry → Result (Unit {0})
clean_entry s e = do
  check_owner (account_owner s.accounts e.account) e.organization
  check_optional (owner_of s.products) e.product e.organization
  check_optional (owner_of s.funds) e.investment_fund e.organization
  check_optional (policy_owner s.policies) e.policy e.organization
