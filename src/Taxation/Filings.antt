-- ===== src/Taxation/Filings.antt =====
-- Filing periods of apps/taxation/models.py and services/filings.py: the export of their liabilities.
-- The JSON and CSV texts of the rows and the SHA-256 digest are parameters.
use payroll_management_syste.Prelude.{
  ℕ, String, Option, List, [], ◌∷◌, ◌++◌, map, str_eq, ◌==◌, if◌then◌else◌, any, select, find,
}
use payroll_management_syste.Prelude.Int.{ℤ}
use payroll_management_syste.Outcome.{
  Result, ok, err, validation_error, does_not_exist, or_raise, raise_unless, ◌>>=◌, ◌>>◌,
}
use payroll_management_syste.Taxation.Models.{Jurisdiction}

pub record FilingPeriod : Type 0 where
  pub pk : ℕ
  pub organization : ℕ
  pub jurisdiction : ℕ
  pub period_type : String
  pub starts_on : ℕ
  pub ends_on : ℕ
  pub due_on : ℕ
  pub status : String

-- `amount` is in cents.
pub record TaxLiability : Type 0 where
  pub organization : ℕ
  pub filing_period : ℕ
  pub rule_version : ℕ
  pub liability_type : String
  pub amount : ℤ
  pub payment_reference : String

pub record FilingExport : Type 0 where
  pub organization : ℕ
  pub filing_period : ℕ
  pub amendment : Option ℕ
  pub format : String
  pub payload : String
  pub checksum : String

-- A row of `values("liability_type", "amount", "payment_reference")`.
abbrev pub LiabilityRow : Type 0
LiabilityRow = String × ℤ × String

pub record FilingContext : Type 0 where
  pub json_text : List LiabilityRow → String
  pub csv_text : List LiabilityRow → String
  pub sha256 : String → String

pub record FilingStore : Type 0 where
  pub jurisdictions : List Jurisdiction
  pub liabilities : List TaxLiability
  pub exports : List FilingExport

abbrev pub liability_rows : FilingPeriod → List TaxLiability → List LiabilityRow
liability_rows period liabilities =
    map (λ l. (l.liability_type, l.amount, l.payment_reference))
      (select (λ l. l.filing_period == period.pk) liabilities)

-- `export_format not in filing_period.jurisdiction.filing_export_formats`
unfoldable pub check_format : List Jurisdiction → FilingPeriod → String → Result (Unit {0})
check_format jurisdictions period format = do
  j ← or_raise (find (λ j. j.pk == period.jurisdiction) jurisdictions) does_not_exist
  raise_unless (any (str_eq format) j.filing_export_formats)
      (validation_error "unsupported export format")

-- The branches on the format.
unfoldable pub payload_of : FilingContext → String → List LiabilityRow → Result String
payload_of c format rows =
    if str_eq format "json"
    then ok (c.json_text rows)
    else if str_eq format "csv"
    then ok (c.csv_text rows)
    else err (validation_error "no exporter is implemented")

-- `create_filing_export`
unfoldable pub create_filing_export :
    FilingContext
    → FilingPeriod
    → String
    → Option ℕ
    → FilingStore
    → Result (FilingExport × FilingStore)
create_filing_export c period format amendment s = do
  check_format s.jurisdictions period format
  payload ← payload_of c format (liability_rows period s.liabilities)
  let filing_export : FilingExport = record {
    organization = period.organization;
    filing_period = period.pk;
    amendment = amendment;
    format = format;
    payload = payload;
    checksum = c.sha256 payload;
  }
  ok (filing_export, record s { exports = s.exports ++ filing_export ∷ [] })

-- `FilingExport.clean`
unfoldable pub clean_export :
    List Jurisdiction → List FilingPeriod → FilingExport → Result (Unit {0})
clean_export jurisdictions periods e = do
  period ← or_raise (find (λ p. p.pk == e.filing_period) periods) does_not_exist
  check_format jurisdictions period e.format
