-- ===== src/Security.antt =====
-- apps/security/legal.py: the gate in front of regulated calculations in production.
pub mod Crypto
pub mod Throttle
mod Tests
use payroll_management_syste.Prelude.{String, Bool, List, str_eq, if◌then◌else◌, any}
use payroll_management_syste.Outcome.{Result, ok, improperly_configured, raise_unless}

-- The django settings that the gate reads.
pub record Settings : Type 0 where
  pub is_production : Bool
  pub approved_jurisdictions : List String

unfoldable pub require_approved_jurisdiction : Settings → String → Result (Unit {0})
require_approved_jurisdiction settings jurisdiction_code =
    if settings.is_production
    then raise_unless (any (λ code. str_eq code jurisdiction_code) settings.approved_jurisdictions)
        (improperly_configured "calculations require documented legal and accounting approval")
    else ok tt
