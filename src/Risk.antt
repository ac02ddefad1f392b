-- ===== src/Risk.antt =====
-- apps/risk/models.py: the entries of the risk register. A foreign key is the number of its row.
use payroll_management_syste.Prelude.{ℕ, ◌*◌, String, Bool, ◌&&◌, List, leb, any}
use payroll_management_syste.Outcome.{Result, validation_error, raise_unless, ◌>>◌}
use payroll_management_syste.Organizations.{OrganizationMembership, is_of}

pub data RiskLikelihood : Type 0 where
  rare unlikely possible likely almost_certain : RiskLikelihood

abbrev pub likelihood_value : RiskLikelihood → ℕ
likelihood_value rare = 1
likelihood_value unlikely = 2
likelihood_value possible = 3
likelihood_value likely = 4
likelihood_value almost_certain = 5

pub data RiskImpact : Type 0 where
  insignificant minor moderate major severe : RiskImpact

abbrev pub impact_value : RiskImpact → ℕ
impact_value insignificant = 1
impact_value minor = 2
impact_value moderate = 3
impact_value major = 4
impact_value severe = 5

-- `opened` is "open", a word of the language.
pub data RiskStatus : Type 0 where
  opened mitigating accepted closed : RiskStatus

pub record RiskRegisterEntry : Type 0 where
  pub pk : ℕ
  pub organization : ℕ
  pub title : String
  pub description : String
  pub likelihood : ℕ
  pub impact : ℕ
  pub owner : ℕ
  pub mitigation : String
  pub review_date : ℕ
  pub status : RiskStatus

-- `RiskRegisterEntry.score`
unfoldable pub score : RiskRegisterEntry → ℕ
score e = e.likelihood * e.impact

-- The choices of the two numbers.
abbrev pub is_choice : ℕ → Bool
is_choice n = leb 1 n && leb n 5

-- `full_clean`: the fields, and `RiskRegisterEntry.clean`.
unfoldable pub clean_risk : List OrganizationMembership → RiskRegisterEntry → Result (Unit {0})
clean_risk memberships e = do
  raise_unless (is_choice e.likelihood && is_choice e.impact)
      (validation_error "value is not a valid choice")
  raise_unless (any (λ m. is_of e.owner e.organization m && m.is_active) memberships)
      (validation_error "risk owner must be an active member of the organization")
