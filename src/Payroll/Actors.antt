-- ===== src/Payroll/Actors.antt =====
-- What the payroll services read besides their own tables, and `_role_for` of
-- apps/payroll/services/processing.py.
use payroll_management_syste.Prelude.{ℕ, ◌&&◌, none, some, List, if◌then◌else◌, find}
use payroll_management_syste.Outcome.{Result, ok, err, permission_denied}
use payroll_management_syste.Organizations.{
  User, OrganizationMembership, OrganizationRole, administrator, is_of,
}
use payroll_management_syste.Security.{Settings}
use payroll_management_syste.Taxation.Models.{
  Jurisdiction, TaxRuleVersion, OrganizationTaxConfiguration,
}
use payroll_management_syste.Taxation.Engine.{Registry}

pub record Context : Type 0 where
  pub settings : Settings
  pub memberships : List OrganizationMembership
  pub jurisdictions : List Jurisdiction
  pub rules : List TaxRuleVersion
  pub configurations : List OrganizationTaxConfiguration
  pub registry : Registry
  pub now : ℕ

-- `_role_for`
unfoldable pub role_for : List OrganizationMembership → User → ℕ → Result OrganizationRole
role_for memberships actor organization =
    if actor.is_superuser
    then ok administrator
    else elim (find (λ m. is_of actor.pk organization m && m.is_active) memberships) [
      | none ↦ err (permission_denied "an active organization membership is required")
      | some m ↦ ok m.role
    ]
