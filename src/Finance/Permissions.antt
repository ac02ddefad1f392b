-- ===== src/Finance/Permissions.antt =====
-- apps/finance/permissions.py: the categories of the ledger that a user may see.
use payroll_management_syste.Prelude.{ℕ, none, some, List, [], ◌∷◌, if◌then◌else◌}
use payroll_management_syste.Organizations.{
  User, OrganizationMembership, OrganizationRole, administrator, payroll_operator, employee,
  auditor, client, membership_for,
}
use payroll_management_syste.Finance.Models.{
  AccountCategory, revenue, operating_cost, payroll_cost, tax, investment_fund, insurance_premium,
  insurance_claim, commission_liability,
}

abbrev pub all_categories : List AccountCategory
all_categories =
    revenue ∷ operating_cost ∷ payroll_cost ∷ tax ∷ investment_fund ∷ insurance_premium
    ∷ insurance_claim ∷ commission_liability ∷ []

-- `ROLE_CATEGORIES`
unfoldable pub role_categories : OrganizationRole → List AccountCategory
role_categories administrator = all_categories
role_categories auditor = all_categories
role_categories client = revenue ∷ operating_cost ∷ insurance_premium ∷ insurance_claim ∷ []
role_categories payroll_operator = revenue ∷ payroll_cost ∷ []
role_categories employee = []

-- `visible_categories`
unfoldable pub visible_categories : List OrganizationMembership → User → ℕ → List AccountCategory
visible_categories memberships user organization =
    if user.is_superuser
    then all_categories
    else elim (membership_for memberships user organization) [
      | none ↦ []
      | some m ↦ role_categories m.role
    ]
