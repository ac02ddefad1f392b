-- ===== src/Organizations/Tenants/Tests.antt =====
-- Two organizations, one of them archived.
use payroll_management_syste.Prelude.{
  ℕ, ◌≡◌, refl, ◌↔◌, true, false, none, some, List, [], ◌∷◌, ◌==◌, update_where, Elem,
}
use payroll_management_syste.Outcome.{ok}
use payroll_management_syste.Organizations.{
  User, OrganizationMembership, administrator, payroll_write, authorize, membership_for,
  check_membership, permits, role_actions, for_user, for_organization,
}
use payroll_management_syste.Organizations.Validators.{
  validate_identifier, is_identifier, is_identifier_rest, validate_currency, supported_currencies,
}
use payroll_management_syste.Organizations.Tenants.{
  Organization, LifecycleStatus, clean_organization, full_clean_organization, is_country_code,
  closed, archive_organization, get_organization, get_queryset,
}
use payroll_management_syste.Organizations.Tenants.Isolation.{IsOpened, get_queryset_isolated}

abbrev member : User
member = record { pk = 7; is_authenticated = true; is_superuser = false }

abbrev memberships : List OrganizationMembership
memberships = record { user = 7; organization = 1; role = administrator; is_active = true } ∷ []

abbrev organization : Organization
organization = record {
  pk = 1;
  name = "North";
  slug = "north";
  registration_number = some "N-1";
  jurisdiction = "US";
  default_currency = "USD";
  status = LifecycleStatus.active;
  is_active = true;
  archived_at = none;
  retention_until = none;
}

abbrev organizations : List Organization
organizations =
    record organization { pk = 2; name = "South"; slug = "south"; registration_number = none }
    ∷ organization
    ∷ []

-- Rows with their organization.
abbrev rows : List (ℕ × ℕ)
rows = (10, 1) ∷ (11, 2) ∷ (12, 1) ∷ []

shows :
    get_queryset
      (λ (row : ℕ × ℕ). row.1)
      memberships
      member
      (some payroll_write)
      1
      organizations
      rows
    ≡ ok ((10, 1) ∷ (12, 1) ∷ [])
unfolding get_queryset get_organization authorize membership_for check_membership permits
    role_actions for_user for_organization
shows = refl

get_queryset_isolated_example :
    ((o : Organization) × IsOpened memberships member (some payroll_write) 1 organizations o)
    × ((row : ℕ × ℕ) → Elem row ((10, 1) ∷ (12, 1) ∷ []) ↔ (Elem row rows × (row.1 ≡ 1)))
get_queryset_isolated_example =
    get_queryset_isolated (λ (row : ℕ × ℕ). row.1) memberships member (some payroll_write) 1
      organizations rows ((10, 1) ∷ (12, 1) ∷ []) (λ e. cc) shows

abbrev after : List Organization
after = update_where (λ x. x.pk == 1) (closed 50 (some 90)) organizations

archives : archive_organization 50 (some 90) organization organizations ≡ ok after
unfolding archive_organization full_clean_organization clean_organization is_country_code
    validate_identifier is_identifier is_identifier_rest validate_currency supported_currencies
archives = refl
