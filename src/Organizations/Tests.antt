-- ===== src/Organizations/Tests.antt =====
-- The theorems about memberships on an organization of two users.
use payroll_management_syste.Prelude.{
  ◌≡◌, refl, ◌↔◌, ◌⊎◌, true, false, Option, some, List, [], ◌∷◌, ◌++◌, Elem,
}
use payroll_management_syste.Outcome.{ok}
use payroll_management_syste.Organizations.{
  User, OrganizationMembership, Directory, administrator, payroll_operator, authorize,
  membership_for, check_membership, permits, role_actions, payroll_write, assign_membership,
  update_or_create, sync_role_groups,
}
use payroll_management_syste.Organizations.Access.{
  HasAction, authorize_iff, assign_membership_by_administrator,
}

abbrev admin : User
admin = record { pk = 7; is_authenticated = true; is_superuser = false }

abbrev memberships : List OrganizationMembership
memberships = record { user = 7; organization = 1; role = administrator; is_active = true } ∷ []

abbrev directory : Directory
directory = record { memberships = memberships; groups = (7, administrator) ∷ [] }

abbrev after : Directory
after = record {
  memberships =
      memberships
      ++ record { user = 8; organization = 1; role = payroll_operator; is_active = true } ∷ [];
  groups = (7, administrator) ∷ (8, payroll_operator) ∷ [];
}

assigns : assign_membership admin 8 1 payroll_operator directory ≡ ok after
unfolding assign_membership authorize membership_for check_membership permits role_actions
    update_or_create sync_role_groups
assigns = refl

authorize_iff_example :
    ((r : Option OrganizationMembership) × (authorize memberships admin 1 (some payroll_write)
        ≡ ok r))
    ↔ ((false ≡ true) ⊎ ((true ≡ true) × HasAction memberships 7 1 payroll_write))
authorize_iff_example = authorize_iff memberships admin 1 payroll_write (refl, tt)

assign_membership_by_administrator_example :
    (false ≡ true)
    ⊎ ((m : OrganizationMembership) × Elem m memberships
        × (m.user ≡ 7)
        × (m.organization ≡ 1)
        × (m.is_active ≡ true)
        × (m.role ≡ administrator))
assign_membership_by_administrator_example =
    assign_membership_by_administrator admin 8 1 payroll_operator directory after assigns
