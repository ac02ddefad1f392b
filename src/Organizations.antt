-- ===== src/Organizations.antt =====
-- apps/organizations: memberships, the central authorization of services.py, the tenant filters of
-- models.py and mixins.py, and the life of an organization record.
mod Roles
pub mod Access
pub mod Groups
pub mod Validators
pub mod Tenants
mod Tests
unfoldable pub use Roles.*
use payroll_management_syste.Prelude.{
  ℕ, ◌≡◌, refl, Bool, true, false, not, ◌&&◌, ◌||◌, Option, none, some, List, [], ◌∷◌, ◌++◌, any,
  find, select, map, update_where, ◌==◌, if◌then◌else◌,
}
use payroll_management_syste.Outcome.{
  Result, ok, err, permission_denied, validation_error, ◌>>=◌, ◌>>◌, or_raise, raise_unless,
  raise_if,
}

-- The account that a request comes from. An anonymous one is not authenticated.
pub record User : Type 0 where
  pub pk : ℕ
  pub is_authenticated : Bool
  pub is_superuser : Bool

pub record OrganizationMembership : Type 0 where
  pub user : ℕ
  pub organization : ℕ
  pub role : OrganizationRole
  pub is_active : Bool

abbrev pub is_of : ℕ → ℕ → OrganizationMembership → Bool
is_of user organization m = m.user == user && m.organization == organization

unfoldable pub membership_for :
    List OrganizationMembership → User → ℕ → Option OrganizationMembership
membership_for memberships user organization =
    if user.is_authenticated
    then find (λ m. is_of user.pk organization m && m.is_active) memberships
    else none

-- The membership against the action; `none` is Python's `None`, also for a required action.
unfoldable pub check_membership :
    Option OrganizationMembership → Option ActionName → Result (Option OrganizationMembership)
check_membership none action = err (permission_denied "not authorized")
check_membership (some m) none = err (permission_denied "not authorized")
check_membership (some m) (some action) =
    if permits m.role action then ok (some m) else err (permission_denied "not authorized")

unfoldable pub authorize :
    List OrganizationMembership
    → User
    → ℕ
    → Option ActionName
    → Result (Option OrganizationMembership)
authorize memberships user organization action =
    if user.is_superuser
    then ok none
    else check_membership (membership_for memberships user organization) action

-- The rows of django's user-to-group table, for the groups that are named as a role.
pub record Directory : Type 0 where
  pub memberships : List OrganizationMembership
  pub groups : List (ℕ × OrganizationRole)

-- `OrganizationMembership._sync_role_groups`: the user's role groups become those of the active
-- memberships.
unfoldable pub sync_role_groups : ℕ → Directory → Directory
sync_role_groups user d = record d {
  groups =
      select (λ g. not (g.0 == user)) d.groups
      ++ map (λ m. (user, m.role)) (select (λ m. m.user == user && m.is_active) d.memberships);
}

abbrev pub granted : OrganizationRole → OrganizationMembership → OrganizationMembership
granted role m = record m { role = role; is_active = true }

abbrev pub created : ℕ → ℕ → OrganizationRole → OrganizationMembership
created user organization role = record {
  user = user;
  organization = organization;
  role = role;
  is_active = true;
}

-- `update_or_create(user=user, organization=organization, defaults=…)` with the model's `save`.
unfoldable pub update_or_create : ℕ → ℕ → OrganizationRole → Directory → Directory
update_or_create user organization role d =
    let ms = d.memberships in
    sync_role_groups user (record d {
      memberships =
          if any (is_of user organization) ms
          then update_where (is_of user organization) (granted role) ms
          else ms ++ created user organization role ∷ [];
    })

unfoldable pub assign_membership : User → ℕ → ℕ → OrganizationRole → Directory → Result Directory
assign_membership actor user organization role d = do
  _ ← authorize d.memberships actor organization (some organization_manage)
  ok (update_or_create user organization role d)

-- `OrganizationMembership.delete`
unfoldable pub delete_membership : ℕ → ℕ → Directory → Directory
delete_membership user organization d =
    sync_role_groups user
      (record d { memberships = select (λ m. not (is_of user organization m)) d.memberships })

-- `OrganizationScopedQuerySet.for_organization`, on rows with their organization.
unfoldable pub for_organization {ℓ} : {A : Type ℓ} → (A → ℕ) → ℕ → List A → List A
for_organization organization_of organization = select (λ row. organization_of row == organization)

-- `OrganizationScopedQuerySet.for_user`
unfoldable pub for_user {ℓ} :
    {A : Type ℓ} → (A → ℕ) → List OrganizationMembership → User → List A → List A
for_user organization_of memberships user rows =
    if user.is_authenticated
    then (if user.is_superuser
        then rows
        else select
            (λ row. any (λ m. is_of user.pk (organization_of row) m && m.is_active) memberships)
            rows)
    else []
