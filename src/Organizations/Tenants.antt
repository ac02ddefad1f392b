-- ===== src/Organizations/Tenants.antt =====
-- `Organization` of apps/organizations/models.py and `OrganizationAccessMixin` of mixins.py. The
-- formats of slugs and e-mail addresses are left out, and letters are the ASCII ones.
pub mod Isolation
mod Tests
use payroll_management_syste.Prelude.{
  ℕ, zero, suc, ◌+◌, ◌-◌, ◌*◌, ◌/◌, ◌%◌, ◌^◌, ◌≤◌, ◌<◌, max, min, String, ◌≡◌, refl, sym, ap, subst,
  ◌∙◌, ◌≢◌, ◌↔◌, ◌⊎◌, inl, inr, Bool, true, false, not, ◌&&◌, ◌||◌, Option, none, some,
  some-injective, List, [], ◌∷◌, ◌++◌, map, append-nil, append_assoc, arith, str_eq, str_eq_iff,
  ltb, leb, ◌==◌, if◌then◌else◌, ==_iff, Bool-cases, Option-cases, length, length-append, any, all,
  select, find, update_where, All, All-append, any-append, Elem, find-Elem, Elem-any, find_sound,
  select-append, All-select, All-map, Elem-select, select-Elem, select-All, find-append_new,
  length-update_where,
}
use payroll_management_syste.Prelude.Text.{codes, is_upper_letter, is_lower_letter}
use payroll_management_syste.Outcome.{
  Result, ok, err, validation_error, permission_denied, or_raise, raise_if, raise_unless, ◌>>=◌,
  ◌>>◌,
}
use payroll_management_syste.Organizations.{
  User, OrganizationMembership, ActionName, authorize, for_user, for_organization,
}
use payroll_management_syste.Organizations.Validators.{validate_identifier, validate_currency}

-- `LifecycleStatus`
pub data LifecycleStatus : Type 0 where
  draft active suspended terminated archived : LifecycleStatus

abbrev pub is_archived : LifecycleStatus → Bool
is_archived archived = true
is_archived _ = false

pub record Organization : Type 0 where
  pub pk : ℕ
  pub name : String
  pub slug : String
  pub registration_number : Option String
  pub jurisdiction : String
  pub default_currency : String
  pub status : LifecycleStatus
  pub is_active : Bool
  pub archived_at : Option ℕ
  pub retention_until : Option ℕ

-- `str.isupper`: some letter, and no lower one.
abbrev pub is_upper : List ℕ → Bool
is_upper cs = any is_upper_letter cs && not (any is_lower_letter cs)

-- `not jurisdiction or (len(jurisdiction) == 2 and jurisdiction.isupper())`
unfoldable pub is_country_code : String → Bool
is_country_code text = let cs = codes text in length cs == 0 || (length cs == 2 && is_upper cs)

abbrev pub has_time : Option ℕ → Bool
has_time none = false
has_time (some _) = true

-- `Organization.clean`
unfoldable pub clean_organization : Organization → Result (Unit {0})
clean_organization o = do
  raise_unless (is_country_code o.jurisdiction)
      (validation_error "use an uppercase ISO 3166-1 alpha-2 country code")
  raise_if (is_archived o.status && not (has_time o.archived_at))
      (validation_error "archived organizations require an archive timestamp")
  raise_if (has_time o.archived_at && not (is_archived o.status))
      (validation_error "an organization with an archive timestamp must be archived")

-- The validator of a registration number, which an empty one is not given to.
abbrev pub check_registration : Option String → Result (Unit {0})
check_registration none = ok tt
check_registration (some number) = if str_eq number "" then ok tt else validate_identifier number

abbrev pub same_registration : Option String → Option String → Bool
same_registration none other = false
same_registration (some a) none = false
same_registration (some a) (some b) = str_eq a b

-- Another row with the slug or the registration number.
abbrev pub is_taken : Organization → Organization → Bool
is_taken o x =
    not (x.pk == o.pk)
    && (str_eq x.slug o.slug || same_registration x.registration_number o.registration_number)

-- `full_clean`
unfoldable pub full_clean_organization : List Organization → Organization → Result (Unit {0})
full_clean_organization organizations o = do
  raise_if (str_eq o.name "" || str_eq o.slug "") (validation_error "this field cannot be blank")
  check_registration o.registration_number
  raise_if (length (codes o.jurisdiction) == 0) (validation_error "this field cannot be blank")
  validate_currency o.default_currency
  clean_organization o
  raise_if (any (is_taken o) organizations)
      (validation_error "an organization with this field already exists")

abbrev pub closed : ℕ → Option ℕ → Organization → Organization
closed now until o = record o {
  status = archived;
  is_active = false;
  archived_at = some now;
  retention_until = until;
}

-- `Organization.archive` of an instance, which saves these four fields of its row.
unfoldable pub archive_organization :
    ℕ → Option ℕ → Organization → List Organization → Result (List Organization)
archive_organization now until o organizations = do
  full_clean_organization organizations (closed now until o)
  ok (update_where (λ x. x.pk == o.pk) (closed now until) organizations)

-- `OrganizationAccessMixin.get_organization`, with `required_action`.
unfoldable pub get_organization :
    List OrganizationMembership
    → User
    → Option ActionName
    → ℕ
    → List Organization
    → Result Organization
get_organization memberships user required_action pk organizations = do
  organization ←
      or_raise (find (λ o. o.pk == pk && o.is_active) organizations)
        (permission_denied "unknown or unauthorized organization")
  _ ← authorize memberships user organization.pk required_action
  ok organization

-- `OrganizationAccessMixin.get_queryset`, of rows with their organization.
unfoldable pub get_queryset {ℓ} :
    {A : Type ℓ}
    → (A → ℕ)
    → List OrganizationMembership
    → User
    → Option ActionName
    → ℕ
    → List Organization
    → List A
    → Result (List A)
get_queryset organization_of memberships user required_action pk organizations rows = do
  organization ← get_organization memberships user required_action pk organizations
  ok (
      for_organization organization_of organization.pk
        (for_user organization_of memberships user rows))
