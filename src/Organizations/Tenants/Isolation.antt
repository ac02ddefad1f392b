-- ===== src/Organizations/Tenants/Isolation.antt =====
-- What a view of an organization shows, and that an archived organization shows nothing.
use payroll_management_syste.Prelude.{
  ℕ, ◌≡◌, refl, sym, ap, subst, ◌∙◌, ◌↔◌, ◌⊎◌, inl, inr, true, ◌&&◌, Option, none, List, [], ◌∷◌,
  arith, ◌==◌, ==_iff, Bool-cases, Option-cases, any, select, find, update_where, Elem, find-Elem,
  Elem-any, find_sound, Elem-select, select-Elem,
}
use payroll_management_syste.Outcome.{
  ok, err, permission_denied, or_raise, or_raise-ok, Ensures, Ensures-bind, Ensures-elim,
  ok-injective, >>=-eq-ok,
}
use payroll_management_syste.Organizations.{
  User, OrganizationMembership, ActionName, is_of, authorize, membership_for, check_membership,
  for_user, for_organization,
}
use payroll_management_syste.Organizations.Tenants.{
  Organization, full_clean_organization, closed, archive_organization, get_organization,
  get_queryset,
}

-- A user who passes is a superuser, or has an active membership of the organization.
abbrev IsMember : List OrganizationMembership → User → ℕ → Type 0
IsMember memberships user organization =
    (user.is_superuser ≡ true)
    ⊎ ((user.is_authenticated ≡ true)
        × (any (λ m. is_of user.pk organization m && m.is_active) memberships ≡ true))

authorize-IsMember :
    (memberships : List OrganizationMembership) (user : User) (organization : ℕ)
    (action : Option ActionName) (r : Option OrganizationMembership)
    → authorize memberships user organization action ≡ ok r
    → IsMember memberships user organization
unfolding authorize membership_for check_membership
authorize-IsMember memberships user organization action r h = elim (Bool-cases user.is_superuser) [
  | inl super ↦ inl super
  | inr plain ↦ elim (Bool-cases user.is_authenticated) [
    | inr anonymous ↦
        let refused : check_membership none action ≡ ok r = rw (plain, anonymous) at h in cc
    | inl known ↦
        let checked : check_membership
              (find (λ m. is_of user.pk organization m && m.is_active) memberships) action
            ≡ ok r =
          rw (plain, known) at h in
        elim (Option-cases (find (λ m. is_of user.pk organization m && m.is_active) memberships)) [
          | inl absent ↦
              let refused : check_membership none action ≡ ok r = rw absent at checked in cc
          | inr (m, found) ↦ inr (
            known,
            let test =
                  λ (m : OrganizationMembership). is_of user.pk organization m && m.is_active in
                Elem-any test memberships m (find-Elem test memberships m found)
                  (find_sound test memberships m found),
          )
        ]
  ]
]

-- The organization that a view works on.
abbrev pub IsOpened :
    List OrganizationMembership
    → User
    → Option ActionName
    → ℕ
    → List Organization
    → Organization
    → Type 0
IsOpened memberships user action pk organizations o =
    Elem o organizations
    × (o.pk ≡ pk)
    × (o.is_active ≡ true)
    × ((r : Option OrganizationMembership) × (authorize memberships user pk action ≡ ok r))

get_organization-IsOpened :
    (memberships : List OrganizationMembership) (user : User) (action : Option ActionName) (pk : ℕ)
    (organizations : List Organization)
    → Ensures
        (IsOpened memberships user action pk organizations)
        (get_organization memberships user action pk organizations)
unfolding get_organization
get_organization-IsOpened memberships user action pk organizations =
    let P = IsOpened memberships user action pk organizations in
    let test = λ (o : Organization). o.pk == pk && o.is_active in
    Ensures-bind P (or_raise (find test organizations) _) _ λ o found.
      let is = or_raise-ok _ _ found in
      let holds = find_sound test organizations o is in
      let key : o.pk ≡ pk = ground arith in
      let usable : o.is_active ≡ true = ground arith in
      Ensures-bind P (authorize memberships user o.pk action) _ λ r may. (
        find-Elem test organizations o is,
        key,
        usable,
        (r, ap (λ k. authorize memberships user k action) (sym key) ∙ may),
      )

module _ {A : Type 0} (organization_of : A → ℕ) where
  for_user-Elem :
      (memberships : List OrganizationMembership) (user : User) (pk : ℕ) (rows : List A) (row : A)
      → (user.is_superuser ≡ true → user.is_authenticated ≡ true)
      → IsMember memberships user pk
      → organization_of row ≡ pk
      → Elem row rows ↔ Elem row (for_user organization_of memberships user rows)
  unfolding for_user
  for_user-Elem memberships user pk rows row signed_in (inl super) here =
      rw (signed_in super, super) (λ m. m, λ m. m)
  for_user-Elem memberships user pk rows row signed_in (inr (known, member)) here =
      elim (Bool-cases user.is_superuser) [
        | inl super ↦ rw (known, super) (λ m. m, λ m. m)
        | inr plain ↦
            let test = λ (x : A).
              any (λ m. is_of user.pk (organization_of x) m && m.is_active) memberships in
            let shown : test row ≡ true =
              ap (λ k. any (λ m. is_of user.pk k m && m.is_active) memberships) here ∙ member in
            rw (known, plain)
              (λ m. select-Elem test rows row m shown, λ m. (Elem-select test rows row m).0)
      ]

  -- A view that answers shows the rows of the organization in its address, all of them and no other;
  -- the organization is stored and active, and the user may do the required action in it.
  pub get_queryset_isolated :
      (memberships : List OrganizationMembership) (user : User) (action : Option ActionName)
      (pk : ℕ) (organizations : List Organization) (rows shown : List A)
      → (user.is_superuser ≡ true → user.is_authenticated ≡ true)
      → get_queryset organization_of memberships user action pk organizations rows ≡ ok shown
      → ((o : Organization) × IsOpened memberships user action pk organizations o)
        × ((row : A) → Elem row shown ↔ (Elem row rows × (organization_of row ≡ pk)))
  unfolding get_queryset for_organization
  get_queryset_isolated memberships user action pk organizations rows shown signed_in h =
      let (o, found, answer) =
        >>=-eq-ok (get_organization memberships user action pk organizations) _ h in
      let (stored, key, usable, (r, may)) =
        Ensures-elim (IsOpened memberships user action pk organizations)
          (get_organization memberships user action pk organizations) o
          (get_organization-IsOpened memberships user action pk organizations) found in
      let member = authorize-IsMember memberships user pk action r may in
      let visible = for_user organization_of memberships user rows in
      let same : select (λ row. organization_of row == pk) visible ≡ shown =
        ap (λ k. select (λ row. organization_of row == k) visible) (sym key)
        ∙ ok-injective answer in
      (
        (o, (stored, key, usable, (r, may))),
        λ row.
            let seen = for_user-Elem memberships user pk rows row signed_in member in
            let test = λ (x : A). organization_of x == pk in
            (
              λ m.
                  let (listed, of_it) =
                    Elem-select test visible row (subst (Elem row) (sym same) m) in
                  let here = (==_iff (organization_of row) pk).0 of_it in
                  ((seen here).1 listed, here),
              λ (m, here). subst (Elem row) same (
                  select-Elem test visible row ((seen here).0 m)
                    ((==_iff (organization_of row) pk).1 here)),
            ),
      )

-- Once an organization is archived, no view opens it, whoever the user is.
archive_organization_closes :
    (now : ℕ) (until : Option ℕ) (o : Organization)
    (organizations organizations' : List Organization) (memberships : List OrganizationMembership)
    (user : User) (action : Option ActionName)
    → archive_organization now until o organizations ≡ ok organizations'
    → get_organization memberships user action o.pk organizations'
      ≡ err (permission_denied "unknown or unauthorized organization")
unfolding archive_organization get_organization
archive_organization_closes now until o organizations organizations' memberships user action h =
    let (_, _, written) =
      >>=-eq-ok (full_clean_organization organizations (closed now until o)) _ h in
    let stored : update_where (λ x. x.pk == o.pk) (closed now until) organizations
        ≡ organizations' =
      ok-injective written in
    let missing =
      ap (λ xs. find (λ x. x.pk == o.pk && x.is_active) xs) (sym stored)
      ∙ closed_missing now until o.pk organizations in
    rw missing refl
  where
    closed_missing :
        (now : ℕ) (until : Option ℕ) (pk : ℕ) (organizations : List Organization)
        → find
            (λ x. x.pk == pk && x.is_active)
            (update_where (λ x. x.pk == pk) (closed now until) organizations)
          ≡ none
    closed_missing now until pk [] = refl
    closed_missing now until pk (x ∷ xs) = elim (Bool-cases (x.pk == pk)) [
      | inl t ↦ rw (t, t) (closed_missing now until pk xs)
      | inr f ↦ rw (f, f) (closed_missing now until pk xs)
    ]
